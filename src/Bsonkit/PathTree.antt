-- ===== src/Bsonkit/PathTree.antt =====
-- bsonkit/path.go: PathNode, the tree of paths, and PathBuilder. A node is a Go map: a list of
-- entries, each with a child or with the value true, which is stored under PathEnd.
use lungo.Base.{
  ℕ, zero, suc, ◌+◌, ◌/◌, ◌%◌, Bool, true, false, [], ◌∷◌, ◌++◌, Text, text_eq, ltb, Result, ok,
  fail, panic, length, if◌then◌else◌,
}
use lungo.Bsonkit.Path.{path_end, path_segment, reduce_path}

mutual
  pub data PathNode : Type 0 where
    leaf : PathNode
    entry : Text → Slot → PathNode → PathNode

  pub data Slot : Type 0 where
    stored : Slot
    child : PathNode → Slot

-- Load, as the test `node.Load() == true`.
unfoldable pub load : PathNode → Bool
load leaf = false
load (entry k stored n) = let rest = load n in if text_eq k path_end then true else rest
load (entry k (child c) n) = let rest = load n in if text_eq k path_end then false else rest

-- The descent of Lookup for a path that has not ended: `whole` is the node, whose entries are
-- searched.
unfoldable pub descend : PathNode → PathNode → Text → Result (PathNode × Text)
descend whole leaf p = ok (whole, p)
descend whole (entry k stored n) p =
    let rest = descend whole n p in if text_eq k (path_segment p) then fail panic else rest
descend whole (entry k (child c) n) p =
    let rest = descend whole n p in
    let below = descend c c (reduce_path p) in
    if text_eq k (path_segment p)
    then (if text_eq (reduce_path p) path_end then ok (c, path_end) else below)
    else rest

unfoldable pub lookup : PathNode → Text → Result (PathNode × Text)
unfolding descend path_segment reduce_path
lookup n p = if text_eq p path_end then ok (n, path_end) else descend n n p

-- The nodes that Append makes for a path, with the value true in the last. Each segment takes a
-- byte at least, so a round for each byte and one more are enough.
unfoldable pub branch : ℕ → Text → PathNode
branch zero p = leaf
branch (suc fuel) p =
    let rest = branch fuel (reduce_path p) in
    if text_eq p path_end
    then entry path_end stored leaf
    else entry (path_segment p) (child rest) leaf

-- `n.Append(path).Store(true)`
unfoldable pub store_path : PathNode → Text → PathNode
unfolding branch path_segment reduce_path
store_path leaf p = branch (length p + 2) p
store_path (entry k stored n) p =
    let rest = store_path n p in
    if text_eq k (path_segment p)
    then (if text_eq p path_end
        then entry k stored n
        else entry k (child (branch (length p + 2) (reduce_path p))) n)
    else entry k stored rest
store_path (entry k (child c) n) p =
    let rest = store_path n p in
    let below = store_path c (reduce_path p) in
    if text_eq k (path_segment p)
    then (if text_eq p path_end then entry k stored n else entry k (child below) n)
    else entry k (child c) rest

-- strconv.AppendInt of an index in base 10. There are at most as many digits as the fuel.
unfoldable pub decimal_digits : ℕ → ℕ → Text
decimal_digits zero n = []
decimal_digits (suc fuel) n =
    let rest = decimal_digits fuel (n / 10) in
    if ltb n 10 then (b'0' + n) ∷ [] else rest ++ (b'0' + n % 10) ∷ []

abbrev pub itoa : ℕ → Text
itoa n = decimal_digits 20 n

-- AddSegment of PathBuilder, and AddIndex with the text of the index.
abbrev pub add_segment : Text → Text → Text
add_segment [] s = s
add_segment (c ∷ b) s = (c ∷ b) ++ b'.' ∷ s
