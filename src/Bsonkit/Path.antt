-- ===== src/Bsonkit/Path.antt =====
-- bsonkit/path.go: dotted paths as Go strings, and `strconv.Atoi` as the source uses it.
use lungo.Base.{
  ℕ, zero, suc, ◌+◌, ◌-◌, ◌*◌, ◌^◌, Bool, true, false, ◌&&◌, ◌||◌, Option, none, some, [], ◌∷◌, leb,
  ◌==◌, if◌then◌else◌, Text, text_eq, ℤ, pos, neg_ℤ, length,
}

-- PathEnd is the one byte NUL.
abbrev pub path_end : Text
path_end = 0 ∷ []

-- Up to the first dot, and what follows it.
unfoldable pub path_segment : Text → Text
path_segment [] = []
path_segment (c ∷ s) = if c == b'.' then [] else c ∷ path_segment s

unfoldable pub reduce_path : Text → Text
reduce_path [] = path_end
reduce_path (c ∷ s) = if c == b'.' then s else reduce_path s

-- The two parts of a path at its last dot.
unfoldable pub split_last : Text → Option (Text × Text)
split_last [] = none
split_last (c ∷ s) = elim (split_last s) [
  | some (front, back) ↦ some (c ∷ front, back)
  | none ↦ if c == b'.' then some ([], s) else none
]

unfoldable pub reduce_path_reverse : Text → Text
unfolding split_last
reduce_path_reverse p = elim (split_last p) [ some (front, back) ↦ front | none ↦ path_end ]

unfoldable pub path_segment_reverse : Text → Text
unfolding split_last
path_segment_reverse p = elim (split_last p) [ some (front, back) ↦ back | none ↦ p ]

abbrev pub is_digit : ℕ → Bool
is_digit c = leb b'0' c && leb c b'9'

-- The digits of a decimal numeral, after those that make `acc`.
unfoldable pub digits : ℕ → Text → Option ℕ
digits acc [] = some acc
digits acc (c ∷ s) =
    let rest = digits (10 * acc + (c - b'0')) s in if is_digit c then rest else none

-- At least one digit, and a value that int can hold.
abbrev pub numeral : ℕ → Text → Option ℕ
numeral bound [] = none
numeral bound (c ∷ s) = elim (digits 0 (c ∷ s)) [
  | none ↦ none
  | some n ↦ if leb n bound then some n else none
]

abbrev pub signed : Bool → Option ℕ → Option ℤ
signed negative none = none
signed true (some n) = some (neg_ℤ (pos n))
signed false (some n) = some (pos n)

-- strconv.Atoi on a platform whose int has 64 bits.
unfoldable pub atoi : Text → Option ℤ
unfolding digits
atoi [] = none
atoi (c ∷ s) =
    if c == b'-'
    then signed true (numeral (2 ^ 63) s)
    else if c == b'+'
    then signed false (numeral (2 ^ 63 - 1) s)
    else signed false (numeral (2 ^ 63 - 1) (c ∷ s))

-- Only a string that begins with a digit is taken for an index.
unfoldable pub parse_index : Text → Option ℤ
unfolding atoi
parse_index [] = none
parse_index (c ∷ s) = if is_digit c then atoi (c ∷ s) else none

abbrev pub is_index : Text → Bool
is_index s = elim (parse_index s) [ none ↦ false | some _ ↦ true ]

unfoldable pub has_number : Text → Bool
has_number [] = false
has_number (c ∷ s) = is_digit c || has_number s

-- The loop over the segments. A round shortens the path or ends it, so one round more than the
-- path has bytes is enough.
unfoldable pub any_index : ℕ → Text → Bool
any_index zero p = false
any_index (suc fuel) p =
    let rest = any_index fuel (reduce_path p) in
    if text_eq p path_end then false else if is_index (path_segment p) then true else rest

unfoldable pub indexed_path : Text → Bool
unfolding any_index has_number reduce_path path_segment parse_index
indexed_path p = if has_number p then any_index (length p + 1) p else false
