-- ===== src/Transaction/Keeps.antt =====
-- transaction.go: what the operations of a collection keep of a namespace, and an insert of the
-- oplog, the writes of a transaction keep of both.
use lungo.Base.{
  ℕ, ◌≡◌, subst, Bool, not, ◌&&◌, List, [], ◌∷◌, Option, none, some, Text, codes, ℤ, Result, ok,
  ◌>>=◌, bind-ok, ok_injective, ite_ok,
}
use lungo.Bsonkit.Value.{Fields}
use lungo.Bsonkit.Sort.{Doc}
use lungo.Bsonkit.Index.{Btree}
use lungo.Mongokit.Apply.{Changes}
use lungo.Mongokit.Collection.{Collection, Outcome}
use lungo.Mongokit.Collection.Operations as Op
use lungo.Mongokit.Collection.Operations.{World}
use lungo.Catalog.{Handle}
use lungo.Oplog.{Stamps, Log, event, append, append_first, append_deletes, append_updates}
use lungo.Transaction.{
  Attempt, is_nonempty, to_list, insert_one, upsert_one, replace_end, update_end, replace_one,
  update_some, delete_some,
}

pub record Keeps {B : Btree} (w : World) (P Q : Collection B → Type 0) : Type 0 where
  pub log_insert :
      (c c' : Collection B) (d : Doc) (o : Outcome) → Op.insert w c d ≡ ok (o, c') → Q c → Q c'
  pub insert :
      (c c' : Collection B) (d : Doc) (o : Outcome) → Op.insert w c d ≡ ok (o, c') → P c → P c'
  pub replace :
      (c c' : Collection B) (query : Fields) (repl : Doc) (order_by : Fields) (o : Outcome)
      → Op.replace w c query repl order_by ≡ ok (o, c')
      → P c
      → P c'
  pub update :
      (c c' : Collection B) (query change order_by : Fields) (skip : ℕ) (limit : ℤ)
      (filters : List Fields) (o : Outcome)
      → Op.update w c query change order_by skip limit filters ≡ ok (o, c')
      → P c
      → P c'
  pub upsert :
      (c c' : Collection B) (query : Fields) (repl change : Option Fields) (filters : List Fields)
      (o : Outcome)
      → Op.upsert w c query repl change filters ≡ ok (o, c')
      → P c
      → P c'
  pub delete :
      (c c' : Collection B) (query order_by : Fields) (skip : ℕ) (limit : ℤ) (o : Outcome)
      → Op.delete w c query order_by skip limit ≡ ok (o, c')
      → P c
      → P c'

module _ {B : Btree} (w : World) (s : Stamps) (handle : Handle) (P Q : Collection B → Type 0)
    (K : Keeps w P Q) where
  pub append-keeps :
      (log log' : Log B) (op : Text) (d : Option Doc) (c : Option Changes)
      → append w s handle log op d c ≡ ok log'
      → Q log.0
      → Q log'.0
  unfolding append
  append-keeps (oplog, n) log' op d c h q =
      let (content, e, k) = bind-ok (event (s.now n) handle op d c) _ log' h in
      let x : Doc = record { address = s.event_address n; content = content } in
      let ((o, oplog'), e', k') = bind-ok (Op.insert w oplog x) _ log' k in
      subst (λ (l : Log B). Q l.0) (ok_injective k') (K.log_insert oplog oplog' x o e' q)

  append_first-keeps :
      (log log' : Log B) (op : Text) (ds : List Doc)
      → append_first w s handle log op ds ≡ ok log'
      → Q log.0
      → Q log'.0
  unfolding append_first
  append_first-keeps log log' op [] h q = subst (λ (l : Log B). Q l.0) (ok_injective h) q
  append_first-keeps log log' op (d ∷ ds) h q = append-keeps log log' op (some d) none h q

  append_deletes-keeps :
      (log log' : Log B) (ds : List Doc)
      → append_deletes w s handle log ds ≡ ok log'
      → Q log.0
      → Q log'.0
  unfolding append_deletes
  append_deletes-keeps log log' [] h q = subst (λ (l : Log B). Q l.0) (ok_injective h) q
  append_deletes-keeps log log' (d ∷ ds) h q =
      let (l, e, k) = bind-ok (append w s handle log (codes "delete") (some d) none) _ log' h in
      append_deletes-keeps l log' ds k (append-keeps log l (codes "delete") (some d) none e q)

  append_updates-keeps :
      (log log' : Log B) (ds : List Doc) (cs : List Changes)
      → append_updates w s handle log ds cs ≡ ok log'
      → Q log.0
      → Q log'.0
  unfolding append_updates
  append_updates-keeps log log' [] cs h q = subst (λ (l : Log B). Q l.0) (ok_injective h) q
  append_updates-keeps log log' (d ∷ ds) [] h q = cc
  append_updates-keeps log log' (d ∷ ds) (c ∷ cs) h q =
      let (l, e, k) = bind-ok (append w s handle log (codes "update") (some d) (some c)) _ log' h in
      append_updates-keeps l log' ds cs k
        (append-keeps log l (codes "update") (some d) (some c) e q)

  abbrev pub Kept : Attempt B → Type 0
  Kept a = P a.namespace × Q a.log.0

  abbrev with_log : Outcome → Collection B → Log B → Attempt B
  with_log o c log = record { outcome = o; namespace = c; log = log }

  -- A namespace and a log that are put together at the end.
  kept :
      (o : Outcome) (c : Collection B) (r : Result (Log B)) (a : Attempt B)
      → (r >>= λ log. ok (with_log o c log)) ≡ ok a
      → P c
      → ((log : Log B) → r ≡ ok log → Q log.0)
      → Kept a
  kept o c r a h p q =
      let (log, e, k) = bind-ok r (λ log. ok (with_log o c log)) a h in
      subst (λ (b : Attempt B). Kept b) (ok_injective k) (p, q log e)

  pub insert_one-Kept :
      (c : Collection B) (log : Log B) (d : Doc) (a : Attempt B)
      → insert_one w s handle c log d ≡ ok a
      → P c
      → Q log.0
      → Kept a
  unfolding insert_one
  insert_one-Kept c log d a h p q =
      let ((o, c'), e, k) = bind-ok (Op.insert w c d) _ a h in
      kept o c' (append_first w s handle log (codes "insert") o.modified) a k
        (K.insert c c' d o e p) (λ l e'. append_first-keeps log l (codes "insert") o.modified e' q)

  upsert_one-Kept :
      (c : Collection B) (log : Log B) (query : Fields) (repl change : Option Fields)
      (filters : List Fields) (a : Attempt B)
      → upsert_one w s handle c log query repl change filters ≡ ok a
      → P c
      → Q log.0
      → Kept a
  unfolding upsert_one
  upsert_one-Kept c log query repl change filters a h p q =
      let ((o, c'), e, k) = bind-ok (Op.upsert w c query repl change filters) _ a h in
      kept o c' (append_first w s handle log (codes "insert") (to_list o.upserted)) a k
        (K.upsert c c' query repl change filters o e p)
        (λ l e'. append_first-keeps log l (codes "insert") (to_list o.upserted) e' q)

  replace_end-Kept :
      (c : Collection B) (log : Log B) (o : Outcome) (a : Attempt B)
      → replace_end w s handle log (o, c) ≡ ok a
      → P c
      → Q log.0
      → Kept a
  unfolding replace_end
  replace_end-Kept c log o a h p q =
      kept o c (append_first w s handle log (codes "replace") o.modified) a h p
        (λ l e. append_first-keeps log l (codes "replace") o.modified e q)

  update_end-Kept :
      (c : Collection B) (log : Log B) (o : Outcome) (a : Attempt B)
      → update_end w s handle log (o, c) ≡ ok a
      → P c
      → Q log.0
      → Kept a
  unfolding update_end
  update_end-Kept c log o a h p q =
      kept o c (append_updates w s handle log o.modified o.changes) a h p
        (λ l e. append_updates-keeps log l o.modified o.changes e q)

  pub replace_one-Kept :
      (c : Collection B) (log : Log B) (query : Fields) (repl : Doc) (order_by : Fields)
      (upsert : Bool) (a : Attempt B)
      → replace_one w s handle c log query repl order_by upsert ≡ ok a
      → P c
      → Q log.0
      → Kept a
  unfolding replace_one
  replace_one-Kept c log query repl order_by upsert a h p q =
      let ((o, c'), e, k) = bind-ok (Op.replace w c query repl order_by) _ a h in
      let p' = K.replace c c' query repl order_by o e p in
      ite_ok (not (is_nonempty o.modified) && upsert)
        (upsert_one w s handle c' log query (some repl.content) none [])
        (replace_end w s handle log (o, c')) a k
        (λ h'. upsert_one-Kept c' log query (some repl.content) none [] a h' p' q)
        (λ h'. replace_end-Kept c' log o a h' p' q)

  pub update_some-Kept :
      (c : Collection B) (log : Log B) (query change order_by : Fields) (upsert : Bool) (skip : ℕ)
      (limit : ℤ) (filters : List Fields) (a : Attempt B)
      → update_some w s handle c log query change order_by upsert skip limit filters ≡ ok a
      → P c
      → Q log.0
      → Kept a
  unfolding update_some
  update_some-Kept c log query change order_by upsert skip limit filters a h p q =
      let ((o, c'), e, k) =
        bind-ok (Op.update w c query change order_by skip limit filters) _ a h in
      let p' = K.update c c' query change order_by skip limit filters o e p in
      ite_ok (not (is_nonempty o.modified) && upsert)
        (upsert_one w s handle c' log query none (some change) filters)
        (update_end w s handle log (o, c')) a k
        (λ h'. upsert_one-Kept c' log query none (some change) filters a h' p' q)
        (λ h'. update_end-Kept c' log o a h' p' q)

  pub delete_some-Kept :
      (c : Collection B) (log : Log B) (query order_by : Fields) (skip : ℕ) (limit : ℤ)
      (a : Attempt B)
      → delete_some w s handle c log query order_by skip limit ≡ ok a
      → P c
      → Q log.0
      → Kept a
  unfolding delete_some
  delete_some-Kept c log query order_by skip limit a h p q =
      let ((o, c'), e, k) = bind-ok (Op.delete w c query order_by skip limit) _ a h in
      kept o c' (append_deletes w s handle log o.matched) a k
        (K.delete c c' query order_by skip limit o e p)
        (λ l e'. append_deletes-keeps log l o.matched e' q)
