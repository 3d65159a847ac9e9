-- ===== src/Oplog/Events.antt =====
-- transaction.go, bsonkit/convert.go: what the events of the oplog say, as their conversion changes no
-- value.
use lungo.Base.{
  ◌≡◌, refl, sym, ap, ◌∙◌, subst, Bool, true, if◌then◌else◌, Option, some, codes, Text, ok, ◌>>=◌,
  bind-ok, ok_injective,
}
use lungo.Bsonkit.Value.{Value, missing, string, doc, array, Items, empty, item, Fields, end, field}
use lungo.Bsonkit.Sort.{Doc}
use lungo.Bsonkit.Path.{path_end}
use lungo.Bsonkit.Access.{get_path}
use lungo.Bsonkit.Access.RoundTrip.{get-end}
use lungo.Mongokit.Apply.{Changes}
use lungo.Catalog.{Handle}
use lungo.Oplog.{convert_value, convert_fields, convert_items, event, event_end, has_document}

mutual
  unfolding convert_value

  value_same : (v v' : Value) → convert_value v ≡ ok v' → v' ≡ v
  value_same missing v' h = cc
  value_same (doc fs) v' h =
      let (fs', e, k) = bind-ok (convert_fields fs) (λ x. ok (doc x)) v' h in
      sym (ok_injective k) ∙ ap (λ x. doc x) (fields_same fs fs' e)
  value_same (array xs) v' h =
      let (xs', e, k) = bind-ok (convert_items xs) (λ x. ok (array x)) v' h in
      sym (ok_injective k) ∙ ap (λ x. array x) (items_same xs xs' e)
  value_same v v' h = sym (ok_injective h)

  fields_same : (fs fs' : Fields) → convert_fields fs ≡ ok fs' → fs' ≡ fs
  fields_same end fs' h = sym (ok_injective h)
  fields_same (field key v fs) fs' h =
      let (v', e, k) =
        bind-ok (convert_value v) (λ x. convert_fields fs >>= λ gs. ok (field key x gs)) fs' h in
      let (gs, e', k') = bind-ok (convert_fields fs) (λ gs. ok (field key v' gs)) fs' k in
      sym (ok_injective k')
      ∙ ap (λ x. field key x gs) (value_same v v' e)
      ∙ ap (λ x. field key v x) (fields_same fs gs e')

  items_same : (xs xs' : Items) → convert_items xs ≡ ok xs' → xs' ≡ xs
  items_same empty xs' h = sym (ok_injective h)
  items_same (item v xs) xs' h =
      let (v', e, k) =
        bind-ok (convert_value v) (λ x. convert_items xs >>= λ ys. ok (item x ys)) xs' h in
      let (ys, e', k') = bind-ok (convert_items xs) (λ ys. ok (item v' ys)) xs' k in
      sym (ok_injective k')
      ∙ ap (λ x. item x ys) (value_same v v' e)
      ∙ ap (λ x. item v x) (items_same xs ys e')

abbrev pub Says : Fields → Value → Text → Doc → Type 0
Says e now op d =
    (get_path e (codes "_id.ts") ≡ now)
    × (get_path e (codes "operationType") ≡ string op)
    × (get_path e (codes "documentKey._id") ≡ get_path d.content (codes "_id"))
    × (get_path e (codes "fullDocument") ≡ doc d.content)

raw_event : Value → Handle → Text → Doc → Option Changes → Fields
raw_event now handle op d changes = field (codes "_id") (doc (field (codes "ts") now end)) (
    field (codes "clusterTime") now (
      field (codes "documentKey") (doc (field (codes "_id") (get_path d.content (codes "_id")) end))
        (field (codes "fullDocument") (doc d.content) (event_end handle op changes))))

raw_event-Says :
    (now : Value) (handle : Handle) (op : Text) (d : Doc) (changes : Option Changes)
    → Says (raw_event now handle op d changes) now op d
unfolding raw_event get_path
raw_event-Says now handle op d changes = (
  ap (λ (r : Value × Bool). r.0) (get-end now path_end refl),
  refl,
  ap (λ (r : Value × Bool). r.0) (get-end (get_path d.content (codes "_id")) path_end refl),
  refl,
)

-- The event of an insert, a replacement or an update has its timestamp, its operation, the id of
-- the document and the document as it is where Get looks for `_id.ts`, `operationType`,
-- `documentKey._id` and `fullDocument`.
pub event-Says :
    (now : Value) (handle : Handle) (op : Text) (d : Doc) (changes : Option Changes) (e : Fields)
    → event now handle op (some d) changes ≡ ok e
    → has_document op ≡ true
    → Says e now op d
unfolding event raw_event
event-Says now handle op d changes e h k =
    let raw : convert_fields (raw_event now handle op d changes) ≡ ok e =
      ap
        (λ (b : Bool). convert_fields (
          field (codes "_id") (doc (field (codes "ts") now end)) (
            field (codes "clusterTime") now (
              field (codes "documentKey")
                (doc (field (codes "_id") (get_path d.content (codes "_id")) end))
                (if b
                  then field (codes "fullDocument") (doc d.content) (event_end handle op changes)
                  else event_end handle op changes)))))
        (sym k)
      ∙ h in
    subst (λ (x : Fields). Says x now op d)
      (sym (fields_same (raw_event now handle op d changes) e raw))
      (raw_event-Says now handle op d changes)
