-- ===== src/Catalog.antt =====
-- catalog.go: handles and the catalog. The Go map of the namespaces is a list of its entries.
use lungo.Base.{
  Bool, true, false, ◌&&◌, List, [], ◌∷◌, ◌++◌, Option, none, some, if◌then◌else◌, Text, text_eq,
  codes, Result, ok, fail, ◌>>=◌, panic, missing_database, missing_collection, read_only,
}
use lungo.Bsonkit.Index.{Btree}
use lungo.Bsonkit.Number.{Numerics}
use lungo.Mongokit.Collection.{Collection, new_collection}

-- The database and the collection.
abbrev pub Handle : Type 0
Handle = Text × Text

abbrev pub handle_eq : Handle → Handle → Bool
handle_eq (a, b) (c, d) = text_eq a c && text_eq b d

abbrev pub handle_text : Handle → Text
handle_text (a, b) = a ++ b'.' ∷ b

abbrev pub local : Text
local = codes "local"

abbrev pub oplog_handle : Handle
oplog_handle = (local, codes "oplog")

unfoldable pub validate : Handle → Bool → Result (Unit {0})
validate ([], c) need_collection = fail missing_database
validate (b ∷ d, []) true = fail missing_collection
validate (b ∷ d, c) need_collection = ok tt

-- The checks before a write: the handle is valid, and the database is not the local one.
unfoldable pub check_access : Handle → Bool → Result (Unit {0})
unfolding validate text_eq
check_access handle need_collection = validate handle need_collection >>= λ _.
    if text_eq handle.0 local then fail read_only else ok tt

module _ {ℓ} {A : Type ℓ} where
  unfoldable pub namespace_at : List (Handle × A) → Handle → Option A
  unfolding text_eq
  namespace_at [] handle = none
  namespace_at ((h, c) ∷ ns) handle =
      let rest = namespace_at ns handle in if handle_eq h handle then some c else rest

  unfoldable pub set_namespace : List (Handle × A) → Handle → A → List (Handle × A)
  unfolding text_eq
  set_namespace [] handle c = (handle, c) ∷ []
  set_namespace ((h, x) ∷ ns) handle c =
      let rest = set_namespace ns handle c in
      if handle_eq h handle then (h, c) ∷ ns else (h, x) ∷ rest

-- The collection that a write works on, which is created where it is missing.
unfoldable pub or_new : {B : Btree} → Numerics → Option (Collection B) → Result (Collection B)
unfolding new_collection
or_new ar (some c) = ok c
or_new {B} ar none = new_collection B ar true

-- The clone of a nil collection panics.
unfoldable pub or_panic : {B : Btree} → Option (Collection B) → Result (Collection B)
or_panic (some c) = ok c
or_panic none = fail panic

pub record Catalog (B : Btree) : Type 0 where
  pub namespaces : List (Handle × Collection B)

-- NewCatalog
abbrev pub new_catalog : (B : Btree) → Numerics → Result (Catalog B)
new_catalog B ar =
    new_collection B ar false >>= λ c. ok (record { namespaces = (oplog_handle, c) ∷ [] })
