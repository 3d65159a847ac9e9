-- ===== src/Tests/Transaction.antt =====
-- Calls on transactions, and the theorems there.
use lungo.Base.{
  ℕ, ◌+◌, ◌≡◌, ◌++◌, refl, true, false, List, [], ◌∷◌, Option, none, some, codes, pos, Result, ok,
  fail, compare_text, text_eq, read_only, arith,
}
use lungo.Bsonkit.Value.{int32, string, timestamp, doc, Fields, end, field}
use lungo.Oplog.{event}
use lungo.Oplog.Events.{Says, event-Says}
use lungo.Bsonkit.Number.{compare_int64s, compare_numbers}
use lungo.Bsonkit.Compare as C
use lungo.Bsonkit.Compare.{compare}
use lungo.Bsonkit.Set.{new_set}
use lungo.Bsonkit.Set.Valid.{new_set-IsValid}
use lungo.Bsonkit.Sort.{Doc}
use lungo.Bsonkit.Index.{index_less}
use lungo.Bsonkit.Index.Refines.{without}
use lungo.Mongokit.Match.{match_comp}
use lungo.Mongokit.Apply.{apply_inc}
use lungo.Mongokit.Extract.{extract_eq}
use lungo.Mongokit.Collection.{docs, Collection, empty_collection, new_collection}
use lungo.Catalog.{Handle, Catalog, new_catalog, oplog_handle, namespace_at, local}
use lungo.Oplog.{convert_value}
use lungo.Transaction.{Transaction, new_transaction}
use lungo.Transaction.Maintain.{Bounds, clean}
use lungo.Transaction.Calls.{
  Call, Setting, insert_call, update_call, delete_call, drop_call, perform, perform_all,
}
use lungo.Transaction.Invariant as Invariant
use lungo.Transaction.Dirty as Dirty
use lungo.Transaction.Refused as Refused
use lungo.Transaction.Refused.{answer}
use lungo.Bsonkit.Timestamp as Timestamp
use lungo.Bsonkit.Timestamp.{timestamps, IsIncreasing}
use lungo.Tests.{numerics}
use lungo.Tests.Index.{list_tree, first}
use lungo.Tests.Collection.{world, stored, moment, from, bump}

abbrev catalog : Catalog list_tree
catalog = record { namespaces = (oplog_handle, empty_collection list_tree) ∷ [] }

abbrev things : Handle
things = (codes "db", codes "things")

abbrev context : ℕ → Setting
context n = record {
  moment = moment n;
  moments = λ i. moment (n + i);
  stamps = record { now = λ i. timestamp n i; event_address = λ i. n + 50 + i };
}

-- The second document has the id of the first, and the local database refuses.
abbrev calls : List (Setting × Call)
calls =
    (context 100, insert_call things (stored 1 7 5 ∷ stored 2 7 6 ∷ stored 3 8 6 ∷ []) false)
    ∷ (context 200, insert_call oplog_handle (stored 9 9 9 ∷ []) true)
    ∷ (context 300, update_call things (from 6) end bump 0 (pos 0) false [])
    ∷ (context 400, delete_call things (from 7) end 0 (pos 0))
    ∷ []

program : Unit {0}
unfolding perform_all new_collection compare C.compare_scalars compare_numbers compare_int64s
    compare_text text_eq index_less extract_eq apply_inc match_comp without first namespace_at
    convert_value clean new_set
program = tt

catalog_new : new_catalog list_tree numerics ≡ ok catalog
unfolding program
catalog_new = refl

oplog_found : namespace_at catalog.namespaces oplog_handle ≡ some (empty_collection list_tree)
unfolding program
oplog_found = refl

addresses : Option (Collection list_tree) → List ℕ
addresses none = []
addresses (some c) = c.documents.list

left_over :
    addresses
      (namespace_at (perform_all world (new_transaction catalog) calls).catalog.namespaces things)
    ≡ 1 ∷ []
unfolding program addresses
left_over = refl

events :
    addresses (
      namespace_at
        (perform_all world (new_transaction catalog) calls).catalog.namespaces
        oplog_handle)
    ≡ 150 ∷ 151 ∷ 350 ∷ 450 ∷ []
unfolding program addresses
events = refl

perform_all-Grown_example :
    ((c : Collection list_tree) × (namespace_at
          (perform_all world (new_transaction catalog) calls).catalog.namespaces
          oplog_handle
        ≡ some c)
      × (more : List Doc) × (docs c ≡ docs (empty_collection list_tree) ++ more))
    × (namespace_at
          (perform_all world (new_transaction catalog) calls).catalog.namespaces
          (local, codes "startup_log")
        ≡ none)
unfolding namespace_at text_eq
perform_all-Grown_example =
    Invariant.perform_all-Grown world (new_transaction catalog) calls (empty_collection list_tree)
      (local, codes "startup_log") oplog_found (new_set-IsValid []) refl refl

-- Calls that fail, or that find no namespace.
abbrev idle : List (Setting × Call)
idle =
    (context 100, insert_call oplog_handle (stored 9 9 9 ∷ []) true)
    ∷ (context 200, delete_call things (from 7) end 0 (pos 0))
    ∷ (context 300, drop_call things)
    ∷ []

perform_all-dirty_example :
    perform_all world (new_transaction catalog) idle ≡ new_transaction catalog
unfolding program
perform_all-dirty_example = Dirty.perform_all-dirty world (new_transaction catalog) idle refl

-- Four events that are all due.
abbrev old_events : Catalog list_tree
old_events = record {
  namespaces =
      (
        oplog_handle,
        record {
          documents = new_set (1 ∷ 2 ∷ 3 ∷ 4 ∷ []);
          content = λ a. field (codes "_id") (doc (field (codes "ts") (timestamp 1 a) end)) end;
          indexes = [];
        },
      )
      ∷ [];
}

abbrev bounds : Bounds
bounds = record {
  min_size = 0;
  max_size = 0;
  min_timestamp = timestamp 9 0;
  max_timestamp = timestamp 9 0;
}

abbrev list_after : Result (Transaction list_tree) → List ℕ
list_after (fail e) = []
list_after (ok t) = elim (namespace_at t.catalog.namespaces oplog_handle) [
  | none ↦ []
  | some c ↦ c.documents.list
]

-- The loop reads the array that Remove moves, so an event stays.
cleaned : list_after (clean world (new_transaction old_events) bounds) ≡ 2 ∷ []
unfolding program
cleaned = refl

answer-refusal_example :
    (answer world (new_transaction catalog) (context 1) (insert_call oplog_handle [] true)
      ≡ fail read_only)
    × (perform world (new_transaction catalog) (context 1, insert_call oplog_handle [] true)
        ≡ new_transaction catalog)
unfolding program
answer-refusal_example =
    Refused.answer-refusal world (new_transaction catalog) (context 1)
      (insert_call oplog_handle [] true) read_only refl

-- The clock goes back by a second, and then two seconds on.
timestamps-IsIncreasing_example :
    IsIncreasing
      (record { seconds = 7; counter = 2 })
      (timestamps (record { seconds = 7; counter = 2 }) (7 ∷ 6 ∷ 9 ∷ []))
timestamps-IsIncreasing_example =
    Timestamp.timestamps-IsIncreasing (record { seconds = 7; counter = 2 }) (7 ∷ 6 ∷ 9 ∷ [])
      (omega arith)

timestamps_run :
    timestamps (record { seconds = 7; counter = 2 }) (7 ∷ 6 ∷ 9 ∷ [])
    ≡ record { seconds = 7; counter = 3 }
      ∷ record { seconds = 7; counter = 4 }
      ∷ record { seconds = 9; counter = 1 }
      ∷ []
unfolding timestamps
timestamps_run = refl

-- The event of an insert of {"_id": 7, "n": 5}.
abbrev inserted_event : Fields
inserted_event = field (codes "_id") (doc (field (codes "ts") (timestamp 1 1) end)) (
    field (codes "clusterTime") (timestamp 1 1) (
      field (codes "documentKey") (doc (field (codes "_id") (int32 (pos 7)) end)) (
        field (codes "fullDocument")
          (doc (field (codes "_id") (int32 (pos 7)) (field (codes "n") (int32 (pos 5)) end)))
          (field (codes "ns")
            (doc (
              field (codes "coll") (string (codes "things"))
                (field (codes "db") (string (codes "db")) end)))
            (field (codes "operationType") (string (codes "insert")) end)))))

event-Says_example : Says inserted_event (timestamp 1 1) (codes "insert") (stored 1 7 5)
unfolding program event
event-Says_example =
    event-Says (timestamp 1 1) things (codes "insert") (stored 1 7 5) none inserted_event refl refl
