-- ===== src/Bsonkit/TypeNames.antt =====
-- The tables Alias2Type and Number2Type of bsonkit/inspect.go. The numbers are those of the BSON
-- specification, by which the driver declares the types.
use lungo.Base.{
  ℕ, Bool, false, Option, none, some, List, [], ◌∷◌, ◌==◌, if◌then◌else◌, Text, text_eq, codes,
}
use lungo.Bsonkit.Value.{BsonType}

-- A row: the number, the alias, and the type if `Inspect` can answer it.
abbrev pub Row : Type 0
Row = ℕ × Text × Option BsonType

abbrev pub type_table : List Row
type_table =
    (1, codes "double", some BsonType.double_type)
    ∷ (2, codes "string", some BsonType.string_type)
    ∷ (3, codes "object", some BsonType.document_type)
    ∷ (4, codes "array", some BsonType.array_type)
    ∷ (5, codes "binData", some BsonType.binary_type)
    ∷ (6, codes "undefined", none)
    ∷ (7, codes "objectId", some BsonType.object_id_type)
    ∷ (8, codes "bool", some BsonType.boolean_type)
    ∷ (9, codes "date", some BsonType.date_type)
    ∷ (10, codes "null", some BsonType.null_type)
    ∷ (11, codes "regex", some BsonType.regex_type)
    ∷ (12, codes "dbPointer", none)
    ∷ (13, codes "javascript", none)
    ∷ (14, codes "symbol", none)
    ∷ (15, codes "javascriptWithScope", none)
    ∷ (16, codes "int", some BsonType.int32_type)
    ∷ (17, codes "timestamp", some BsonType.timestamp_type)
    ∷ (18, codes "long", some BsonType.int64_type)
    ∷ (19, codes "decimal", some BsonType.decimal128_type)
    ∷ (255, codes "minKey", none)
    ∷ (127, codes "maxKey", none)
    ∷ []

abbrev row_of : (Row → Bool) → List Row → Option (Option BsonType)
row_of test [] = none
row_of test (r ∷ rows) = if test r then some r.2 else row_of test rows

unfoldable pub type_of_alias : Text → Option (Option BsonType)
type_of_alias s = row_of (λ r. text_eq r.1 s) type_table

unfoldable pub type_of_number : ℕ → Option (Option BsonType)
type_of_number n = row_of (λ r. r.0 == n) type_table

abbrev pub type_rank : BsonType → ℕ
type_rank BsonType.double_type = 1
type_rank BsonType.string_type = 2
type_rank BsonType.document_type = 3
type_rank BsonType.array_type = 4
type_rank BsonType.binary_type = 5
type_rank BsonType.object_id_type = 7
type_rank BsonType.boolean_type = 8
type_rank BsonType.date_type = 9
type_rank BsonType.null_type = 10
type_rank BsonType.regex_type = 11
type_rank BsonType.int32_type = 16
type_rank BsonType.timestamp_type = 17
type_rank BsonType.int64_type = 18
type_rank BsonType.decimal128_type = 19

-- The test `vt == typ`: a type that `Inspect` never answers equals none.
abbrev pub same_type : Option BsonType → BsonType → Bool
same_type none t = false
same_type (some s) t = type_rank s == type_rank t
