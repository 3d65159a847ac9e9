-- ===== src/Bsonkit/Value.antt =====
-- The BSON values that the source holds in an `interface{}`, and bsonkit/inspect.go.
use lungo.Base.{ℕ, suc, Bool, true, false, Option, none, some, Text, ℤ}

-- `nil` is Go's nil and `null` the value primitive.Null. A double is its 64-bit pattern, a
-- decimal the two words of primitive.Decimal128, and a date or an integer its two's complement
-- value. The lists of a document and of an array stand in the block.
mutual
  pub data Value : Type 0 where
    missing : Value
    nil : Value
    null : Value
    int32 : ℤ → Value
    int64 : ℤ → Value
    double : ℕ → Value
    decimal128 : ℕ → ℕ → Value
    string : Text → Value
    doc : Fields → Value
    array : Items → Value
    binary : ℕ → Text → Value
    object_id : Text → Value
    boolean : Bool → Value
    date : ℤ → Value
    timestamp : ℕ → ℕ → Value
    regex : Text → Text → Value

  pub data Items : Type 0 where
    empty : Items
    item : Value → Items → Items

  pub data Fields : Type 0 where
    end : Fields
    field : Text → Value → Fields → Fields

-- The classes of bsonkit/inspect.go, in the order of the constants.
pub data Class : Type 0 where
  null_class number_class string_class document_class array_class binary_class : Class
  object_id_class boolean_class date_class timestamp_class regex_class : Class

-- The value of the constant.
abbrev pub rank : Class → ℕ
rank null_class = 0
rank number_class = 1
rank string_class = 2
rank document_class = 3
rank array_class = 4
rank binary_class = 5
rank object_id_class = 6
rank boolean_class = 7
rank date_class = 8
rank timestamp_class = 9
rank regex_class = 10

-- The BSON types that `Inspect` answers.
pub data BsonType : Type 0 where
  null_type int32_type int64_type double_type decimal128_type string_type document_type : BsonType
  array_type binary_type object_id_type boolean_type date_type timestamp_type regex_type : BsonType

abbrev pub inspect : Value → Class × BsonType
inspect missing = (null_class, null_type)
inspect nil = (null_class, null_type)
inspect null = (null_class, null_type)
inspect (int32 _) = (number_class, int32_type)
inspect (int64 _) = (number_class, int64_type)
inspect (double _) = (number_class, double_type)
inspect (decimal128 _ _) = (number_class, decimal128_type)
inspect (string _) = (string_class, string_type)
inspect (doc _) = (document_class, document_type)
inspect (array _) = (array_class, array_type)
inspect (binary _ _) = (binary_class, binary_type)
inspect (object_id _) = (object_id_class, object_id_type)
inspect (boolean _) = (boolean_class, boolean_type)
inspect (date _) = (date_class, date_type)
inspect (timestamp _ _) = (timestamp_class, timestamp_type)
inspect (regex _ _) = (regex_class, regex_type)

abbrev pub class_of : Value → Class
class_of v = (inspect v).0

-- The test `v == Missing`.
abbrev pub is_missing : Value → Bool
is_missing missing = true
is_missing _ = false

-- `len`, `append` and the type assertions on the lists of the block.
abbrev pub count_items : Items → ℕ
count_items empty = 0
count_items (item v xs) = suc (count_items xs)

abbrev pub append_items : Items → Items → Items
append_items empty ys = ys
append_items (item v xs) ys = item v (append_items xs ys)

abbrev pub count_fields : Fields → ℕ
count_fields end = 0
count_fields (field k v fs) = suc (count_fields fs)

abbrev pub append_fields : Fields → Fields → Fields
append_fields end gs = gs
append_fields (field k v fs) gs = field k v (append_fields fs gs)

abbrev pub as_array? : Value → Option Items
as_array? (array xs) = some xs
as_array? _ = none

abbrev pub as_doc? : Value → Option Fields
as_doc? (doc fs) = some fs
as_doc? _ = none
