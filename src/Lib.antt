-- ===== src/Lib.antt =====
-- lungo: a MongoDB compatible embeddable database. The package bsonkit inspects, compares, reads and
-- writes BSON values in memory; on top of it mongokit has the query algorithms, which the engine
-- and the driver interface of the main package use.
--
-- Base: shared names of the libraries; bytes for Go strings, signed integers, results with the
--   source's errors as constructors.
-- Bsonkit/Value, Bsonkit/TypeNames: the values of an `interface{}` and Inspect with its tables
--   (bsonkit/inspect.go).
-- Bsonkit/Number, Bsonkit/Compare: the order of values (bsonkit/compare.go). A float64 is its bit
--   pattern. The package github.com/shopspring/decimal and the conversions of a float64 that Go
--   leaves to the implementation are the fields of the record Numerics, which is a parameter. Its
--   decimals stand for finite numbers: d128ToDec of bsonkit/math.go and NewFromFloat of the package
--   panic on NaN and the infinities, a path that the model leaves out.
-- Bsonkit/Path: path strings (bsonkit/path.go).
-- Bsonkit/Access: Get, All, Put, Unset, Push and Pop (bsonkit/access.go). The callback by which
--   `put` hands a new value to the place that holds it is the value that the model returns; the
--   mutation in place of the source is the new document. `put` on nothing runs on fuel, one round
--   more than the path has bytes, and each round shortens the path or ends it.
-- Bsonkit/Set: the set of documents (bsonkit/set.go). A document is a pointer and stands by its
--   address; the Go map from documents to positions is a function.
-- Mongokit/Process: the operator algorithm (mongokit/process.go), over any state.
-- Mongokit/Match, Mongokit/Query: the query operators and Match (mongokit/match.go). Operators that
--   hold queries run them in a context one level down; Match starts with one level more than the
--   query is deep. Evaluate of bsonkit/schema.go is an argument.
-- Bsonkit/Sort: Order and its columns (bsonkit/sort.go). A document is a record of its address and
--   its content, as Order compares addresses in the end.
-- Bsonkit/Lists: Select, Pick and Collect (bsonkit/lists.go). The variable that the selector of
--   Select writes to is a state that the selector passes on.
-- Bsonkit/Index: the index (bsonkit/index.go). The btree of github.com/tidwall/btree is the record
--   Btree of its operations, and the record BtreeLaws has of its documented behaviour what the
--   index relies on. The package asks for a comparator that is an order, so BtreeContract states
--   the laws where the comparator is an order of the items. That of an index is one for documents
--   whose values in the columns hold integers only and no regular expression, and not for all.
-- Mongokit/Filter, Mongokit/Find: Columns, Filter, Sort and Collection.Find (mongokit/sort.go,
--   mongokit/filter.go, mongokit/collection.go). sort.Slice is an argument; the records IsSort and
--   SliceLaws have of its documented behaviour what the theorems use. A skip is not negative, and
--   the sum of skip and limit wraps around as an int does.
-- Mongokit/Project: projections (mongokit/project.go). The order in which the loop over the Go map
--   of merged fields visits its entries is an argument.
-- Bsonkit/Math: Add and Mul (bsonkit/math.go), Increment and Multiply (bsonkit/access.go). The sums
--   and products of float64 and of the decimal package are the fields of the record Arithmetic.
-- Bsonkit/PathTree: PathNode and PathBuilder (bsonkit/path.go). A node is a list of its entries.
-- Mongokit/Resolve: positional operators (mongokit/resolve.go, mongokit/path.go). A round replaces
--   the first operator of a path by an index, and there are at most as many as the path has `$`.
-- Mongokit/Apply: the update operators and Update (mongokit/apply.go, mongokit/update.go). The state
--   is the document and its recorded changes. The times are arguments.
-- Mongokit/Extract, Mongokit/Distinct: the constant parts of a query (mongokit/extract.go), and the
--   distinct values at a path (mongokit/distinct.go).
-- Mongokit/Index: indexes with a configuration and a partial filter (mongokit/index.go).
-- Mongokit/Collection: the set and the indexes (mongokit/collection.go), and in its children the
--   operations and their invariant. What stands at an address is a function beside the set. The Go
--   map of the indexes is a list of its entries, in the order in which the loops visit them; the
--   addresses and object ids of new documents are arguments. An operation that fails answers its
--   error only, as the callers of the source throw the clone away that it worked on.
-- Bsonkit/Timestamp: Now (bsonkit/timestamp.go), by the readings of the wall clock.
-- Catalog: handles and the catalog (catalog.go). The Go map of the namespaces is a list.
-- Oplog: the events of the method append (transaction.go), and their conversion
--   (bsonkit/convert.go). The timestamps of Now and the addresses of events are arguments.
-- Transaction: the writes of a transaction (transaction.go), with Insert and Bulk in
--   Transaction/Batch, and Drop, the indexes, Clean and Expire in Transaction/Maintain. A call runs
--   under the lock of its transaction. Clones are values, so a call that fails answers its error
--   only. Clean reads the array that Remove moves.
-- Tests: runs of the code, and the theorems at concrete inputs.
--
-- Not modelled: the lists of databases, collections and indexes of a transaction, whose documents
-- hold a Go int that is no type of a document; the engine with its sessions, streams and stores,
-- which are locks, goroutines and files; the evaluation of schemas; GridFS; and the driver
-- interface, which wraps the engine. The panics on a Decimal128 that is NaN or infinite, and on such
-- a double beside a decimal, are not modelled. Error messages are constructors with the names that
-- they mention. Capacity growth and the sharing of slices are not visible in the model, but in Clean.
pub mod Base
pub mod Bsonkit
pub mod Catalog
pub mod Mongokit
pub mod Oplog
pub mod Tests
pub mod Transaction
