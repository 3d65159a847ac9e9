-- ===== src/Mongokit/Distinct.antt =====
-- mongokit/distinct.go: the distinct values at a path.
use lungo.Base.{true, List, Text}
use lungo.Bsonkit.Value.{Items, Fields}
use lungo.Bsonkit.Number.{Numerics}
use lungo.Bsonkit.Lists.{collect}

unfoldable pub distinct : Numerics → (Items → Items) → List Fields → Text → Items
unfolding collect
distinct ar sort list path = collect ar sort list path true true true true
