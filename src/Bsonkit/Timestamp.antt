-- ===== src/Bsonkit/Timestamp.antt =====
-- bsonkit/timestamp.go: the locally monotonic timestamps of Now. The reading of the wall clock, as
-- a uint32, is an argument. The calls run under a lock, one after the other.
use lungo.Base.{
  ℕ, ◌+◌, ◌%◌, ◌^◌, ◌<◌, ◌≡◌, ◌⊎◌, inl, inr, refl, List, [], ◌∷◌, length, ltb, if◌then◌else◌,
  Bool-cases, arith,
}

-- The variables tsSeconds and tsCounter.
pub record TimeState : Type 0 where
  pub seconds : ℕ
  pub counter : ℕ

unfoldable pub reset : TimeState → ℕ → TimeState
reset s n = if ltb s.seconds n then record { seconds = n; counter = 0 } else s

-- Now: the state after it, which is also the timestamp.
unfoldable pub next_timestamp : TimeState → ℕ → TimeState
unfolding reset
next_timestamp s n = record (reset s n) { counter = ((reset s n).counter + 1) % 2 ^ 32 }

-- The timestamps of calls of Now, by the readings of the wall clock.
unfoldable pub timestamps : TimeState → List ℕ → List TimeState
unfolding next_timestamp
timestamps s [] = []
timestamps s (n ∷ ns) = next_timestamp s n ∷ timestamps (next_timestamp s n) ns

abbrev pub Before : TimeState → TimeState → Type 0
Before a b = (a.seconds < b.seconds) ⊎ ((a.seconds ≡ b.seconds) × (a.counter < b.counter))

abbrev pub IsIncreasing : TimeState → List TimeState → Type 0
IsIncreasing s [] = Unit
IsIncreasing s (t ∷ ts) = Before s t × IsIncreasing t ts

next_timestamp-Before :
    (s : TimeState) (n : ℕ) → s.counter + 1 < 2 ^ 32 → Before s (next_timestamp s n)
unfolding next_timestamp reset
next_timestamp-Before s n h = elim (Bool-cases (ltb s.seconds n)) [
  | inl k ↦ rw k (inl (ground arith))
  | inr k ↦ rw k (inr (refl, omega arith))
]

next_timestamp-counter :
    (s : TimeState) (n k : ℕ)
    → s.counter + 1 + k < 2 ^ 32
    → (next_timestamp s n).counter + k < 2 ^ 32
unfolding next_timestamp reset
next_timestamp-counter s n k h = elim (Bool-cases (ltb s.seconds n)) [
  | inl e ↦ rw e (omega arith)
  | inr e ↦ rw e (omega arith)
]

-- Every timestamp of Now is after the one before it, whatever the wall clock says, as long as the
-- calls are fewer than what is left of the counter's 32 bits.
pub timestamps-IsIncreasing :
    (s : TimeState) (readings : List ℕ)
    → s.counter + length readings < 2 ^ 32
    → IsIncreasing s (timestamps s readings)
unfolding timestamps
timestamps-IsIncreasing s [] h = tt
timestamps-IsIncreasing s (n ∷ ns) h = (
  next_timestamp-Before s n (omega arith),
  timestamps-IsIncreasing (next_timestamp s n) ns
      (next_timestamp-counter s n (length ns) (omega arith)),
)
