-- ===== src/Queue/Meter.antt =====
-- internal/queue/store.go: the timing instrument of the store, in nanoseconds; its readings are
-- microseconds.
use cmek.Base.{
  ℕ, suc, ◌+◌, ◌*◌, ◌/◌, ◌≤◌, arith, max, List, [], ◌∷◌, Bool, true, false, ltb, if◌then◌else◌,
}
use native.Mathlib.Nat.{mul-le-mul_left, suc-mul, div-le_of_le-mul}

pub record Meter : Type 0 where
  pub n : ℕ
  pub sum : ℕ
  pub highest : ℕ
  pub census : ℕ

abbrev pub new_meter : Meter
new_meter = record { n = 0; sum = 0; highest = 0; census = 0 }

-- `Insert`'s note of one insert; the compare-and-swap loop leaves the maximum.
unfoldable pub note_insert_time : ℕ → Meter → Meter
note_insert_time d m = record m { n = suc m.n; sum = m.sum + d; highest = max m.highest d }

-- `Census`'s note of its own section.
unfoldable pub note_census_time : ℕ → Meter → Meter
note_census_time d m = record m { census = max m.census d }

-- `InsertStats`.
pub record InsertStats : Type 0 where
  pub n : ℕ
  pub mean_us : ℕ
  pub max_us : ℕ
  pub census_max_us : ℕ

-- `Stats`.
unfoldable pub stats : Meter → InsertStats
stats m = record {
  n = m.n;
  mean_us = if ltb 0 m.n then m.sum / m.n / 1000 else 0;
  max_us = m.highest / 1000;
  census_max_us = m.census / 1000;
}

unfoldable pub metered : List ℕ → Meter
unfolding note_insert_time
metered [] = new_meter
metered (d ∷ ds) = note_insert_time d (metered ds)

sum-le : (ds : List ℕ) → (metered ds).sum ≤ (metered ds).n * (metered ds).highest
unfolding metered note_insert_time
sum-le [] = omega arith
sum-le (d ∷ ds) =
    let m = metered ds in
    let top = max m.highest d in
    let wider : m.n * m.highest ≤ m.n * top = mul-le-mul_left m.n (omega arith) in
    omega (arith, sum-le ds, wider, suc-mul m.n top)

-- However many inserts were timed, the mean is not above the maximum.
pub mean-le : (ds : List ℕ) → (stats (metered ds)).mean_us ≤ (stats (metered ds)).max_us
unfolding stats
mean-le ds =
    let m = metered ds in
    let mean : m.sum / m.n ≤ m.highest = div-le_of_le-mul m.n (sum-le ds) in go (ltb 0 m.n) mean
  where
    go :
        (b : Bool)
        → (metered ds).sum / (metered ds).n ≤ (metered ds).highest
        → (if b then (metered ds).sum / (metered ds).n / 1000 else 0) ≤ (metered ds).highest / 1000
    go true l = omega (arith, l)
    go false l = omega arith
