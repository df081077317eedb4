-- ===== src/Metrics/Hist.antt =====
-- internal/metrics/hist.go: the latency histograms. The logarithm and the powers of its bucket edges
-- are parameters; a count is a 32-bit integer.
pub mod Rank
use cmek.Base.{
  ℕ, zero, suc, ◌+◌, ◌-◌, ◌*◌, ◌/◌, ◌%◌, ◌^◌, List, [], ◌∷◌, Bool, true, false, ltb, leb, ◌==◌,
  ◌&&◌, if◌then◌else◌,
}
use cmek.Base.Int.{ℤ, pos, negsuc}

abbrev pub hist_buckets : ℕ
hist_buckets = 28

-- `floor(log(ms) / ln 1.5)` of a latency, and `bucketLo`.
pub record Edges : Type 0 where
  pub log : ℕ → ℤ
  pub lo : ℕ → ℕ

abbrev clamp : ℤ → ℕ
clamp (negsuc n) = 0
clamp (pos b) = if leb hist_buckets b then hist_buckets - 1 else b

unfoldable pub bucket : Edges → ℕ → ℕ
bucket x d = if ltb d 1_000_000 then 0 else clamp (x.log d)

-- Per class and slot a count for each bucket, the slot that is written, and the number of slots.
pub record Hists : Type 0 where
  pub window : ℕ
  pub slot : ℕ
  pub count : (class slot bucket : ℕ) → ℕ

unfoldable pub new_hists : ℕ → Hists
new_hists window = record { window = window; slot = 0; count = λ c s b. 0 }

-- `record`.
unfoldable pub record_sample : Edges → ℕ → ℕ → Hists → Hists
unfolding bucket
record_sample x class d h = record h {
  count = λ c s b.
      if c == class && s == h.slot && b == bucket x d
      then (h.count c s b + 1) % 2 ^ 32
      else h.count c s b;
}

-- The sum of a bucket over all slots, of which `left` are to come.
unfoldable pub over_slots : (ℕ → ℕ) → ℕ → ℕ
over_slots f zero = 0
over_slots f (suc left) = over_slots f left + f left

-- `sum`, from bucket `b` on.
unfoldable pub sums : Hists → ℕ → ℕ → ℕ → List ℕ
unfolding over_slots
sums h class b zero = []
sums h class b (suc left) = over_slots (λ s. h.count class s b) h.window ∷ sums h class (suc b) left

unfoldable pub total : List ℕ → ℕ
total [] = 0
total (n ∷ ns) = n + total ns

-- The read inside the bucket that holds the rank: `more` of its `k` samples reach it.
unfoldable pub inside : (lo hi more k : ℕ) → ℕ
inside lo hi more k = lo + (hi - lo) * (2 * more - 1) / (2 * k)

-- The walk over the buckets from `b` on, with `cum` samples below.
unfoldable pub walk : Edges → (rank cum b : ℕ) → List ℕ → ℕ
unfolding inside
walk x rank cum b [] = x.lo hist_buckets
walk x rank cum b (n ∷ ns) =
    let rest = walk x rank (cum + n) (suc b) ns in
    if leb rank (cum + n) then inside (x.lo b) (x.lo (suc b)) (rank - cum) n else rest

-- The first sample of the slowest hundredth; `0.99 * n` is taken as exact.
abbrev pub rank_of : ℕ → ℕ
rank_of n = n * 99 / 100 + 1

unfoldable pub p99_of : Edges → List ℕ → ℕ
unfolding walk total
p99_of x counts = let n = total counts in if n == 0 then 0 else walk x (rank_of n) 0 0 counts

-- `p99`.
unfoldable pub p99 : Edges → ℕ → Hists → ℕ
unfolding p99_of sums
p99 x class h = p99_of x (sums h class 0 hist_buckets)

abbrev pub next_slot : Hists → ℕ
next_slot h = (h.slot + 1) % h.window

-- `roll`: both reads, and the next slot is emptied.
unfoldable pub roll : Edges → Hists → (ℕ × ℕ) × Hists
unfolding p99
roll x h = (
  (p99 x 0 h, p99 x 1 h),
  record h { slot = next_slot h; count = λ c s b. if s == next_slot h then 0 else h.count c s b },
)
