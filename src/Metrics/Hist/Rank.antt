-- ===== src/Metrics/Hist/Rank.antt =====
-- Where a p99 lies.
use cmek.Base.{
  ℕ, suc, ◌+◌, ◌-◌, ◌*◌, ◌/◌, ◌≤◌, ◌<◌, ◌≡◌, refl, subst, arith, List, [], ◌∷◌, length, take, Bool,
  true, false, leb, ◌==◌, if◌then◌else◌,
}
use native.Mathlib.Nat.{div-lt_iff_lt-mul, mul-lt-mul_of_pos_left}
use cmek.Metrics.Hist.{Edges, Hists, hist_buckets, sums, total, inside, walk, rank_of, p99_of, p99}

-- A read in bucket `b` of a list of buckets that starts with number `first` and `cum` samples below:
-- fewer samples than the rank lie below the bucket and at least as many up to its end, and the read
-- is not below the bucket's lower edge and below its upper one.
pub record IsIn (x : Edges) (rank cum first : ℕ) (counts : List ℕ) (d b : ℕ) : Type 0 where
  pub below : cum + total (take b counts) < rank
  pub reached : rank ≤ cum + total (take (suc b) counts)
  pub listed : b < length counts
  pub least : x.lo (first + b) ≤ d
  pub most : d < x.lo (suc (first + b))

inside-bounds :
    (lo hi more k : ℕ)
    → lo < hi
    → 0 < more
    → more ≤ k
    → (lo ≤ inside lo hi more k) × (inside lo hi more k < hi)
unfolding inside
inside-bounds lo hi more k l p q =
    let t : 2 * more - 1 < 2 * k = omega (arith, p, q) in
    let w : 0 < hi - lo = omega (arith, l) in
    let z : 0 < 2 * k = omega (arith, p, q) in
    let d : (hi - lo) * (2 * more - 1) / (2 * k) < hi - lo =
      (div-lt_iff_lt-mul z).1 (mul-lt-mul_of_pos_left t w) in
    (omega arith, omega (arith, d, l))

walk-IsIn :
    (x : Edges) (rank cum first : ℕ) (counts : List ℕ)
    → ((b : ℕ) → x.lo b < x.lo (suc b))
    → cum < rank
    → rank ≤ cum + total counts
    → (b : ℕ) × IsIn x rank cum first counts (walk x rank cum first counts) b
unfolding walk total
walk-IsIn x rank cum first [] m l q = absurd (omega (arith, l, q))
walk-IsIn x rank cum first (n ∷ ns) m l q =
    go (λ r. walk-IsIn x rank (cum + n) (suc first) ns m r (omega (arith, q))) (leb rank (cum + n))
      refl
  where
    Rest : Type 0
    Rest =
        cum + n < rank
        → (b : ℕ) × IsIn x rank (cum + n) (suc first) ns (walk x rank (cum + n) (suc first) ns) b

    go :
        Rest
        → (e : Bool) → leb rank (cum + n) ≡ e
        → (b : ℕ) × IsIn x rank cum first
            (n ∷ ns)
            (if e
              then inside (x.lo first) (x.lo (suc first)) (rank - cum) n
              else walk x rank (cum + n) (suc first) ns)
            b
    go rest true e =
        let r : rank ≤ cum + n = ground (arith, e) in
        let d =
          inside-bounds (x.lo first) (x.lo (suc first)) (rank - cum) n (m first) (omega (arith, l))
            (omega (arith, r)) in
        (
          0,
          record {
            below = omega (arith, l);
            reached = omega (arith, r);
            listed = omega arith;
            least =
                subst (λ (k : ℕ). x.lo k ≤ inside (x.lo first) (x.lo (suc first)) (rank - cum) n)
                  (omega arith) d.0;
            most =
                subst
                  (λ (k : ℕ). inside (x.lo first) (x.lo (suc first)) (rank - cum) n < x.lo (suc k))
                  (omega arith) d.1;
          },
        )
    go rest false e =
        let r : cum + n < rank = ground (arith, e) in
        let v = rest r in
        (
          suc v.0,
          record {
            below = omega (arith, v.1.below);
            reached = omega (arith, v.1.reached);
            listed = omega (arith, v.1.listed);
            least =
                subst (λ (k : ℕ). x.lo k ≤ walk x rank (cum + n) (suc first) ns) (omega arith)
                  v.1.least;
            most =
                subst (λ (k : ℕ). walk x rank (cum + n) (suc first) ns < x.lo (suc k)) (omega arith)
                  v.1.most;
          },
        )

rank-reached : (n : ℕ) → 0 < n → rank_of n ≤ n
rank-reached n p = omega arith

p99_of-IsIn :
    (x : Edges) (counts : List ℕ)
    → ((b : ℕ) → x.lo b < x.lo (suc b))
    → 0 < total counts
    → (b : ℕ) × IsIn x (rank_of (total counts)) 0 0 counts (p99_of x counts) b
unfolding p99_of
p99_of-IsIn x counts m p = go (total counts == 0) refl
  where
    go :
        (e : Bool)
        → (total counts == 0) ≡ e
        → (b : ℕ) × IsIn x
            (rank_of (total counts))
            0
            0
            counts
            (if e then 0 else walk x (rank_of (total counts)) 0 0 counts)
            b
    go true e = absurd (ground (arith, e, p))
    go false e = walk-IsIn x (rank_of (total counts)) 0 0 counts m (omega arith) (omega (arith, p))

-- The p99 of a class with samples lies in the bucket that holds the sample of its rank: fewer samples
-- lie below that bucket, at least as many up to its end, it is one of the 28 buckets, and the result
-- is between its edges, if the edges rise.
pub p99-IsIn :
    (x : Edges) (class : ℕ) (h : Hists)
    → ((b : ℕ) → x.lo b < x.lo (suc b))
    → 0 < total (sums h class 0 hist_buckets)
    → let counts = sums h class 0 hist_buckets in
      (b : ℕ) × IsIn x (rank_of (total counts)) 0 0 counts (p99 x class h) b
unfolding p99
p99-IsIn x class h m p = p99_of-IsIn x (sums h class 0 hist_buckets) m p
