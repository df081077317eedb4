-- ===== src/Core/Retry.antt =====
-- The backoff between attempts.
use cmek.Base.{ℕ, suc, ◌+◌, ◌-◌, ◌*◌, ◌^◌, ◌<◌, ◌≤◌, ◌≡◌, refl, arith, ap, ltb, min, if◌then◌else◌}
use native.Mathlib.Nat.{pow-suc, mul-le-mul}
use cmek.Core.Lease.{million, backoff_base, backoff}

double_capped :
    (a b h : ℕ) → a ≡ 2 * b → (if ltb h a then h else a) ≡ min h (2 * (if ltb h b then h else b))
double_capped a b h e = ground arith

backoff_base-suc :
    (n low high : ℕ)
    → backoff_base (suc n) low high ≡ (if ltb high (low * 2 ^ n) then high else low * 2 ^ n)
unfolding backoff_base
backoff_base-suc n low high =
    let exponent : (if ltb (suc n) 1 then 1 else suc n) - 1 ≡ n = ground arith in rw exponent refl

backoff_base-le : (n low high : ℕ) → backoff_base n low high ≤ high
unfolding backoff_base
backoff_base-le n low high = ground arith

-- The base of the backoff starts at the minimum, doubles with each further attempt and never
-- passes the maximum.
pub backoff_base-doubles :
    (n low high : ℕ)
    → (backoff_base 1 low high ≡ min high low)
      × (backoff_base (suc (suc n)) low high ≡ min high (2 * backoff_base (suc n) low high))
backoff_base-doubles n low high = (
  rw (backoff_base-suc 0 low high) (ground arith),
  rw (backoff_base-suc (suc n) low high, backoff_base-suc n low high)
      (double_capped (low * 2 ^ suc n) (low * 2 ^ n) high
        (omega (arith, ap (λ (x : ℕ). low * x) (pow-suc 2 n)))),
)

draw_le :
    (jitter u : ℕ)
    → jitter ≤ million
    → u < million
    → million * million + 2 * jitter * u - jitter * million ≤ 2 * (million * million)
draw_le jitter u j d =
    let p : jitter * u ≤ jitter * million = grind arith in
    let q : jitter * million ≤ million * million = omega arith in omega arith

-- With the jitter at most one, the backoff is at most twice the maximum, whatever the draw.
pub backoff-le :
    (n low high jitter u : ℕ)
    → jitter ≤ million
    → u < million
    → backoff n low high jitter u ≤ 2 * high
unfolding backoff
backoff-le n low high jitter u j d =
    let factor : million * million + 2 * jitter * u - jitter * million ≤ 2 * (million * million) =
      draw_le jitter u j d in
    let scaled = mul-le-mul (backoff_base-le n low high) factor in omega arith
