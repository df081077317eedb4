-- ===== src/Admit.antt =====
-- internal/admit/gate.go: the admission gate. The token bucket of golang.org/x/time/rate is a
-- parameter: whether it grants the tenant's one token now.
use cmek.Base.{
  ℕ, ◌*◌, ◌/◌, ◌≤◌, ◌≡◌, arith, inl, inr, Option, none, some, Bool, true, ltb, leb, not, ◌&&◌, ◌||◌,
  if◌then◌else◌, Bool-cases,
}
use native.Mathlib.Nat.{div-mul-le_self, mul-le-mul, mul-zero}

pub data Rejection : Type 0 where
  rate_limited backlog_full overloaded : Rejection

-- The sizes of `Config`.
pub record Limits : Type 0 where
  pub tenant_cap : ℕ
  pub global_cap : ℕ
  pub is_fair : Bool

-- The three reads of the ledger.
pub record Load : Type 0 where
  pub backlog : ℕ → ℕ
  pub total : ℕ
  pub backlogged : ℕ

-- `FairShare`: `none` is math.MaxInt.
unfoldable pub fair_share : Limits → Load → Option ℕ
fair_share g b =
    if not g.is_fair
    then none
    else some (g.global_cap / (if ltb b.backlogged 1 then 1 else b.backlogged))

abbrev pub is_within : Option ℕ → ℕ → Bool
is_within none n = true
is_within (some fs) n = leb n fs

-- `WithinShare`.
unfoldable pub within_share : Limits → Load → ℕ → Bool
unfolding fair_share
within_share g b i = is_within (fair_share g b) (b.backlog i)

-- `Admit`: the share class, and the rejection if there is one. `granted` is asked only when the
-- global cap lets the request through.
unfoldable pub admit : Limits → Load → Bool → ℕ → Bool × Option Rejection
unfolding within_share
admit g b granted i =
    let within = within_share g b i in
    if leb g.global_cap b.total && (not g.is_fair || not within)
    then (within, some Rejection.overloaded)
    else if not granted
    then (within, some Rejection.rate_limited)
    else if leb g.tenant_cap (b.backlog i)
    then (within, some Rejection.backlog_full)
    else (within, none)

-- A request is shed for the global cap only when the total has reached it, and then with fair share
-- on the tenant is over its share, and with it off the tenant is classed within.
pub shed_over_share :
    (g : Limits) (b : Load) (granted : Bool) (i : ℕ)
    → (admit g b granted i).1 ≡ some Rejection.overloaded
    → (g.global_cap ≤ b.total) × ((admit g b granted i).0 ≡ not g.is_fair)
unfolding admit within_share fair_share
shed_over_share g b granted i e = ground arith

-- A tenant within its fair share holds at most one part of the global cap in as many parts as there
-- are tenants with a backlog.
pub share_bound :
    (g : Limits) (b : Load) (i : ℕ)
    → g.is_fair ≡ true
    → within_share g b i ≡ true
    → b.backlog i * b.backlogged ≤ g.global_cap
unfolding within_share fair_share
share_bound g b i f w = elim (Bool-cases (ltb b.backlogged 1)) [
  | inl h ↦ let e : b.backlogged ≡ 0 = ground arith in rw (e, mul-zero (b.backlog i)) (omega arith)
  | inr h ↦
      let share : b.backlog i ≤ g.global_cap / b.backlogged = ground arith in
      let whole : b.backlogged ≤ b.backlogged = omega arith in
      omega (arith, mul-le-mul share whole, div-mul-le_self g.global_cap b.backlogged)
]
