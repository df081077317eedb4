-- ===== src/Core/Denial.antt =====
-- A deny lasts: what the outcomes that come after it may do to the tenant.
use cmek.Base.{
  ℕ, ◌≤◌, ◌<◌, ◌≡◌, arith, List, [], ◌∷◌, All, Option, none, some, false, ◌||◌, Bool-cases, inl,
  inr,
}
use cmek.Kms.Errors.{Sentinel}
use cmek.Core.Types.{State, Class, Config, Dek, Tenant, Outcome, Op}
use cmek.Core.Tenant.{hot}
use cmek.Core.Invariant.{hot-cool}
use cmek.Core.Apply.{
  has, apply_unclassified, apply_ok, apply_deny, park, note_failure, apply_transient, apply_class,
  apply,
}

-- The arguments of one call of `apply`.
pub record Applied : Type 0 where
  pub now : ℕ
  pub draw : ℕ
  pub op : Op
  pub dek : Option Dek
  pub outcome : Outcome

-- The outcomes of any calls, in the order in which they are applied.
unfoldable pub applies : Config → List Applied → Tenant → Tenant
unfolding apply
applies c [] t = t
applies c (x ∷ xs) t = applies c xs (apply c x.now x.draw x.op x.dek x.outcome t)

-- A success counts for the time before `denied` only if its call was sent before.
abbrev pub IsSentBefore : ℕ → ℕ → Class → Type 0
IsSentBefore denied sent Class.ok = sent < denied
IsSentBefore denied sent _ = Unit {0}

abbrev pub IsStale : ℕ → Applied → Type 0
IsStale denied x = (denied ≤ x.now) × IsSentBefore denied x.outcome.sent_at x.outcome.class

record Parked (denied : ℕ) (t : Tenant) : Type 0 where
  pub revoked : t.state ≡ State.revoked
  pub no_lease : t.lease.sent_at ≡ 0
  pub cold : hot t ≡ 0
  pub since : denied ≤ t.denied_at

unclassified-Parked :
    (denied now : ℕ) (c : Config) (op : Op) (d : Option Dek) (t : Tenant)
    → Parked denied t
    → Parked denied (apply_unclassified c now op d t)
unfolding apply_unclassified hot
unclassified-Parked denied now c op none t v = v
unclassified-Parked denied now c Op.warm (some d) t v = record {
  revoked = v.revoked;
  no_lease = v.no_lease;
  cold = v.cold;
  since = v.since;
}
unclassified-Parked denied now c Op.unwrap (some d) t v = v
unclassified-Parked denied now c Op.generate (some d) t v = v

denied-Parked :
    (denied now : ℕ) (c : Config) (op : Op) (r : Outcome) (t : Tenant)
    → denied ≤ now
    → Parked denied (apply_deny c now op r t)
unfolding apply_deny hot
denied-Parked denied now c op r t l = record {
  revoked = ground arith;
  no_lease = ground arith;
  cold = ground (arith, hot-cool t.deks);
  since = ground (arith, l);
}

transient-Parked :
    (denied now u : ℕ) (c : Config) (op : Op) (r : Outcome) (t : Tenant)
    → Parked denied t
    → Parked denied (apply_transient c now u op r t)
unfolding apply_transient park note_failure hot
transient-Parked denied now u c op r t v = record {
  revoked = ground (arith, v.revoked);
  no_lease = ground (arith, v.revoked, v.no_lease);
  cold = ground (arith, v.revoked, v.cold);
  since = ground (arith, v.revoked, v.since);
}

class-Parked :
    (k : Class) (denied now u : ℕ) (c : Config) (op : Op) (d : Option Dek) (r : Outcome)
    (t : Tenant)
    → denied ≤ now
    → IsSentBefore denied r.sent_at k
    → Parked denied t
    → Parked denied (apply_class k c now u op d r t)
unfolding apply_class apply_ok hot
class-Parked Class.ok denied now u c op none r t l b v = v
class-Parked Class.ok denied now u c op (some d) r t l b v = record {
  revoked = ground (arith, v.revoked, v.since, b);
  no_lease = ground (arith, v.no_lease, v.since, b);
  cold = ground (arith, v.cold, v.since, b);
  since = ground (arith, v.since, b);
}
class-Parked Class.deny denied now u c op d r t l b v = denied-Parked denied now c op r t l
class-Parked Class.transient denied now u c op d r t l b v =
    transient-Parked denied now u c op r t v
class-Parked Class.poison denied now u c op d r t l b v = transient-Parked denied now u c op r t v

apply-Parked :
    (denied : ℕ) (c : Config) (x : Applied) (t : Tenant)
    → IsStale denied x
    → Parked denied t
    → Parked denied (apply c x.now x.draw x.op x.dek x.outcome t)
unfolding apply
apply-Parked denied c x t b v =
    elim (Bool-cases (has x.outcome.err Sentinel.busy || has x.outcome.err Sentinel.store)) [
      | inl e ↦ rw (e, apply) (unclassified-Parked denied x.now c x.op x.dek t v)
      | inr e ↦
          rw (e, apply)
            (class-Parked x.outcome.class denied x.now x.draw c x.op x.dek x.outcome t b.0 b.1 v)
    ]

applies-Parked :
    (denied : ℕ) (c : Config) (xs : List Applied) (t : Tenant)
    → All (IsStale denied) xs
    → Parked denied t
    → Parked denied (applies c xs t)
unfolding applies
applies-Parked denied c [] t b v = v
applies-Parked denied c (x ∷ xs) t b v =
    applies-Parked denied c xs (apply c x.now x.draw x.op x.dek x.outcome t) b.1
      (apply-Parked denied c x t b.0 v)

-- A deny lasts: once it is applied, the tenant is revoked with no lease and no plaintext key, and it
-- stays so whatever outcomes are applied later in whatever order, as long as every success among
-- them is of a call sent before the deny was applied.
pub deny_lasts :
    (c : Config) (now u : ℕ) (op : Op) (d : Option Dek) (r : Outcome) (t : Tenant)
    → r.class ≡ Class.deny
    → has r.err Sentinel.busy ≡ false
    → has r.err Sentinel.store ≡ false
    → (later : List Applied) → All (IsStale now) later
    → let t' = applies c later (apply c now u op d r t) in
      (t'.state ≡ State.revoked) × (t'.lease.sent_at ≡ 0) × (hot t' ≡ 0)
deny_lasts c now u op d r t k b s later all =
    let first : Parked now (apply c now u op d r t) =
      unfold apply in
      unfold apply_class in
      rw (b, s, k) (denied-Parked now now c op (record r { class = Class.deny }) t (omega arith)) in
    let v = applies-Parked now c later (apply c now u op d r t) all first in
    (v.revoked, v.no_lease, v.cold)
