-- ===== src/Core/Bound.antt =====
-- The invariant of a tenant with a bound on its lease, and that every section of the core keeps it.
use cmek.Base.{
  ℕ, ◌≤◌, ◌<◌, ◌≡◌, refl, ◌⊎◌, inl, inr, Option, none, some, false, arith, is_some, Bool-cases,
}
use cmek.Kms.Errors.{Sentinel}
use cmek.Core.Lease.{Lease, renew_lease}
use cmek.Core.Types.{Class, Config, Dek, Tenant, Outcome, Op}
use cmek.Core.Apply.{
  apply_unclassified, apply_ok, apply_deny, park, note_failure, apply_transient, apply_class, apply,
  has,
}
use cmek.Core.Invariant.{IsSound, IsFreshOf, apply-IsSound}

-- `n` is not past the limit, if there is one.
abbrev pub Within : Option ℕ → ℕ → Type 0
Within none n = Unit {0}
Within (some r) n = n ≤ r

-- A sound tenant under the configuration's lease, whose lease rests on no call sent past the limit.
pub record Inv (c : Config) (limit : Option ℕ) (t : Tenant) : Type 0 where
  pub sound : IsSound t
  pub ttl : t.lease.ttl ≡ c.lease
  pub early : t.lease.early ≡ c.early_expiry
  pub sent : Within limit t.lease.sent_at

-- An outcome that `apply` may be given.
pub record IsAnswer (limit : Option ℕ) (r : Outcome) : Type 0 where
  pub answered : has r.err Sentinel.busy ≡ false → 0 < r.sent_at
  pub in_time : is_some r.err ≡ false → Within limit r.sent_at
  pub classed :
      r.class ≡ Class.ok
      → has r.err Sentinel.busy ≡ false
      → has r.err Sentinel.store ≡ false
      → is_some r.err ≡ false

-- What an outcome does to the lease: nothing, or it ends it, or, if it is of class OK and past
-- the first rows, it may renew it.
data LeaseStep (l : Lease) (r : Outcome) (m : Lease) : Type 0 where
  kept : m ≡ l → LeaseStep l r m
  ended : m ≡ record l { sent_at = 0 } → LeaseStep l r m
  renewed : r.class ≡ Class.ok → m ≡ record l { sent_at = r.sent_at } → LeaseStep l r m

apply_ok-lease :
    (now : ℕ) (op : Op) (d : Dek) (r : Outcome) (t : Tenant)
    → ((apply_ok now op d r t).lease ≡ t.lease)
      ⊎ ((apply_ok now op d r t).lease ≡ record t.lease { sent_at = r.sent_at })
unfolding apply_ok renew_lease
apply_ok-lease now op d r t = ground arith

apply_deny-lease :
    (c : Config) (now : ℕ) (op : Op) (r : Outcome) (t : Tenant)
    → (apply_deny c now op r t).lease ≡ record t.lease { sent_at = 0 }
unfolding apply_deny
apply_deny-lease c now op r t = ground arith

apply_transient-lease :
    (c : Config) (now u : ℕ) (op : Op) (r : Outcome) (t : Tenant)
    → (apply_transient c now u op r t).lease ≡ t.lease
unfolding apply_transient park note_failure
apply_transient-lease c now u op r t = ground arith

apply_unclassified-lease :
    (c : Config) (now : ℕ) (op : Op) (d : Option Dek) (t : Tenant)
    → (apply_unclassified c now op d t).lease ≡ t.lease
unfolding apply_unclassified
apply_unclassified-lease c now op none t = refl
apply_unclassified-lease c now op (some d) t = ground arith

apply_class-lease :
    (k : Class) (c : Config) (now u : ℕ) (op : Op) (d : Option Dek) (r : Outcome) (t : Tenant)
    → r.class ≡ k
    → LeaseStep t.lease r (apply_class k c now u op d r t).lease
unfolding apply_class
apply_class-lease Class.ok c now u op none r t e = LeaseStep.kept refl
apply_class-lease Class.ok c now u op (some d) r t e = elim (apply_ok-lease now op d r t) [
  | inl h ↦ LeaseStep.kept h
  | inr h ↦ LeaseStep.renewed e h
]
apply_class-lease Class.deny c now u op d r t e = LeaseStep.ended (apply_deny-lease c now op r t)
apply_class-lease Class.transient c now u op d r t e =
    LeaseStep.kept (apply_transient-lease c now u op r t)
apply_class-lease Class.poison c now u op d r t e =
    LeaseStep.kept (apply_transient-lease c now u op r t)

Inv-of_step :
    (c : Config) (limit : Option ℕ) (t u : Tenant) (r : Outcome)
    → Inv c limit t
    → IsSound u
    → (r.class ≡ Class.ok → Within limit r.sent_at)
    → LeaseStep t.lease r u.lease
    → Inv c limit u
Inv-of_step c none t u r v s w (LeaseStep.kept e) = ground arith
Inv-of_step c none t u r v s w (LeaseStep.ended e) = ground arith
Inv-of_step c none t u r v s w (LeaseStep.renewed k e) = ground arith
Inv-of_step c (some b) t u r v s w (LeaseStep.kept e) = ground arith
Inv-of_step c (some b) t u r v s w (LeaseStep.ended e) = ground arith
Inv-of_step c (some b) t u r v s w (LeaseStep.renewed k e) = ground arith

pub apply-Inv :
    (c : Config) (limit : Option ℕ) (now u : ℕ) (op : Op) (d : Option Dek) (r : Outcome)
    (t : Tenant)
    → IsAnswer limit r
    → IsFreshOf op d
    → Inv c limit t
    → Inv c limit (apply c now u op d r t)
unfolding apply
apply-Inv c limit now u op d r t a f v = elim (Bool-cases (has r.err Sentinel.busy)) [
  | inl b ↦ unclassified (rw (b, apply) refl)
  | inr b ↦ elim (Bool-cases (has r.err Sentinel.store)) [
    | inl st ↦ unclassified (rw (b, st, apply) refl)
    | inr st ↦
        Inv-of_step c limit t (apply c now u op d r t) r v sound (λ k. a.in_time (a.classed k b st))
          (rw (b, st, apply) (apply_class-lease r.class c now u op d r t refl))
  ]
]
  where
    sound : IsSound (apply c now u op d r t)
    sound = apply-IsSound c now u op d r t a.answered f v.sound

    unclassified :
        apply c now u op d r t ≡ apply_unclassified c now op d t
        → Inv c limit (apply c now u op d r t)
    unclassified e = record {
      sound = sound;
      ttl = rw (e, apply_unclassified-lease c now op d t) v.ttl;
      early = rw (e, apply_unclassified-lease c now op d t) v.early;
      sent = rw (e, apply_unclassified-lease c now op d t) v.sent;
    }
