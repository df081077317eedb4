-- ===== src/Core/StateMachine.antt =====
-- The key state machine: what one outcome may do to a tenant's state.
use cmek.Base.{
  ℕ, Option, none, some, true, false, ◌≡◌, refl, arith, ◌+◌, ◌⊎◌, inl, inr, ◌≢◌, ◌||◌, Bool-cases,
  if◌then◌else◌,
}
use cmek.Kms.Errors.{Sentinel}
use cmek.Core.Lease.{usable}
use cmek.Core.Types.{State, Class, Config, Dek, Tenant, Outcome, Op}
use cmek.Core.Tenant.{is_active, direct}
use cmek.Core.Apply.{
  has, apply_unclassified, apply_ok, apply_deny, park, note_failure, apply_transient, apply_class,
  apply,
}

-- The edges of the diagram, each with the class of outcome that takes it.
pub data Edge : Class → State → State → Type 0 where
  restored : {s : State} → Edge Class.ok s State.active
  denied : {s : State} → Edge Class.deny s State.revoked
  rides : Edge Class.transient State.active State.riding_through
  cold_failed : Edge Class.transient State.active State.key_unavailable
  lapsed : Edge Class.transient State.riding_through State.key_unavailable

abbrev pub Moves : Class → State → State → Type 0
Moves k s u = (u ≡ s) ⊎ Edge k s u

apply_class-state :
    (k : Class) (c : Config) (now u : ℕ) (op : Op) (d : Option Dek) (r : Outcome) (t : Tenant)
    → k ≢ Class.poison
    → Moves k t.state (apply_class k c now u op d r t).state
unfolding apply_class apply_ok apply_deny apply_transient park note_failure
apply_class-state Class.ok c now u op none r t h = inl refl
apply_class-state Class.ok c now u op (some d) r t h = grind (arith, Edge.restored)
apply_class-state Class.deny c now u op d r t h = grind (arith, Edge.denied)
apply_class-state Class.transient c now u op d r t h =
    grind (arith, Edge.rides, Edge.cold_failed, Edge.lapsed)
apply_class-state Class.poison c now u op d r t h = absurd (h refl)

apply_unclassified-state :
    (c : Config) (now : ℕ) (op : Op) (d : Option Dek) (t : Tenant)
    → (apply_unclassified c now op d t).state ≡ t.state
unfolding apply_unclassified
apply_unclassified-state c now op none t = refl
apply_unclassified-state c now op (some d) t = ground arith

-- One outcome moves a tenant along an edge of the diagram or not at all: only a deny revokes, only
-- a success brings a tenant back to ACTIVE, and a transient failure moves ACTIVE to RIDING_THROUGH
-- or KEY_UNAVAILABLE and RIDING_THROUGH to KEY_UNAVAILABLE, and nothing else.
pub apply-Moves :
    (c : Config) (now u : ℕ) (op : Op) (d : Option Dek) (r : Outcome) (t : Tenant)
    → r.class ≢ Class.poison
    → Moves r.class t.state (apply c now u op d r t).state
unfolding apply
apply-Moves c now u op d r t h =
    elim (Bool-cases (has r.err Sentinel.busy || has r.err Sentinel.store)) [
      | inl b ↦ rw (b, apply) (inl (apply_unclassified-state c now op d t))
      | inr b ↦ rw (b, apply) (apply_class-state r.class c now u op d r t h)
    ]

-- While the lease is usable and the cache is on, a transient failure costs no key: an ACTIVE tenant
-- rides through, every other keeps its state, and the lease and all data keys stay as they are.
pub transient_rides :
    (c : Config) (now u : ℕ) (op : Op) (d : Option Dek) (r : Outcome) (t : Tenant)
    → r.class ≡ Class.transient
    → has r.err Sentinel.busy ≡ false
    → has r.err Sentinel.store ≡ false
    → usable t.lease now ≡ true
    → direct t ≡ false
    → let t' = apply c now u op d r t in
      (t'.state ≡ (if is_active t.state then State.riding_through else t.state))
      × (t'.lease ≡ t.lease)
      × (t'.deks ≡ t.deks)
      × (t'.attempt ≡ t.attempt + 1)
unfolding apply apply_class apply_transient park note_failure
transient_rides c now u op d r t k b st l x = ground arith
