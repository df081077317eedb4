-- ===== src/Core/Invariant.antt =====
-- What holds of a tenant between two critical sections, and that `apply` keeps it.
use cmek.Base.{
  ℕ, ◌≤◌, ◌<◌, ◌≡◌, refl, ◌⊎◌, inl, inr, Bytes, Map, insert, [], ◌∷◌, Option, none, some, Bool,
  true, false, arith, is_some, if◌then◌else◌, Bool-cases, ◌&&◌, not,
}
use cmek.Kms.Errors.{Sentinel}
use cmek.Core.Lease.{renew_lease, usable}
use cmek.Core.Types.{State, Class, Config, Dek, Tenant, Outcome, Op, new_tenant}
use cmek.Core.Tenant.{is_direct, direct, hot_deks, cool_deks, update_dek}
use cmek.Core.Apply.{
  touch, is_generate, apply_unclassified, apply_ok, apply_deny, park, note_failure, apply_transient,
  apply_class, apply, has,
}

-- A tenant's key state, its lease and its cache agree.
pub record IsSound (t : Tenant) : Type 0 where
  -- A tenant with no lease has no plaintext key.
  pub no_lease_cold : t.lease.sent_at ≡ 0 → hot_deks t.deks ≡ 0
  pub revoked_no_lease : t.state ≡ State.revoked → t.lease.sent_at ≡ 0
  pub unavailable_cold : t.state ≡ State.key_unavailable → hot_deks t.deks ≡ 0
  -- A mode without the cache keeps nothing in it.
  pub direct_cold : is_direct t.fetch ≡ true → hot_deks t.deks ≡ 0
  -- The lease never rests on a call sent before the latest deny.
  pub after_deny : (t.lease.sent_at ≡ 0) ⊎ (t.denied_at ≤ t.lease.sent_at)
  -- The grid shows the tenant's state.
  pub grid : t.published ≡ t.state

pub hot-cool : (m : Map Dek) → hot_deks (cool_deks m) ≡ 0
unfolding hot_deks cool_deks
hot-cool [] = refl
hot-cool ((k, d) ∷ m) = omega (arith, hot-cool m)

-- A new data key is cold until `apply` warms it.
pub hot-insert-le :
    (id : Bytes) (d : Dek) (m : Map Dek)
    → is_some d.prim ≡ false
    → hot_deks (insert id d m) ≤ hot_deks m
unfolding hot_deks insert
hot-insert-le id d [] h = ground arith
hot-insert-le id d ((k, e) ∷ m) h = ground (arith, hot-insert-le id d m h)

pub hot-update :
    (id : Bytes) (f : Dek → Dek) (m : Map Dek)
    → ((e : Dek) → is_some (f e).prim ≡ is_some e.prim)
    → hot_deks (update_dek id f m) ≡ hot_deks m
unfolding hot_deks update_dek
hot-update id f [] h = refl
hot-update id f ((k, e) ∷ m) h = ground (arith, hot-update id f m h, h e)

-- A data key that a call may be about: cold if it is new.
abbrev pub IsFresh : Op → Dek → Type 0
IsFresh Op.generate d = is_some d.prim ≡ false
IsFresh _ d = Unit {0}

-- A direct call leaves every data key as cold as it was.
hot-install :
    (now : ℕ) (op : Op) (d : Dek) (prim : Option ℕ) (m : Map Dek)
    → IsFresh op d
    → hot_deks
        (update_dek d.id (touch true prim now) (if is_generate op then insert d.id d m else m))
      ≤ hot_deks m
unfolding touch
hot-install now Op.generate d prim m h = omega (
  arith,
  hot-update d.id (touch true prim now) (insert d.id d m) (λ e. unfold touch in refl),
  hot-insert-le d.id d m h,
)
hot-install now Op.unwrap d prim m h =
    omega (arith, hot-update d.id (touch true prim now) m (λ e. unfold touch in refl))
hot-install now Op.warm d prim m h =
    omega (arith, hot-update d.id (touch true prim now) m (λ e. unfold touch in refl))

apply_ok-IsSound :
    (now : ℕ) (op : Op) (d : Dek) (r : Outcome) (t : Tenant)
    → 0 < r.sent_at
    → IsFresh op d
    → IsSound t
    → IsSound (apply_ok now op d r t)
unfolding apply_ok renew_lease direct
apply_ok-IsSound now op d r t sent fresh v = elim (Bool-cases (is_direct t.fetch)) [
  | inl e ↦ ground (arith, hot-install now op d r.prim t.deks fresh)
  | inr e ↦ ground arith
]

apply_deny-IsSound :
    (c : Config) (now : ℕ) (op : Op) (r : Outcome) (t : Tenant)
    → IsSound t
    → IsSound (apply_deny c now op r t)
unfolding apply_deny
apply_deny-IsSound c now op r t v = ground (arith, hot-cool t.deks)

park-IsSound : (now : ℕ) (b : Bool) (t : Tenant) → IsSound t → IsSound (park now b t)
unfolding park
park-IsSound now b t v = ground (arith, hot-cool t.deks)

apply_transient-IsSound :
    (c : Config) (now u : ℕ) (op : Op) (r : Outcome) (t : Tenant)
    → IsSound t
    → IsSound (apply_transient c now u op r t)
unfolding apply_transient note_failure
apply_transient-IsSound c now u op r t v =
    park-IsSound now (usable t.lease now && not (direct t)) (note_failure c now u op r t)
      (ground arith)

abbrev pub IsFreshOf : Op → Option Dek → Type 0
IsFreshOf op none = Unit {0}
IsFreshOf op (some d) = IsFresh op d

apply_class-IsSound :
    (k : Class) (c : Config) (now u : ℕ) (op : Op) (d : Option Dek) (r : Outcome) (t : Tenant)
    → 0 < r.sent_at
    → IsFreshOf op d
    → IsSound t
    → IsSound (apply_class k c now u op d r t)
unfolding apply_class
apply_class-IsSound Class.ok c now u op none r t s f v = v
apply_class-IsSound Class.ok c now u op (some d) r t s f v = apply_ok-IsSound now op d r t s f v
apply_class-IsSound Class.deny c now u op d r t s f v = apply_deny-IsSound c now op r t v
apply_class-IsSound Class.transient c now u op d r t s f v =
    apply_transient-IsSound c now u op r t v
apply_class-IsSound Class.poison c now u op d r t s f v = apply_transient-IsSound c now u op r t v

apply_unclassified-IsSound :
    (c : Config) (now : ℕ) (op : Op) (d : Option Dek) (t : Tenant)
    → IsSound t
    → IsSound (apply_unclassified c now op d t)
unfolding apply_unclassified
apply_unclassified-IsSound c now op none t v = v
apply_unclassified-IsSound c now op (some d) t v = ground arith

-- Every outcome of every call keeps the tenant sound: an answered call was sent after the zero
-- instant, and the data key of a generate is new.
pub apply-IsSound :
    (c : Config) (now u : ℕ) (op : Op) (d : Option Dek) (r : Outcome) (t : Tenant)
    → (has r.err Sentinel.busy ≡ false → 0 < r.sent_at)
    → IsFreshOf op d
    → IsSound t
    → IsSound (apply c now u op d r t)
unfolding apply
apply-IsSound c now u op d r t s f v = elim (Bool-cases (has r.err Sentinel.busy)) [
  | inl b ↦ rw (b, apply) (apply_unclassified-IsSound c now op d t v)
  | inr b ↦ elim (Bool-cases (has r.err Sentinel.store)) [
    | inl st ↦ rw (b, st, apply) (apply_unclassified-IsSound c now op d t v)
    | inr st ↦ rw (b, st, apply) (apply_class-IsSound r.class c now u op d r t (s b) f v)
  ]
]

pub new_tenant-IsSound :
    (c : Config) (idx : ℕ) (id provider kek_id : Bytes)
    → IsSound (new_tenant c idx id provider kek_id)
unfolding new_tenant hot_deks
new_tenant-IsSound c idx id provider kek_id = ground arith
