-- ===== src/Core/Handles.antt =====
-- Every handle that the core gives out lapses within the bound: `EncryptKey` and `DecryptKey`,
-- whatever the other goroutines do.
use cmek.Base.{ℕ, ◌+◌, ◌-◌, ◌≤◌, refl, Bytes, Option, none, some, Bool, true, arith}
use cmek.Kms.Errors.{GoErr}
use cmek.Core.Lease.{until}
use cmek.Core.Types.{Class, Config, Dek, Tenant, Handle, Result}
use cmek.Core.Tenant.{update_dek, active_dek}
use cmek.Core.Invariant.{hot-update}
use cmek.Core.Bound.{Inv}
use cmek.Core.Manager.{
  count_message, handle_of, handle, direct_refusal, direct_handle, need_gen, Route, route_hot,
  route, after_renew, leave_cold, enter_encrypt,
}
use cmek.Core.Renewal.{Same, Inv-Same}

-- A handle that lapses at the latest one lease, less the early expiry, after the limit.
abbrev pub Lapses : Config → Option ℕ → Handle → Type 0
Lapses c none h = Unit {0}
Lapses c (some r) h = h.valid_until ≤ r + c.lease - c.early_expiry

abbrev pub GoodResult : Config → Option ℕ → Result Handle → Type 0
GoodResult c limit (Result.ok h) = Lapses c limit h
GoodResult c limit (Result.err x) = Unit {0}

-- What is true of a lease's end at a tenant with the invariant.
pub lease-Lapses :
    (c : Config) (limit : Option ℕ) (t : Tenant) (id : Bytes) (prim : Option ℕ)
    → Inv c limit t
    → Lapses c limit (record { dek_id = id; valid_until = until t.lease; prim = prim })
unfolding until
lease-Lapses c none t id prim v = tt
lease-Lapses c (some r) t id prim v = omega arith

-- Counting a message leaves the invariant alone.
counted-Inv :
    (c : Config) (limit : Option ℕ) (t : Tenant) (id : Bytes)
    → Inv c limit t
    → Inv c limit (record t { deks = update_dek id count_message t.deks })
unfolding count_message
counted-Inv c none t id v =
    ground (arith, hot-update id count_message t.deks (λ e. unfold count_message in refl))
counted-Inv c (some r) t id v =
    ground (arith, hot-update id count_message t.deks (λ e. unfold count_message in refl))

abbrev pub GoodOption : Config → Option ℕ → Option Handle → Type 0
GoodOption c limit none = Unit {0}
GoodOption c limit (some h) = Lapses c limit h

-- A section's result: the invariant, and something of the value.
pub record Kept {ℓ κ} {A : Type ℓ} (c : Config) (limit : Option ℕ) (Q : A → Type κ) (p : A × Tenant)
    : Type κ where
  pub inv : Inv c limit p.1
  pub good : Q p.0

handle_of-Kept :
    (c : Config) (limit : Option ℕ) (now : ℕ) (t : Tenant) (d : Option Dek)
    → Inv c limit t
    → Kept c limit (GoodOption c limit) (handle_of c now t d)
unfolding handle_of
handle_of-Kept c limit now t none v = record { inv = v; good = tt }
handle_of-Kept c limit now t (some d) v =
    ground (arith, counted-Inv c limit t d.id v, lease-Lapses c limit t d.id d.prim v)

handle-Kept :
    (c : Config) (limit : Option ℕ) (now : ℕ) (t : Tenant)
    → Inv c limit t
    → Kept c limit (GoodOption c limit) (handle c now t)
unfolding handle
handle-Kept c limit now t v = handle_of-Kept c limit now t (active_dek t) v

pub direct_handle-Kept :
    (c : Config) (limit : Option ℕ) (now : ℕ) (d : Option Dek) (prim : Option ℕ) (count : Bool)
    (t : Tenant)
    → Inv c limit t
    → Kept c limit (GoodResult c limit) (direct_handle now d prim count t)
unfolding direct_handle
direct_handle-Kept c limit now none prim count t v = record { inv = v; good = tt }
direct_handle-Kept c limit now (some d) prim count t v =
    ground (arith, counted-Inv c limit t d.id v, lease-Lapses c limit t d.id prim v)

pub direct_refusal-Good :
    (c : Config) (limit : Option ℕ) (k : Class) (x : GoErr)
    → GoodResult c limit (direct_refusal k x)
unfolding direct_refusal
direct_refusal-Good c limit k x = ground arith

pub need_gen-Same : (c : Config) (now : ℕ) (t : Tenant) → Same t (need_gen c now t).1
unfolding need_gen
need_gen-Same c now t = ground arith

abbrev pub GoodRoute : Config → Option ℕ → Route → Type 0
GoodRoute c limit (Route.answer a) = GoodResult c limit a
GoodRoute c limit (Route.answer_and_probe h) = Lapses c limit h
GoodRoute c limit _ = Unit {0}

-- Fields that the invariant does not read.
pub marked-Inv :
    (c : Config) (limit : Option ℕ) (t : Tenant) (b : Bool)
    → Inv c limit t
    → Inv c limit (record t { probing = b })
marked-Inv c limit t b v = Inv-Same c limit t _ (refl, refl, refl, refl, refl, refl) v

pub waiting-Inv :
    (c : Config) (limit : Option ℕ) (t : Tenant) (n : ℕ)
    → Inv c limit t
    → Inv c limit (record t { waiters = n })
waiting-Inv c limit t n v = Inv-Same c limit t _ (refl, refl, refl, refl, refl, refl) v

route_hot-Kept :
    (c : Config) (limit : Option ℕ) (now : ℕ) (t : Tenant) (p : Option Handle × Tenant)
    → Kept c limit (GoodOption c limit) p
    → Kept c limit (GoodRoute c limit) (route_hot c now t p)
unfolding route_hot
route_hot-Kept c limit now t (some h, t') k =
    ground (arith, k.inv, k.good, marked-Inv c limit t' true k.inv)
route_hot-Kept c limit now t (none, t') k =
    ground (arith, k.inv, waiting-Inv c limit t' (t.waiters + 1) k.inv)

pub route-Kept :
    (c : Config) (limit : Option ℕ) (now : ℕ) (t : Tenant)
    → Inv c limit t
    → Kept c limit (GoodRoute c limit) (route c now t)
unfolding route
route-Kept c limit now t v =
    let hot = route_hot-Kept c limit now t (handle c now t) (handle-Kept c limit now t v) in
    ground (arith, v, hot.inv, hot.good)

after_renew-Kept :
    (c : Config) (limit : Option ℕ) (x : Option GoErr) (p : Option Handle × Tenant)
    → Kept c limit (GoodOption c limit) p
    → Kept c limit (GoodResult c limit) (after_renew x p)
unfolding after_renew
after_renew-Kept c limit x (some h, t) k = record { inv = k.inv; good = k.good }
after_renew-Kept c limit none (none, t) k = record { inv = k.inv; good = tt }
after_renew-Kept c limit (some x) (none, t) k = record { inv = k.inv; good = ground arith }

pub leave_cold-Kept :
    (c : Config) (limit : Option ℕ) (now : ℕ) (x : Option GoErr) (t : Tenant)
    → Inv c limit t
    → Kept c limit (GoodResult c limit) (leave_cold c now x t)
unfolding leave_cold
leave_cold-Kept c limit now x t v =
    let left : Tenant = record t { waiters = t.waiters - 1 } in
    let v' = waiting-Inv c limit t (t.waiters - 1) v in
    let k = after_renew-Kept c limit x (handle c now left) (handle-Kept c limit now left v') in
    ground (arith, v', k.inv, k.good)

pub enter_encrypt-Kept :
    (c : Config) (limit : Option ℕ) (now : ℕ) (t : Tenant)
    → Inv c limit t
    → Kept c limit (GoodRoute c limit) (enter_encrypt c now t)
unfolding enter_encrypt
enter_encrypt-Kept c limit now t v =
    let k = route-Kept c limit now t v in ground (arith, marked-Inv c limit t true v, k.inv, k.good)
