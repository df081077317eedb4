-- ===== src/Core/Sweep.antt =====
-- internal/cmek/manager.go: `Tick`, `Info` and `States`.
use cmek.Base.{
  ℕ, ◌+◌, ◌-◌, Bytes, Map, lookup, List, [], ◌∷◌, Option, none, some, Bool, true, false, ltb, leb,
  not, same, ◌&&◌, ◌||◌, if◌then◌else◌, is_some, ◌==◌, length, map,
}
use cmek.Base.Int.{ℤ, pos, negsuc}
use cmek.Core.Lease.{usable, remaining}
use cmek.Core.Types.{State, Config, Dek, Tenant}
use cmek.Core.Texts.{Word, word, lease_expired_purged}
use cmek.Core.Tenant.{
  is_active, is_riding, is_revoked, is_unavailable, is_sync, hot, purge, active_dek, audit,
  set_state, purge_line,
}
use cmek.Core.Manager.{Job}

unfoldable pub note_lapse : ℕ → Tenant × ℕ → Tenant
unfolding audit set_state purge_line
note_lapse now (t, purged) =
    if is_riding t.state
    then set_state State.key_unavailable now (lease_expired_purged purged) purged t
    else audit (purge_line now t Word.idle (word Word.no_traffic) purged) t

-- 1. A lapsed lease: every plaintext goes, and a tenant that rides through fails closed.
unfoldable pub lapse : ℕ → Tenant → Tenant
unfolding hot purge note_lapse
lapse now t =
    if not (t.lease.sent_at == 0) && not (usable t.lease now) && ltb 0 (hot t)
    then note_lapse now (purge t)
    else t

abbrev is_active_key : Option Bytes → Bytes → Bool
is_active_key none k = false
is_active_key (some a) k = same a k

unfoldable pub is_aged : Config → ℕ → Option Bytes → Bytes → Dek → Bool
is_aged c now active k d =
    not (is_active_key active k)
    && is_some d.prim
    && leb (d.hot_since + (c.dek_max_age + c.lease)) now

-- 2. Ageing, for data keys other than the active one: the loop drops each aged key and writes a
-- line for it.
unfoldable pub age_deks : Config → ℕ → Option Bytes → Map Dek → Map Dek
unfolding is_aged
age_deks c now active [] = []
age_deks c now active ((k, d) ∷ m) =
    (k, if is_aged c now active k d then record d { prim = none } else d) ∷ age_deks c now active m

unfoldable pub age_lines : Config → ℕ → Tenant → Map Dek → Tenant → Tenant
unfolding is_aged audit purge_line
age_lines c now t [] u = u
age_lines c now t ((k, d) ∷ m) u =
    age_lines c now t m
      (if is_aged c now t.active k d then audit (purge_line now t Word.aged d.id 1) u else u)

unfoldable pub age : Config → ℕ → Tenant → Tenant
unfolding age_deks age_lines
age c now t = age_lines c now t t.deks (record t { deks = age_deks c now t.active t.deks })

-- The first pending warm that is due, in the order in which the runtime ranges over the map.
unfoldable pub due_warm : ℕ → Map ℕ → Map Dek → Option Dek
due_warm now [] deks = none
due_warm now ((k, at) ∷ m) deks =
    let rest = due_warm now m deks in
    elim (lookup k deks) [ none ↦ rest | some d ↦ if not (ltb now at) then some d else rest ]

unfoldable pub start_warm : Tenant → Option Dek → Option Job × Tenant
start_warm t none = (none, t)
start_warm t (some d) = (some (Job.warm_job d), record t { probing = true })

-- 3. The due probe of a tenant that is not ACTIVE, or a due warm.
unfoldable pub due : ℕ → Tenant → Option Job × Tenant
unfolding due_warm start_warm
due now t =
    if (is_riding t.state || is_unavailable t.state || is_revoked t.state)
      && not t.probing
      && not (ltb now t.next_probe_at)
      && not (is_sync t.fetch)
    then (some Job.probe_job, record t { probing = true })
    else if (is_active t.state || is_riding t.state) && usable t.lease now && not t.probing
    then start_warm t (due_warm now t.pending t.deks)
    else (none, t)

-- `Tick` on one tenant, under its lock.
unfoldable pub tick : Config → ℕ → Tenant → Option Job × Tenant
unfolding lapse age due
tick c now t = due now (age c now (lapse now t))

-- `Tick` on every tenant, in grid order.
unfoldable pub tick_all : Config → ℕ → List Tenant → List (Option Job × Tenant)
unfolding tick
tick_all c now ts = map (tick c now) ts

pub record TenantInfo : Type 0 where
  pub state : State
  pub lease_age : ℕ
  pub lease_remaining : ℕ
  pub next_probe_in : ℕ
  pub active_dek : Bytes
  pub deks : ℕ
  pub hot_deks : ℕ
  pub pending : ℕ
  pub attempt : ℕ
  pub waiters : ℕ
  pub probing : Bool

abbrev positive : ℤ → ℕ
positive (pos n) = n
positive (negsuc n) = 0

-- `Info` of a known tenant.
unfoldable pub info : ℕ → Tenant → TenantInfo
unfolding hot remaining active_dek
info now t = record {
  state = t.state;
  lease_age = if t.lease.sent_at == 0 then 0 else now - t.lease.sent_at;
  lease_remaining = if t.lease.sent_at == 0 then 0 else positive (remaining t.lease now);
  next_probe_in =
      if not (is_active t.state) && ltb now t.next_probe_at then t.next_probe_at - now else 0;
  active_dek = elim (active_dek t) [ none ↦ [] | some d ↦ d.id ];
  deks = length t.deks;
  hot_deks = hot t;
  pending = length t.pending;
  attempt = t.attempt;
  waiters = t.waiters;
  probing = t.probing;
}

-- `States`: the grid array, in grid order.
unfoldable pub states : List Tenant → List State
states ts = map (λ (t : Tenant). t.published) ts
