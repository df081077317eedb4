-- ===== src/Core/Manager.antt =====
-- internal/cmek/manager.go: the operations on a tenant that the rest of the program calls.
use cmek.Base.{
  ℕ, ◌+◌, ◌-◌, Option, none, some, Bool, true, ltb, leb, not, ◌&&◌, ◌||◌, if◌then◌else◌, is_some,
}
use cmek.Kms.Errors.{GoErr, Sentinel, is}
use cmek.Core.Lease.{until, usable, soft_due}
use cmek.Core.Types.{Class, Config, Dek, Tenant, Outcome, Op, Handle, Refusal, Result}
use cmek.Core.Tenant.{
  is_active, is_revoked, is_unavailable, is_sync, direct, update_dek, active_dek, exhausted,
}
use cmek.Core.Run.{M, ◌>>=◌, ◌>>◌, return, locked, clock}
use cmek.Core.Fetcher.{call, apply_result, generate, flight, renew, probe}

-- Work that `Spawn` starts on a goroutine of its own.
pub data Job : Type 0 where
  probe_job : Job
  warm_job : Dek → Job

unfoldable pub count_message : Dek → Dek
count_message d = record d { msgs = d.msgs + 1 }

abbrev handle_on : Tenant → Dek → Option ℕ → Handle
handle_on t d prim = record { dek_id = d.id; valid_until = until t.lease; prim = prim }

-- `handle`: under the lock, a handle on the active key if the tenant may seal now.
unfoldable pub handle_of : Config → ℕ → Tenant → Option Dek → Option Handle × Tenant
unfolding count_message
handle_of c now t none = (none, t)
handle_of c now t (some d) =
    if not (is_some d.prim)
      || direct t
      || not (usable t.lease now)
      || (is_active t.state && exhausted c d now)
    then (none, t)
    else (some (handle_on t d d.prim), record t { deks = update_dek d.id count_message t.deks })

unfoldable pub handle : Config → ℕ → Tenant → Option Handle × Tenant
unfolding handle_of
handle c now t = handle_of c now t (active_dek t)

-- The answers of `passThroughHandle` to a call that failed.
unfoldable pub direct_refusal : Class → GoErr → Result Handle
direct_refusal Class.deny e = Result.err Refusal.key_revoked
direct_refusal _ e =
    if is e.chain Sentinel.store
    then Result.err (Refusal.other e)
    else Result.err Refusal.key_unavailable

-- The section of `passThroughHandle` after a call that succeeded; `count` is true for a seal.
unfoldable pub direct_handle : ℕ → Option Dek → Option ℕ → Bool → Tenant → Result Handle × Tenant
unfolding count_message
direct_handle now none prim count t = (Result.err Refusal.key_unavailable, t)
direct_handle now (some d) prim count t =
    if is_revoked t.state
    then (Result.err Refusal.key_revoked, t)
    else if not (usable t.lease now)
    then (Result.err Refusal.key_unavailable, t)
    else (
      Result.ok (handle_on t d prim),
      if count then record t { deks = update_dek d.id count_message t.deks } else t,
    )

unfoldable pub direct_answer : Option Dek → Outcome → Bool → Option GoErr → M (Result Handle)
unfolding clock locked return
direct_answer d r count none = do now ← clock; locked (direct_handle now d r.prim count)
direct_answer d r count (some e) = return (direct_refusal r.class e)

unfoldable pub pass_through_handle : Option Dek → Outcome → Bool → M (Result Handle)
unfolding direct_answer
pass_through_handle d r count = direct_answer d r count r.err

-- `needGen`.
unfoldable pub need_gen : Config → ℕ → Tenant → (Option Dek × Bool) × Tenant
need_gen c now t = elim (active_dek t) [
  | none ↦ ((none, true), t)
  | some d ↦ ((some d, is_active t.state && exhausted c d now), t)
]

unfoldable pub unwrap_direct : Config → Option Dek → M (Option Dek × Outcome)
unfolding call apply_result return
unwrap_direct c d = do r ← call c; apply_result c Op.unwrap d r; return (d, r)

-- The body of the "<tenant>/generate" flight.
unfoldable pub generate_direct : Config → M (Option Dek × Outcome)
unfolding clock locked need_gen unwrap_direct generate
generate_direct c = do
  now ← clock
  (d, still) ← locked (need_gen c now)
  if still then generate c else unwrap_direct c d

-- A flight that is joined is another one of this function: a joiner of a renew's flight, which has
-- the same key, panics in the source and has no run here.
unfoldable pub pass_through_encrypt : Config → M (Result Handle)
unfolding clock locked need_gen unwrap_direct generate_direct flight pass_through_handle
pass_through_encrypt c = do
  now ← clock
  (d, gen) ← locked (need_gen c now)
  (d', r) ←
      (if gen then flight (λ j. (j.dek, j.outcome)) (generate_direct c) else unwrap_direct c d)
  pass_through_handle d' r true

-- The test for the inline probe of a parked tenant in sync fetch.
unfoldable pub inline_due : ℕ → Tenant → Bool
inline_due now t =
    is_sync t.fetch && not t.probing && not (is_active t.state) && not (ltb now t.next_probe_at)

-- What a section of `EncryptKey` decides.
pub data Route : Type 0 where
  answer : Result Handle → Route
  answer_and_probe : Handle → Route
  direct_route cold_route probe_route : Route

unfoldable pub route_hot : Config → ℕ → Tenant → Option Handle × Tenant → Route × Tenant
route_hot c now t (some h, t') =
    if is_active t.state && soft_due t.lease now && not t.probing && not (is_sync t.fetch)
    then (Route.answer_and_probe h, record t' { probing = true })
    else (Route.answer (Result.ok h), t')
route_hot c now t (none, t') =
    if leb c.ingest_waiters t.waiters
    then (Route.answer (Result.err Refusal.key_unavailable), t')
    else (Route.cold_route, record t' { waiters = t.waiters + 1 })

unfoldable pub route : Config → ℕ → Tenant → Route × Tenant
unfolding route_hot handle
route c now t =
    if is_revoked t.state
    then (Route.answer (Result.err Refusal.key_revoked), t)
    else if is_unavailable t.state
    then (Route.answer (Result.err Refusal.key_unavailable), t)
    else if direct t
    then (Route.direct_route, t)
    else route_hot c now t (handle c now t)

unfoldable pub after_renew : Option GoErr → Option Handle × Tenant → Result Handle × Tenant
after_renew e (some h, t) = (Result.ok h, t)
after_renew none (none, t) = (Result.err Refusal.key_unavailable, t)
after_renew (some e) (none, t) = (
  if is e.chain Sentinel.store
      then Result.err (Refusal.other e)
      else Result.err Refusal.key_unavailable,
  t,
)

-- The last section of the cold path.
unfoldable pub leave_cold : Config → ℕ → Option GoErr → Tenant → Result Handle × Tenant
unfolding after_renew handle
leave_cold c now e t =
    let t' : Tenant = record t { waiters = t.waiters - 1 } in
    if is_revoked t.state
    then (Result.err Refusal.key_revoked, t')
    else after_renew e (handle c now t')

unfoldable pub cold_path : Config → M (Result Handle)
unfolding renew clock locked leave_cold
cold_path c = do e ← renew c true; now ← clock; locked (leave_cold c now e)

unfoldable pub enter_encrypt : Config → ℕ → Tenant → Route × Tenant
unfolding inline_due route
enter_encrypt c now t =
    if inline_due now t then (Route.probe_route, record t { probing = true }) else route c now t

unfoldable pub follow : Config → Route → M (Result Handle × Option Job)
unfolding return pass_through_encrypt cold_path
follow c (Route.answer a) = return (a, none)
follow c (Route.answer_and_probe h) = return (Result.ok h, some Job.probe_job)
follow c Route.direct_route = do a ← pass_through_encrypt c; return (a, none)
follow c Route.cold_route = do a ← cold_path c; return (a, none)
follow c Route.probe_route = return (Result.err Refusal.key_unavailable, none)

-- The inline probe, a fresh reading of the clock, and the checks under the lock taken again.
unfoldable pub probe_first : Config → Route → M Route
unfolding probe clock locked return route
probe_first c Route.probe_route = do probe c; now ← clock; locked (route c now)
probe_first c r = return r

-- `EncryptKey` of a known tenant, with the probe that it leaves to a goroutine of its own.
unfoldable pub encrypt_key : Config → M (Result Handle × Option Job)
unfolding clock locked enter_encrypt probe_first follow
encrypt_key c = do
  now ← clock
  entered ← locked (enter_encrypt c now)
  r ← probe_first c entered
  follow c r
