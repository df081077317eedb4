-- ===== src/Core/Delivery.antt =====
-- internal/cmek/manager.go: what the delivery path asks of the core (`DecryptKey`, `Hot`, `Warm`).
use cmek.Base.{
  ℕ, Bytes, lookup, insert, Option, none, some, Bool, true, false, ltb, not, ◌&&◌, ◌||◌,
  if◌then◌else◌, is_some, ◌==◌, length,
}
use cmek.Core.Lease.{until, usable, soft_due}
use cmek.Core.Types.{Config, Dek, Tenant, Handle, Refusal, Result}
use cmek.Core.Tenant.{is_active, is_riding, is_revoked, is_unavailable, is_sync, direct}
use cmek.Core.Run.{M, ◌>>=◌, ◌>>◌, return, locked, clock}
use cmek.Core.Fetcher.{probe, warm}
use cmek.Core.Manager.{Job, unwrap_direct, pass_through_handle}

-- The call that sync fetch makes inline before the checks.
unfoldable pub inline_job : Dek → ℕ → Tenant → Option Job
inline_job d now t =
    if not (is_sync t.fetch) || t.probing
    then none
    else if is_active t.state && soft_due t.lease now
    then some Job.probe_job
    else if not (is_active t.state) && not (ltb now t.next_probe_at)
    then some Job.probe_job
    else if (is_active t.state || is_riding t.state) && usable t.lease now && not (is_some d.prim)
    then some (Job.warm_job d)
    else none

pub data Step : Type 0 where
  answer : Result Handle → Step
  inline : Dek → Job → Step
  direct_call : Dek → Step

-- The checks of `DecryptKey` under the lock.
unfoldable pub check : Dek → ℕ → Tenant → Step × Tenant
check d now t =
    if is_revoked t.state
    then (Step.answer (Result.err Refusal.key_revoked), t)
    else if is_unavailable t.state
    then (Step.answer (Result.err Refusal.lease_expired), t)
    else if direct t
    then (Step.direct_call d, t)
    else if not (usable t.lease now)
    then (Step.answer (Result.err Refusal.lease_expired), t)
    else if not (is_some d.prim)
    then (Step.answer (Result.err Refusal.dek_cold), t)
    else (
      Step.answer
          (Result.ok (record { dek_id = d.id; valid_until = until t.lease; prim = d.prim })),
      t,
    )

unfoldable pub start_inline : Dek → ℕ → Tenant → Option Job → Step × Tenant
unfolding check
start_inline d now t none = check d now t
start_inline d now t (some j) = (Step.inline d j, record t { probing = true })

unfoldable pub enter_decrypt : Bytes → ℕ → Tenant → Step × Tenant
unfolding inline_job start_inline
enter_decrypt dek_id now t = elim (lookup dek_id t.deks) [
  | none ↦ (Step.answer (Result.err Refusal.poison), t)
  | some d ↦ start_inline d now t (inline_job d now t)
]

unfoldable pub run_job : Config → Job → M (Unit {0})
unfolding probe warm
run_job c Job.probe_job = probe c
run_job c (Job.warm_job d) = warm c d

-- The checks after an inline call read the data key through the pointer, so as it is by then.
unfoldable pub check_again : Dek → ℕ → Tenant → Step × Tenant
unfolding check
check_again d now t = elim (lookup d.id t.deks) [ none ↦ check d now t | some e ↦ check e now t ]

unfoldable pub decrypt_inline : Config → Step → M Step
unfolding run_job clock locked check_again return
decrypt_inline c (Step.inline d j) = do run_job c j; now ← clock; locked (check_again d now)
decrypt_inline c st = return st

unfoldable pub decrypt_direct : Config → Dek → M (Result Handle)
unfolding unwrap_direct pass_through_handle
decrypt_direct c d = do (e, r) ← unwrap_direct c (some d); pass_through_handle e r false

unfoldable pub finish_decrypt : Config → Step → M (Result Handle)
unfolding return decrypt_direct
finish_decrypt c (Step.answer a) = return a
finish_decrypt c (Step.direct_call d) = decrypt_direct c d
finish_decrypt c (Step.inline d j) = return (Result.err Refusal.lease_expired)

-- `DecryptKey` of a known tenant.
unfoldable pub decrypt_key : Config → Bytes → M (Result Handle)
unfolding clock locked enter_decrypt decrypt_inline finish_decrypt
decrypt_key c dek_id = do
  now ← clock
  entered ← locked (enter_decrypt dek_id now)
  st ← decrypt_inline c entered
  finish_decrypt c st

-- `Hot`: whether the scheduler may dispatch the tenant, and the renewal that is kicked.
unfoldable pub hot_cached : ℕ → Tenant → (Bool × Option Job) × Tenant
hot_cached now t =
    let ready = usable t.lease now in
    let hot = (is_active t.state || is_riding t.state) && ready && length t.pending == 0 in
    let kick = is_active t.state && not t.probing && (not ready || soft_due t.lease now) in
    let visit =
      not t.probing
      && ((is_active t.state && not ready)
          || (not (is_active t.state) && not (ltb now t.next_probe_at))) in
    if is_sync t.fetch
    then ((hot || visit, none), t)
    else if kick
    then ((hot, some Job.probe_job), record t { probing = true })
    else ((hot, none), t)

unfoldable pub hot_now : ℕ → Tenant → (Bool × Option Job) × Tenant
unfolding hot_cached
hot_now now t = if direct t then ((is_active t.state, none), t) else hot_cached now t

unfoldable pub is_hot : M (Bool × Option Job)
unfolding clock locked hot_now
is_hot = do now ← clock; locked (hot_now now)

unfoldable pub warm_known : Bytes → Dek → ℕ → Tenant → Option Job × Tenant
warm_known dek_id d now t = elim (lookup dek_id t.pending) [
  | some at ↦ (none, t)
  | none ↦
      let t' : Tenant = record t { pending = insert dek_id now t.pending } in
      let kick = not t.probing && (is_active t.state || is_riding t.state) && usable t.lease now in
      if kick then (some (Job.warm_job d), record t' { probing = true }) else (none, t')
]

-- The section of `Warm`.
unfoldable pub want_warm : Bytes → ℕ → Tenant → Option Job × Tenant
unfolding warm_known
want_warm dek_id now t = elim (lookup dek_id t.deks) [
  | none ↦ (none, t)
  | some d ↦ if direct t then (none, t) else warm_known dek_id d now t
]

unfoldable pub ask_warm : Bytes → M (Option Job)
unfolding clock locked want_warm
ask_warm dek_id = do now ← clock; locked (want_warm dek_id now)
