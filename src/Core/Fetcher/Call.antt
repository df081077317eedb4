-- ===== src/Core/Fetcher/Call.antt =====
-- `call` of internal/cmek/fetcher.go: the tenant's cap, the bulkhead, and the key service.
use cmek.Base.{
  ℕ, ◌+◌, ◌-◌, Bytes, codes, ◌++◌, [], ◌∷◌, none, some, Bool, ltb, leb, not, ◌&&◌, ◌||◌,
  if◌then◌else◌,
}
use cmek.Kms.Errors.{GoErr, Sentinel}
use cmek.Core.Types.{Class, Config, Tenant, Outcome}
use cmek.Core.Classify.{classify}
use cmek.Core.Tenant.{is_naive}
use cmek.Core.Run.{Reply, M, ◌>>=◌, ◌>>◌, return, ask, locked, clock}

abbrev pub busy_error : GoErr
busy_error = record {
  chain = Sentinel.busy ∷ [];
  typed = none;
  text = codes "cmek: tenant inflight cap";
}

abbrev pub busy_outcome : Outcome
busy_outcome = record {
  sent_at = 0;
  class = Class.ok;
  err = some busy_error;
  prim = none;
  wrapped = [];
  latency = 0;
}

-- How the tenant's cap was passed.
pub data Entry : Type 0 where
  full counted uncapped : Entry

-- The section that opens `call`.
unfoldable pub enter_call : Config → Tenant → Entry × Tenant
enter_call c t =
    if not (is_naive t.fetch) && ltb 0 c.tenant_inflight
    then if leb c.tenant_inflight t.inflight
      then (Entry.full, t)
      else (Entry.counted, record t { inflight = t.inflight + 1 })
    else (Entry.uncapped, t)

-- The deferred section of `call`, only where it was counted.
unfoldable pub leave_call : Entry → Tenant → Unit {0} × Tenant
leave_call Entry.counted t = (tt, record t { inflight = t.inflight - 1 })
leave_call _ t = (tt, t)

-- The wait for the provider's semaphore ran into the deadline.
unfoldable pub bulkhead_outcome : Bytes → ℕ → Bytes → Outcome
bulkhead_outcome provider now why = record {
  sent_at = now;
  class = Class.transient;
  err = some (record {
    chain = [];
    typed = none;
    text = codes "bulkhead " ++ (provider ++ (codes ": " ++ why));
  });
  prim = none;
  wrapped = [];
  latency = 0;
}

unfoldable pub outcome_of : ℕ → ℕ → Reply → Outcome
outcome_of sent_at done reply = record {
  sent_at = sent_at;
  class = classify reply.err;
  err = reply.err;
  prim = reply.prim;
  wrapped = reply.wrapped;
  latency = done - sent_at;
}

-- Inside the bulkhead: validity runs from the clock read before the call.
unfoldable pub call_inside : M Outcome
unfolding return ask clock outcome_of
call_inside = do
  sent_at ← clock
  reply ← ask (λ e n. e.kms n)
  done ← clock
  return (outcome_of sent_at done reply)

unfoldable pub bulkhead_timeout : Bytes → M Outcome
unfolding return ask clock bulkhead_outcome
bulkhead_timeout provider = do
  now ← clock
  why ← ask (λ e n. e.ctx_err n)
  return (bulkhead_outcome provider now why)

-- The call past the tenant's cap. A naive tenant does not wait for the semaphore.
unfoldable pub call_provider : Bytes → Bool → M Outcome
unfolding ask call_inside bulkhead_timeout
call_provider provider naive = do
  got ← ask (λ e n. naive || e.slot n)
  if got then call_inside else bulkhead_timeout provider

unfoldable pub call_entered : Bytes → Bool → Entry → M Outcome
unfolding call_provider locked leave_call
call_entered provider naive Entry.full = return busy_outcome
call_entered provider naive Entry.counted = do
  r ← call_provider provider naive
  locked (leave_call Entry.counted)
  return r
call_entered provider naive Entry.uncapped = call_provider provider naive

unfoldable pub open_call : Config → Tenant → (Bool × Bytes × Entry) × Tenant
unfolding enter_call
open_call c t = let (entry, t') = enter_call c t in ((is_naive t.fetch, t.provider, entry), t')

-- `call`. Which bytes go to the key service is the environment's affair.
unfoldable pub call : Config → M Outcome
unfolding call_entered open_call locked
call c = do (naive, provider, entry) ← locked (open_call c); call_entered provider naive entry
