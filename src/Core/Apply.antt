-- ===== src/Core/Apply.antt =====
-- internal/cmek/fetcher.go: `apply`, which takes one call's outcome into the tenant's state.
-- `d` is the data key that the call was about, and `u` the draw of the jitter source.
use cmek.Base.{
  ℕ, ◌+◌, Bytes, Map, insert, delete, [], ◌∷◌, Option, none, some, Bool, true, false, ltb, ◌&&◌,
  ◌||◌, if◌then◌else◌, not,
}
use cmek.Kms.Errors.{GoErr, Sentinel, is}
use cmek.Kms.Frame.{cause}
use cmek.Core.Lease.{renew_lease, usable, backoff}
use cmek.Core.Types.{State, Class, Audit, Config, Dek, Tenant, Outcome, Op}
use cmek.Core.Texts.{Word, word, op_text, warm_text, lease_expired_purged, key_revoked_purged}
use cmek.Core.Tenant.{is_active, is_riding, is_revoked, direct, purge, update_dek, audit, set_state}

abbrev pub is_warm : Op → Bool
is_warm Op.warm = true
is_warm _ = false

abbrev pub is_generate : Op → Bool
is_generate Op.generate = true
is_generate _ = false

-- `errors.Is(r.err, …)` of an error that may be nil.
abbrev pub has : Option GoErr → Sentinel → Bool
has none s = false
has (some e) s = is e.chain s

abbrev pub cause_of : Option GoErr → Bytes
cause_of none = []
cause_of (some e) = cause e.text

abbrev pub dek_key : Option Dek → Bytes
dek_key none = []
dek_key (some d) = d.id

unfoldable pub call_line : ℕ → Tenant → Op → Word → Bytes → ℕ → Class → ℕ → Audit
call_line now t op outcome detail version class latency = record {
  at = now;
  tenant = t.id;
  op = op_text op;
  outcome = word outcome;
  detail = detail;
  kek_version = version;
  class = class;
  from = State.active;
  to = State.active;
  latency = latency;
  purged = 0;
}

-- The first rows: the in-flight cap and the store's error are no outcomes of the key service.
unfoldable pub apply_unclassified : Config → ℕ → Op → Option Dek → Tenant → Tenant
apply_unclassified c now op none t = t
apply_unclassified c now op (some d) t =
    if is_warm op then record t { pending = insert d.id (now + c.sweep_interval) t.pending } else t

-- The writes to the data key itself: a mode without the cache never fills it.
unfoldable pub touch : Bool → Option ℕ → ℕ → Dek → Dek
touch true prim now e = record e { hot_since = now }
touch false prim now e = record e { prim = prim; hot_since = now }

-- Case OK, past the stale guard. An outcome of this class always names its data key.
unfoldable pub install : ℕ → Op → Dek → Outcome → Tenant → Tenant
install now op d r t =
    let lease' = (renew_lease t.lease r.sent_at).0 in
    let deks' = if is_generate op then insert d.id d t.deks else t.deks in
    let active' = if is_generate op then some d.id else t.active in
    record t {
      lease = lease';
      deks = update_dek d.id (touch (direct t) r.prim now) deks';
      active = active';
      attempt = 0;
      pending = delete d.id t.pending;
    }

unfoldable pub apply_ok : ℕ → Op → Dek → Outcome → Tenant → Tenant
unfolding install audit set_state call_line
apply_ok now op d r t =
    let detail = if is_warm op then warm_text d.id else [] in
    if ltb r.sent_at t.denied_at
    then audit (call_line now t op Word.stale_ok detail 0 Class.ok r.latency) t
    else let t' =
        install now op d r
          (audit (call_line now t op Word.ok detail d.kek_version Class.ok r.latency) t) in
      if is_active t.state then t' else set_state State.active now (word Word.renewed) 0 t'

unfoldable pub apply_deny : Config → ℕ → Op → Outcome → Tenant → Tenant
unfolding audit set_state call_line purge
apply_deny c now op r t =
    let line = call_line now t op Word.denied (cause_of r.err) 0 Class.deny r.latency in
    let (t', purged) = purge (audit line t) in
    let u = record t' {
      denied_at = now;
      lease = record t'.lease { sent_at = 0 };
      next_probe_at = now + c.revoked_reprobe;
    } in
    if is_revoked t.state
    then u
    else set_state State.revoked now (key_revoked_purged purged) purged u

-- `for id := range t.pending { t.pending[id] = at }`
unfoldable pub postpone : ℕ → Map ℕ → Map ℕ
postpone at [] = []
postpone at ((k, v) ∷ m) = (k, at) ∷ postpone at m

-- Purge, then KEY_UNAVAILABLE.
unfoldable pub fail_closed : ℕ → (ℕ → Bytes) → Tenant → Tenant
unfolding set_state purge
fail_closed now why t =
    let (t', purged) = purge t in set_state State.key_unavailable now (why purged) purged t'

-- The inner switch of the transient row.
unfoldable pub park : ℕ → Bool → Tenant → Tenant
unfolding set_state fail_closed
park now usable_now t =
    if is_active t.state && usable_now
    then set_state State.riding_through now (word Word.renewal_failed) 0 t
    else if is_active t.state && not usable_now
    then fail_closed now (λ _. if direct t then word Word.no_cache else word Word.cold_fetch) t
    else if is_riding t.state && not usable_now
    then fail_closed now lease_expired_purged t
    else t

-- The transient row up to its inner switch: the audit line, the attempt, the next probe, and every
-- pending warm moved to the same slot.
unfoldable pub note_failure : Config → ℕ → ℕ → Op → Outcome → Tenant → Tenant
unfolding audit call_line postpone
note_failure c now u op r t =
    let line = call_line now t op Word.error (cause_of r.err) 0 r.class r.latency in
    let at = now + backoff (t.attempt + 1) c.backoff_min c.backoff_max c.backoff_jitter u in
    record (audit line t) {
      attempt = t.attempt + 1;
      next_probe_at = at;
      pending = postpone at t.pending;
    }

unfoldable pub apply_transient : Config → ℕ → ℕ → Op → Outcome → Tenant → Tenant
apply_transient c now u op r t =
    park now (usable t.lease now && not (direct t)) (note_failure c now u op r t)

-- The switch on the class.
unfoldable pub apply_class : Class → Config → ℕ → ℕ → Op → Option Dek → Outcome → Tenant → Tenant
apply_class Class.ok c now u op (some d) r t = apply_ok now op d r t
apply_class Class.ok c now u op none r t = t
apply_class Class.deny c now u op d r t = apply_deny c now op r t
apply_class Class.transient c now u op d r t = apply_transient c now u op r t
apply_class Class.poison c now u op d r t = apply_transient c now u op r t

unfoldable pub apply : Config → ℕ → ℕ → Op → Option Dek → Outcome → Tenant → Tenant
unfolding apply_unclassified apply_class
apply c now u op d r t =
    if has r.err Sentinel.busy || has r.err Sentinel.store
    then apply_unclassified c now op d t
    else apply_class r.class c now u op d r t
