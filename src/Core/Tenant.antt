-- ===== src/Core/Tenant.antt =====
-- internal/cmek/lease.go and fetcher.go: the small operations on one tenant, each under its lock.
use cmek.Base.{
  ℕ, ◌+◌, Bytes, Map, lookup, [], ◌∷◌, Option, none, some, Bool, true, false, same, ltb, leb, ◌&&◌,
  ◌||◌, if◌then◌else◌, is_some, not,
}
use cmek.Core.Types.{State, Class, Audit, Config, Dek, Fetch, Tenant}
use cmek.Core.Texts.{Word, word, transition_text}

abbrev pub is_active : State → Bool
is_active State.active = true
is_active _ = false

abbrev pub is_riding : State → Bool
is_riding State.riding_through = true
is_riding _ = false

abbrev pub is_unavailable : State → Bool
is_unavailable State.key_unavailable = true
is_unavailable _ = false

abbrev pub is_revoked : State → Bool
is_revoked State.revoked = true
is_revoked _ = false

abbrev pub is_sync : Fetch → Bool
is_sync Fetch.sync = true
is_sync _ = false

abbrev pub is_naive : Fetch → Bool
is_naive Fetch.naive = true
is_naive _ = false

abbrev pub is_direct : Fetch → Bool
is_direct Fetch.pass_through = true
is_direct Fetch.naive = true
is_direct _ = false

unfoldable pub direct : Tenant → Bool
direct t = is_direct t.fetch

unfoldable pub hot_deks : Map Dek → ℕ
hot_deks [] = 0
hot_deks ((k, d) ∷ m) = (if is_some d.prim then 1 else 0) + hot_deks m

unfoldable pub hot : Tenant → ℕ
unfolding hot_deks
hot t = hot_deks t.deks

-- `purge`'s loop over the data keys.
unfoldable pub cool_deks : Map Dek → Map Dek
cool_deks [] = []
cool_deks ((k, d) ∷ m) = (k, record d { prim = none }) ∷ cool_deks m

unfoldable pub purge : Tenant → Tenant × ℕ
unfolding cool_deks hot_deks
purge t = (record t { deks = cool_deks t.deks; pending = [] }, hot_deks t.deks)

-- A write through a `*dek`: the entry of that id, if the map holds it.
unfoldable pub update_dek : Bytes → (Dek → Dek) → Map Dek → Map Dek
update_dek id f [] = []
update_dek id f ((k, d) ∷ m) = if same k id then (k, f d) ∷ m else (k, d) ∷ update_dek id f m

unfoldable pub active_dek : Tenant → Option Dek
active_dek t = elim t.active [ none ↦ none | some id ↦ lookup id t.deks ]

unfoldable pub exhausted : Config → Dek → ℕ → Bool
exhausted c d now = leb c.dek_max_messages d.msgs || leb (d.created_at + c.dek_max_age) now

unfoldable pub audit : Audit → Tenant → Tenant
audit a t = record t { audits = a ∷ t.audits }

unfoldable pub set_state : State → ℕ → Bytes → ℕ → Tenant → Tenant
unfolding audit
set_state to now why purged t =
    audit
      (record {
        at = now;
        tenant = t.id;
        op = word Word.state;
        outcome = transition_text t.state to;
        detail = why;
        kek_version = 0;
        class = Class.ok;
        from = t.state;
        to = to;
        latency = 0;
        purged = purged;
      })
      (record t { state = to; published = to })

unfoldable pub purge_line : ℕ → Tenant → Word → Bytes → ℕ → Audit
purge_line now t outcome detail purged = record {
  at = now;
  tenant = t.id;
  op = word Word.purge;
  outcome = word outcome;
  detail = detail;
  kek_version = 0;
  class = Class.ok;
  from = State.active;
  to = State.active;
  latency = 0;
  purged = purged;
}

abbrev same_fetch : Fetch → Fetch → Bool
same_fetch Fetch.async Fetch.async = true
same_fetch Fetch.sync Fetch.sync = true
same_fetch Fetch.pass_through Fetch.pass_through = true
same_fetch Fetch.naive Fetch.naive = true
same_fetch _ _ = false

-- The purge of `SetFetch` and its audit line.
unfoldable pub cache_off : ℕ → Tenant → Tenant
unfolding purge audit purge_line
cache_off now t =
    let (t', purged) = purge t in
    if ltb 0 purged
    then audit (purge_line now t Word.cache_off (word Word.per_request) purged) t'
    else t'

-- `SetFetch` on a known tenant.
unfoldable pub set_fetch : Fetch → ℕ → Tenant → Tenant
unfolding cache_off
set_fetch mode now t =
    if same_fetch t.fetch mode
    then t
    else if is_direct mode && not (is_direct t.fetch)
    then cache_off now (record t { fetch = mode })
    else record t { fetch = mode }

unfoldable pub set_pass_through : Bool → ℕ → Tenant → Tenant
unfolding set_fetch
set_pass_through on now t =
    if on then set_fetch Fetch.pass_through now t else set_fetch Fetch.async now t

unfoldable pub set_naive : Bool → ℕ → Tenant → Tenant
unfolding set_fetch
set_naive on now t = if on then set_fetch Fetch.naive now t else set_fetch Fetch.async now t
