-- ===== src/Metrics/Counters.antt =====
-- `Ingest` of internal/metrics/registry.go and the counters that it moves.
use cmek.Base.{ℕ, suc, Bytes, codes, same, Bool, true, false, ltb, not, ◌&&◌, if◌then◌else◌}

-- The ingest reasons, in the order of the counters.
pub data Reason : Type 0 where
  accepted rate_limited backlog_full overloaded key_unavailable key_revoked internal : Reason

unfoldable pub reason_index : Bytes → Reason
reason_index r =
    if same r (codes "accepted")
    then Reason.accepted
    else if same r (codes "rate_limited")
    then Reason.rate_limited
    else if same r (codes "backlog_full")
    then Reason.backlog_full
    else if same r (codes "overloaded")
    then Reason.overloaded
    else if same r (codes "key_unavailable")
    then Reason.key_unavailable
    else if same r (codes "key_revoked")
    then Reason.key_revoked
    else Reason.internal

pub record Counters : Type 0 where
  pub accepted : ℕ
  pub rate_limited : ℕ
  pub backlog_full : ℕ
  pub overloaded : ℕ
  pub key_unavailable : ℕ
  pub key_revoked : ℕ
  pub internal : ℕ
  pub rej_within : ℕ
  pub rej_over : ℕ
  pub over_within : ℕ
  pub healthy_rej : ℕ

-- `r.ingest[i].Add(1)`.
unfoldable pub bump : Reason → Counters → Counters
bump Reason.accepted c = record c { accepted = suc c.accepted }
bump Reason.rate_limited c = record c { rate_limited = suc c.rate_limited }
bump Reason.backlog_full c = record c { backlog_full = suc c.backlog_full }
bump Reason.overloaded c = record c { overloaded = suc c.overloaded }
bump Reason.key_unavailable c = record c { key_unavailable = suc c.key_unavailable }
bump Reason.key_revoked c = record c { key_revoked = suc c.key_revoked }
bump Reason.internal c = record c { internal = suc c.internal }

abbrev pub is_accepted : Reason → Bool
is_accepted Reason.accepted = true
is_accepted _ = false

-- A rejection of a tenant outside the affected set.
unfoldable pub note_healthy : (ℕ → Bool) → ℕ → ℕ → Reason → Counters → Counters
note_healthy affected tenants idx r c =
    if not (is_accepted r) && ltb idx tenants && not (affected idx)
    then record c { healthy_rej = suc c.healthy_rej }
    else c

abbrev one_over : Counters → Counters
one_over c = record c { rej_over = suc c.rej_over }

abbrev one_within : Counters → Counters
one_within c = record c { rej_within = suc c.rej_within }

-- The share split, of the three admission reasons only.
unfoldable pub split_share : Bool → Reason → Counters → Counters
split_share within Reason.rate_limited c = if within then one_within c else one_over c
split_share within Reason.backlog_full c = if within then one_within c else one_over c
split_share within Reason.overloaded c =
    if within
    then record c { rej_within = suc c.rej_within; over_within = suc c.over_within }
    else one_over c
split_share within _ c = c

-- `Ingest`, for an index that is not negative.
unfoldable pub note_ingest : (ℕ → Bool) → ℕ → ℕ → Bytes → Bool → Counters → Counters
unfolding reason_index bump note_healthy split_share
note_ingest affected tenants idx reason within c =
    let r = reason_index reason in
    split_share within r (note_healthy affected tenants idx r (bump r c))
