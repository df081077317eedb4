-- ===== src/Core/Types.antt =====
-- internal/cmek/types.go and the data of lease.go and fetcher.go. A Tink primitive is known by a
-- number that nothing looks inside, and a Go map by an association list.
use cmek.Base.{ℕ, ◌*◌, Bytes, Map, List, Option, Bool, false, codes, ltb, if◌then◌else◌}
use cmek.Kms.Errors.{GoErr}
use cmek.Core.Lease.{Lease}

pub data State : Type 0 where
  active riding_through key_unavailable revoked : State

unfoldable pub state_text : State → Bytes
state_text State.active = codes "ACTIVE"
state_text State.riding_through = codes "RIDING_THROUGH"
state_text State.key_unavailable = codes "KEY_UNAVAILABLE"
state_text State.revoked = codes "REVOKED"

pub data Class : Type 0 where
  ok transient deny poison : Class

-- What the caller of the core is told when it gets no handle. `other` carries an error as it is.
pub data Refusal : Type 0 where
  key_unavailable key_revoked lease_expired dek_cold poison : Refusal
  other : GoErr → Refusal

pub data Result {ℓ} (A : Type ℓ) : Type ℓ where
  ok : A → Result A
  err : Refusal → Result A

pub record Envelope : Type 0 where
  pub dek_id : Bytes
  pub ciphertext : Bytes

pub record Handle : Type 0 where
  pub dek_id : Bytes
  pub valid_until : ℕ
  pub prim : Option ℕ

-- `Zero`.
unfoldable pub zero_handle : Handle → Handle
zero_handle h = record h { prim = Option.none }

pub record WrappedDek : Type 0 where
  pub id : Bytes
  pub tenant : Bytes
  pub kek_id : Bytes
  pub kek_version : ℕ
  pub wrapped : Bytes
  pub created_at : ℕ

pub record Audit : Type 0 where
  pub at : ℕ
  pub tenant : Bytes
  pub op : Bytes
  pub outcome : Bytes
  pub detail : Bytes
  pub kek_version : ℕ
  pub class : Class
  pub from : State
  pub to : State
  pub latency : ℕ
  pub purged : ℕ

-- The lease parameters of `Config`; its other fields are what the functions take as arguments.
pub record Config : Type 0 where
  pub lease : ℕ
  pub soft_ttl : ℕ
  pub early_expiry : ℕ
  pub kms_timeout : ℕ
  pub backoff_min : ℕ
  pub backoff_max : ℕ
  pub revoked_reprobe : ℕ
  pub dek_max_age : ℕ
  pub sweep_interval : ℕ
  pub backoff_jitter : ℕ
  pub dek_max_messages : ℕ
  pub provider_inflight : ℕ
  pub tenant_inflight : ℕ
  pub ingest_waiters : ℕ

-- `dek`: `prim` is `none` while the key is cold.
pub record Dek : Type 0 where
  pub id : Bytes
  pub wrapped : Bytes
  pub kek_version : ℕ
  pub prim : Option ℕ
  pub msgs : ℕ
  pub created_at : ℕ
  pub hot_since : ℕ

pub data Fetch : Type 0 where
  async sync pass_through naive : Fetch

-- `tenant`, with its entry of the grid array `states` and the lines that the auditor has had from
-- it, the newest first. `active` is the id of the active data key: the pointer is always one of
-- those that `deks` holds.
pub record Tenant : Type 0 where
  pub idx : ℕ
  pub id : Bytes
  pub provider : Bytes
  pub kek_id : Bytes
  pub seq : ℕ
  pub state : State
  pub lease : Lease
  pub deks : Map Dek
  pub active : Option Bytes
  pub attempt : ℕ
  pub next_probe_at : ℕ
  pub denied_at : ℕ
  pub probing : Bool
  pub pending : Map ℕ
  pub waiters : ℕ
  pub inflight : ℕ
  pub fetch : Fetch
  pub published : State
  pub audits : List Audit

-- `result`: one outcome of a key-service call. The class of an error that is none of its own is
-- the zero class, `ok`.
pub record Outcome : Type 0 where
  pub sent_at : ℕ
  pub class : Class
  pub err : Option GoErr
  pub prim : Option ℕ
  pub wrapped : Bytes
  pub latency : ℕ

pub data Op : Type 0 where
  unwrap generate warm : Op

abbrev second : ℕ
second = 1_000_000_000

abbrev or_default : ℕ → ℕ → ℕ
or_default n d = if ltb 0 n then n else d

-- The defaults of `New`.
unfoldable pub with_defaults : Config → Config
with_defaults c = record c {
  lease = or_default c.lease (30 * second);
  soft_ttl = or_default c.soft_ttl (15 * second);
  early_expiry = or_default c.early_expiry second;
  kms_timeout = or_default c.kms_timeout 500_000_000;
  backoff_min = or_default c.backoff_min 500_000_000;
  backoff_max = or_default c.backoff_max (8 * second);
  revoked_reprobe = or_default c.revoked_reprobe (5 * second);
  dek_max_age = or_default c.dek_max_age (600 * second);
  sweep_interval = or_default c.sweep_interval 250_000_000;
  dek_max_messages = or_default c.dek_max_messages 10000;
  provider_inflight = or_default c.provider_inflight 32;
  ingest_waiters = or_default c.ingest_waiters 4;
}

-- A tenant as `New` makes it.
unfoldable pub new_tenant : Config → ℕ → Bytes → Bytes → Bytes → Tenant
new_tenant c idx id provider kek_id = record {
  idx = idx;
  id = id;
  provider = provider;
  kek_id = kek_id;
  seq = 0;
  state = State.active;
  lease = record { sent_at = 0; ttl = c.lease; soft_ttl = c.soft_ttl; early = c.early_expiry };
  deks = List.[];
  active = Option.none;
  attempt = 0;
  next_probe_at = 0;
  denied_at = 0;
  probing = false;
  pending = List.[];
  waiters = 0;
  inflight = 0;
  fetch = Fetch.async;
  published = State.active;
  audits = List.[];
}
