-- ===== src/World/Params.antt =====
-- internal/world/params.go: the settings of a World. Durations are nanoseconds, and a float counts
-- parts of a million.
use cmek.Base.{ℕ, Bytes, codes, same, List, [], ◌∷◌, Bool, true, false, ◌||◌}
use cmek.World.Ingest.{RetryAfter}

pub record Params : Type 0 where
  pub tenants : ℕ
  pub providers : List Bytes
  pub seed : ℕ
  pub lease : ℕ
  pub soft_ttl : ℕ
  pub early_expiry : ℕ
  pub kms_timeout : ℕ
  pub backoff_min : ℕ
  pub backoff_max : ℕ
  pub backoff_jitter : ℕ
  pub revoked_reprobe : ℕ
  pub dek_max_messages : ℕ
  pub dek_max_age : ℕ
  pub provider_inflight : ℕ
  pub tenant_inflight : ℕ
  pub ingest_waiters : ℕ
  pub sweep_interval : ℕ
  pub workers : ℕ
  pub claim_batch : ℕ
  pub claim_timeout : ℕ
  pub reclaim_interval : ℕ
  pub idle_poll : ℕ
  pub two_class_sched : Bool
  pub sched_light_turns : ℕ
  pub db_dir : Bytes
  pub sync_mode : Bytes
  pub wal_autocheckpoint : ℕ
  pub sink_latency_min : ℕ
  pub sink_latency_max : ℕ
  pub sink_ring : ℕ
  pub base_rate : ℕ
  pub zipf_exponent : ℕ
  pub payload_bytes : ℕ
  pub canary_prefix : Bytes
  pub snapshot_interval : ℕ
  pub audit_ring : ℕ
  pub timeline_ring : ℕ
  pub snapshot_events : ℕ
  pub viewer_queue : ℕ
  pub tenant_rate : ℕ
  pub tenant_burst : ℕ
  pub tenant_backlog_cap : ℕ
  pub global_backlog_cap : ℕ
  pub fair_share : Bool
  pub retry_after : RetryAfter
  pub surge_tenant_rank : ℕ
  pub tenant_surge_mult : ℕ
  pub tenant_surge_for : ℕ
  pub global_surge_mult : ℕ
  pub global_surge_for : ℕ
  pub global_surge_affected_top : ℕ
  pub scenario_tail_min : ℕ
  pub scenario_tail_max : ℕ
  pub outage_blip : ℕ
  pub outage_long : ℕ
  pub outage_provider : Bytes
  pub slow_provider : Bytes
  pub slow_p50 : ℕ
  pub slow_p99 : ℕ
  pub slow_for : ℕ
  pub revoke_tenant_rank : ℕ
  pub no_cache_provider : Bytes
  pub no_cache_for : ℕ
  pub no_cache_blip : ℕ
  pub no_cache_after : ℕ
  pub no_cache_kms_p50 : ℕ
  pub no_cache_kms_p99 : ℕ
  pub no_cache_surge_lead : ℕ
  pub no_cache_surge_for : ℕ
  pub no_cache_surge_after : ℕ
  pub chart_window : ℕ
  pub p99_window : ℕ
  pub baseline_ticks : ℕ
  pub l1_ratio : ℕ
  pub l1_floor : ℕ
  pub l1_grace : ℕ
  pub l1_for : ℕ
  pub l4_capacity_factor : ℕ
  pub l4_settle : ℕ
  pub timeline_aggregate_min : ℕ
  pub check_interval : ℕ
  pub canary_full_scan : ℕ
  pub lights : List Bytes
  pub capacity : ℕ
  pub retention : ℕ
  pub expire_interval : ℕ
  pub expire_limit : ℕ
  pub stream_max_age : ℕ
  pub stream_write_timeout : ℕ
  pub idle_rebuild : ℕ
  pub stop_timeout : ℕ

-- `Judges`.
unfoldable pub judges_among : Bytes → List Bytes → Bool
judges_among light [] = false
judges_among light (l ∷ lights) = same l light || judges_among light lights

abbrev pub judges : Bytes → Params → Bool
judges light p = judges_among light p.lights

-- `Demo`.
abbrev pub demo_params : Params
demo_params = record {
  tenants = 1_000;
  providers = codes "aws" ∷ codes "gcp" ∷ codes "azure" ∷ [];
  seed = 1;
  lease = 30_000_000_000;
  soft_ttl = 15_000_000_000;
  early_expiry = 1_000_000_000;
  kms_timeout = 500_000_000;
  backoff_min = 500_000_000;
  backoff_max = 8_000_000_000;
  backoff_jitter = 500_000;
  revoked_reprobe = 5_000_000_000;
  dek_max_messages = 10_000;
  dek_max_age = 600_000_000_000;
  provider_inflight = 32;
  tenant_inflight = 2;
  ingest_waiters = 4;
  sweep_interval = 250_000_000;
  workers = 8;
  claim_batch = 8;
  claim_timeout = 30_000_000_000;
  reclaim_interval = 1_000_000_000;
  idle_poll = 20_000_000;
  two_class_sched = true;
  sched_light_turns = 32;
  db_dir = [];
  sync_mode = codes "normal";
  wal_autocheckpoint = 4_000;
  sink_latency_min = 5_000_000;
  sink_latency_max = 20_000_000;
  sink_ring = 1_024;
  base_rate = 300_000_000;
  zipf_exponent = 1_000_000;
  payload_bytes = 1_024;
  canary_prefix = codes "PLAINTEXT-CANARY-";
  snapshot_interval = 500_000_000;
  audit_ring = 16;
  timeline_ring = 200;
  snapshot_events = 20;
  viewer_queue = 1;
  tenant_rate = 100_000_000;
  tenant_burst = 200;
  tenant_backlog_cap = 500;
  global_backlog_cap = 20_000;
  fair_share = true;
  retry_after = record { rate_limited = 1; backlog_full = 5; overloaded = 5; key_unavailable = 1 };
  surge_tenant_rank = 5;
  tenant_surge_mult = 100_000_000;
  tenant_surge_for = 60_000_000_000;
  global_surge_mult = 5_000_000;
  global_surge_for = 90_000_000_000;
  global_surge_affected_top = 150;
  scenario_tail_min = 15_000_000_000;
  scenario_tail_max = 90_000_000_000;
  outage_blip = 10_000_000_000;
  outage_long = 60_000_000_000;
  outage_provider = codes "gcp";
  slow_provider = codes "azure";
  slow_p50 = 400_000_000;
  slow_p99 = 3_000_000_000;
  slow_for = 60_000_000_000;
  revoke_tenant_rank = 3;
  no_cache_provider = codes "gcp";
  no_cache_for = 30_000_000_000;
  no_cache_blip = 10_000_000_000;
  no_cache_after = 15_000_000_000;
  no_cache_kms_p50 = 20_000_000;
  no_cache_kms_p99 = 80_000_000;
  no_cache_surge_lead = 15_000_000_000;
  no_cache_surge_for = 60_000_000_000;
  no_cache_surge_after = 15_000_000_000;
  chart_window = 120_000_000_000;
  p99_window = 10;
  baseline_ticks = 20;
  l1_ratio = 1_250_000;
  l1_floor = 25_000_000;
  l1_grace = 7_000_000_000;
  l1_for = 3_000_000_000;
  l4_capacity_factor = 900_000;
  l4_settle = 7_000_000_000;
  timeline_aggregate_min = 3;
  check_interval = 1_000_000_000;
  canary_full_scan = 5_000_000_000;
  lights = codes "S1" ∷ codes "S2" ∷ codes "S3" ∷ codes "S4" ∷ codes "L1" ∷ codes "L4" ∷ [];
  capacity = 620_000_000;
  retention = 600_000_000_000;
  expire_interval = 5_000_000_000;
  expire_limit = 1_000;
  stream_max_age = 3_300_000_000_000;
  stream_write_timeout = 5_000_000_000;
  idle_rebuild = 10_000_000_000;
  stop_timeout = 2_000_000_000;
}

-- `Small`.
abbrev pub small_params : Params
small_params = record demo_params { tenants = 20; workers = 2; base_rate = 20_000_000 }
