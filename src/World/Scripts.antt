-- ===== src/World/Scripts.antt =====
-- internal/world/scenarios.go: what the eight scenarios do to a World. The texts, the peaks and the
-- readings that only a summary line shows are left out.
pub mod Covers
pub mod Restores
pub mod Leaving
pub mod Fresh
use cmek.Base.{
  set_at, ℕ, zero, suc, ◌+◌, ◌-◌, ◌*◌, ◌/◌, ◌<◌, Bytes, codes, same, List, [], ◌∷◌, ◌++◌, length,
  map, take, Bool, true, false, ltb, ◌&&◌, if◌then◌else◌,
}
use cmek.Base.Int.{ℤ, pos, negsuc}
use cmek.Kms.Fake.{revoke, restore}
use cmek.World.Params.{Params}
use cmek.World.Switches.{Plant, Knobs, FaultRequest, provider_of, kek_of, nth, inject, set_cache}

-- One thing that a phase or an exit does.
pub data Switch : Type 0 where
  multiplies : (idx x : ℕ) → Switch
  multiplies_all : (x : ℕ) → Switch
  injects : FaultRequest → Switch
  caches : Bytes → Bool → Switch
  revokes : (idx : ℕ) → Switch
  restores : (idx : ℕ) → Switch

-- Does it, at the key service's clock `at`.
unfoldable pub flip_switch : Plant → ℕ → Switch → Knobs → Knobs
unfolding inject set_cache revoke restore kek_of
flip_switch w at (Switch.multiplies i x) k = record k { mult = set_at i x k.mult }
flip_switch w at (Switch.multiplies_all x) k = record k { global = x }
flip_switch w at (Switch.injects f) k = inject w f k
flip_switch w at (Switch.caches p on) k = set_cache w p on k
flip_switch w at (Switch.revokes i) k = record k { kms = revoke (kek_of w i) at k.kms }
flip_switch w at (Switch.restores i) k = record k { kms = restore (kek_of w i) at k.kms }

unfoldable pub flip_all : Plant → ℕ → List Switch → Knobs → Knobs
unfolding flip_switch
flip_all w at [] k = k
flip_all w at (x ∷ xs) k = flip_all w at xs (flip_switch w at x k)

-- What each phase does when it is entered, and what the exit does.
pub record Script : Type 0 where
  pub targets : List ℕ
  pub phases : List (List Switch)
  pub exit : List Switch

unfoldable pub enter_all : Plant → ℕ → List (List Switch) → Knobs → Knobs
unfolding flip_all
enter_all w at [] k = k
enter_all w at (p ∷ ps) k = enter_all w at ps (flip_all w at p k)

-- A run that has entered its first `n` phases when it ends, by itself or by a stop.
unfoldable pub run_script : Plant → ℕ → Script → ℕ → Knobs → Knobs
unfolding flip_all enter_all
run_script w at s n k = flip_all w at s.exit (enter_all w at (take n s.phases) k)

abbrev pub one : ℕ
one = 1_000_000

-- The grid index of a rank, kept within the population.
unfoldable pub at_rank : Plant → ℕ → ℕ
at_rank w r =
    let n = length w.by_rank in
    let low = if ltb r 1 then 1 else r in
    let rank = if ltb n low then n else low in pick (rank - 1) w.by_rank
  where
    pick : ℕ → List ℕ → ℕ
    pick i [] = 0
    pick zero (x ∷ xs) = x
    pick (suc i) (x ∷ xs) = pick i xs

-- `band`.
unfoldable pub band_from : Plant → Bytes → ℕ → List Bytes → List ℕ
unfolding provider_of
band_from w provider i [] = []
band_from w provider i (x ∷ xs) =
    let rest = band_from w provider (suc i) xs in
    if same (provider_of w i) provider then i ∷ rest else rest

abbrev pub band : Plant → Bytes → List ℕ
band w provider = band_from w provider 0 w.ids

abbrev pub request : Bytes → Bytes → ℕ → ℕ → FaultRequest
request provider mode p50 p99 = record {
  provider = provider;
  tenant = [];
  mode = mode;
  latency_p50_ms = pos (p50 / 1_000_000);
  latency_p99_ms = pos (p99 / 1_000_000);
  error_rate = pos 0;
}

-- `latencyAll`.
unfoldable pub latency_all : Plant → Bool → List Switch
latency_all w on =
    let p = w.params in
    map
      (λ prov. Switch.injects (
        request prov [] (if on then p.no_cache_kms_p50 else 0)
          (if on then p.no_cache_kms_p99 else 0)))
      p.providers

-- `withLatency`.
abbrev with_latency : Plant → Bytes → Bytes → Switch
with_latency w prov mode =
    Switch.injects (request prov mode w.params.no_cache_kms_p50 w.params.no_cache_kms_p99)

pub data Name : Type 0 where
  tenant_surge global_surge provider_blip provider_outage slow_kms : Name
  no_cache no_cache_surge key_revocation : Name

abbrev outage_script : Plant → Script
outage_script w =
    let p = w.params in
    record {
      targets = band w p.outage_provider;
      phases = (Switch.injects (request p.outage_provider (codes "fast_fail") 0 0) ∷ []) ∷ [];
      exit = Switch.injects (request p.outage_provider (codes "ok") 0 0) ∷ [];
    }

abbrev heaviest : Plant → List ℕ
heaviest w = take w.params.global_surge_affected_top w.by_rank

abbrev tenant_surge_script : Plant → Script
tenant_surge_script w =
    let i = at_rank w w.params.surge_tenant_rank in
    record {
      targets = i ∷ [];
      phases = (Switch.multiplies i w.params.tenant_surge_mult ∷ []) ∷ [];
      exit = Switch.multiplies i one ∷ [];
    }

abbrev global_surge_script : Plant → Script
global_surge_script w = record {
  targets = heaviest w;
  phases = (Switch.multiplies_all w.params.global_surge_mult ∷ []) ∷ [];
  exit = Switch.multiplies_all one ∷ [];
}

abbrev slow_kms_script : Plant → Script
slow_kms_script w =
    let p = w.params in
    record {
      targets = band w p.slow_provider;
      phases = (Switch.injects (request p.slow_provider [] p.slow_p50 p.slow_p99) ∷ []) ∷ [];
      exit = Switch.injects (request p.slow_provider (codes "ok") 0 0) ∷ [];
    }

abbrev no_cache_script : Plant → Script
no_cache_script w =
    let prov = w.params.no_cache_provider in
    record {
      targets = band w prov;
      phases =
          (latency_all w true ++ Switch.caches prov false ∷ [])
          ∷ (with_latency w prov (codes "fast_fail") ∷ [])
          ∷ (with_latency w prov (codes "ok") ∷ [])
          ∷ [];
      exit = Switch.caches prov true ∷ latency_all w false;
    }

abbrev no_cache_surge_script : Plant → Script
no_cache_surge_script w = record {
  targets = heaviest w;
  phases =
      (latency_all w true ++ Switch.caches [] false ∷ [])
      ∷ (Switch.multiplies_all w.params.global_surge_mult ∷ [])
      ∷ (Switch.multiplies_all one ∷ [])
      ∷ [];
  exit = Switch.multiplies_all one ∷ Switch.caches [] true ∷ latency_all w false;
}

abbrev key_revocation_script : Plant → Script
key_revocation_script w =
    let i = at_rank w w.params.revoke_tenant_rank in
    record {
      targets = i ∷ [];
      phases = (Switch.revokes i ∷ []) ∷ [];
      exit = Switch.restores i ∷ [];
    }

-- The scripts of `newScenarios`.
unfoldable pub script : Plant → Name → Script
unfolding latency_all at_rank band_from
script w Name.tenant_surge = tenant_surge_script w
script w Name.global_surge = global_surge_script w
script w Name.provider_blip = outage_script w
script w Name.provider_outage = outage_script w
script w Name.slow_kms = slow_kms_script w
script w Name.no_cache = no_cache_script w
script w Name.no_cache_surge = no_cache_surge_script w
script w Name.key_revocation = key_revocation_script w
