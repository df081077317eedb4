-- ===== src/Kms/Fault.antt =====
-- internal/kms/fault.go. Durations are nanoseconds and an error rate counts parts of a million.
use cmek.Base.{ℕ, Bytes, Bool, true, false, ltb, ◌==◌, ◌&&◌, if◌then◌else◌, not}

pub data Mode : Type 0 where
  mode_ok fast_fail : Mode

abbrev pub is_fast_fail : Mode → Bool
is_fast_fail Mode.mode_ok = false
is_fast_fail Mode.fast_fail = true

pub record Fault : Type 0 where
  pub mode : Mode
  pub p50 : ℕ
  pub p99 : ℕ
  pub error_rate : ℕ

abbrev pub no_fault : Fault
no_fault = record { mode = Mode.mode_ok; p50 = 0; p99 = 0; error_rate = 0 }

unfoldable pub is_zero : Fault → Bool
is_zero f = not (is_fast_fail f.mode) && f.p50 == 0 && f.p99 == 0 && f.error_rate == 0

-- A scope with an empty `kek_id` names the provider.
pub record Scope : Type 0 where
  pub provider : Bytes
  pub kek_id : Bytes

unfoldable pub resolve : Fault → Fault → Fault
resolve prov kek = record {
  mode = if is_fast_fail kek.mode then kek.mode else prov.mode;
  p50 = if ltb 0 kek.p50 then kek.p50 else prov.p50;
  p99 = if ltb 0 kek.p99 then kek.p99 else prov.p99;
  error_rate = if ltb 0 kek.error_rate then kek.error_rate else prov.error_rate;
}
