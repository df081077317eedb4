-- ===== src/World/Switches.antt =====
-- internal/world/world.go: the switches of a World (Fault, Surge, SetKey, SetCache, SetFetch) on
-- what they set: the offered rates, the fake key service, and each tenant's key-fetch design.
-- A multiplier counts parts of a million.
use cmek.Base.{
  set_at, ℕ, zero, suc, ◌*◌, ◌/◌, Bytes, codes, same, List, [], ◌∷◌, ◌++◌, length, Option, none,
  some, Bool, true, false, ltb, not, ◌==◌, ◌&&◌, ◌||◌, if◌then◌else◌,
}
use cmek.Base.Int.{ℤ, pos}
use cmek.Kms.Fault.{Mode, Fault, Scope}
use cmek.Kms.Fake.{Fake, set_fault, revoke, restore}
use cmek.Core.Types.{Fetch}
use cmek.World.Params.{Params}

-- A built World: its settings, the tenants' names, and the shuffled ranks, heaviest first.
pub record Plant : Type 0 where
  pub params : Params
  pub ids : List Bytes
  pub by_rank : List ℕ

-- What the switches set.
pub record Knobs : Type 0 where
  pub mult : ℕ → ℕ
  pub global : ℕ
  pub kms : Fake
  pub fetch : ℕ → Fetch

abbrev pub nth : Bytes → List Bytes → ℕ → Bytes
nth z [] i = z
nth z (x ∷ xs) zero = x
nth z (x ∷ xs) (suc i) = nth z xs i

-- The provider of a grid index: contiguous bands.
unfoldable pub provider_of : Plant → ℕ → Bytes
provider_of w i = nth [] w.params.providers (i * length w.params.providers / w.params.tenants)

-- `w.specs[i].KEKID`.
unfoldable pub kek_of : Plant → ℕ → Bytes
kek_of w i = codes "kek-" ++ nth [] w.ids i

-- `w.index[tenant]`.
unfoldable pub find_from : ℕ → Bytes → List Bytes → Option ℕ
find_from i name [] = none
find_from i name (x ∷ xs) = if same x name then some i else find_from (suc i) name xs

abbrev pub index_of : Plant → Bytes → Option ℕ
index_of w name = find_from 0 name w.ids

unfoldable pub is_known : Bytes → List Bytes → Bool
is_known p [] = false
is_known p (q ∷ ps) = same q p || is_known p ps

-- `FaultRequest`; an error rate counts parts of a million.
pub record FaultRequest : Type 0 where
  pub provider : Bytes
  pub tenant : Bytes
  pub mode : Bytes
  pub latency_p50_ms : ℤ
  pub latency_p99_ms : ℤ
  pub error_rate : ℤ

-- A value, `ErrBadFault` or `ErrUnknownTenant`.
pub data Checked {ℓ} (A : Type ℓ) : Type ℓ where
  fine : A → Checked A
  bad_fault : Checked A
  unknown_tenant : Checked A

abbrev pub is_empty : Bytes → Bool
is_empty [] = true
is_empty (b ∷ bs) = false

abbrev key_scope : Plant → Option ℕ → Checked Scope
key_scope w none = Checked.unknown_tenant
key_scope w (some i) = Checked.fine (record { provider = []; kek_id = kek_of w i })

unfoldable pub fault_scope : Plant → FaultRequest → Checked Scope
unfolding is_known find_from kek_of
fault_scope w f =
    if not (is_empty f.provider) && not (is_empty f.tenant)
    then Checked.bad_fault
    else if not (is_empty f.provider)
    then if is_known f.provider w.params.providers
      then Checked.fine (record { provider = f.provider; kek_id = [] })
      else Checked.bad_fault
    else if not (is_empty f.tenant)
    then key_scope w (index_of w f.tenant)
    else Checked.bad_fault

unfoldable pub fault_mode : Bytes → Checked Mode
fault_mode mode =
    if is_empty mode || same mode (codes "ok")
    then Checked.fine Mode.mode_ok
    else if same mode (codes "fast_fail")
    then Checked.fine Mode.fast_fail
    else Checked.bad_fault

-- The checks of the latencies and the error rate, and the fault that passes them.
unfoldable pub fault_level : Mode → ℤ → ℤ → ℤ → Checked Fault
fault_level mode (pos p50) (pos p99) (pos rate) =
    let tail = if ltb 0 p50 && p99 == 0 then p50 else p99 in
    if ltb 1_000_000 rate
    then Checked.bad_fault
    else if ltb 0 p99 && p50 == 0
    then Checked.bad_fault
    else if ltb tail p50
    then Checked.bad_fault
    else Checked.fine
        (record { mode = mode; p50 = p50 * 1_000_000; p99 = tail * 1_000_000; error_rate = rate })
fault_level mode _ _ _ = Checked.bad_fault

module _ {ℓ κ} {A : Type ℓ} {B : Type κ} where
  infixl 5 ◌>>=◌
  abbrev pub ◌>>=◌ : Checked A → (A → Checked B) → Checked B
  Checked.fine a >>= f = f a
  Checked.bad_fault >>= f = Checked.bad_fault
  Checked.unknown_tenant >>= f = Checked.unknown_tenant

-- The fault of a request, whatever its scope.
unfoldable pub fault_for : FaultRequest → Checked Fault
unfolding fault_mode fault_level
fault_for f =
    fault_mode f.mode >>= λ mode. fault_level mode f.latency_p50_ms f.latency_p99_ms f.error_rate

abbrev pub install_fault : Scope → Knobs → Checked Fault → Knobs
install_fault scope k (Checked.fine fault) = record k { kms = set_fault scope fault k.kms }
install_fault scope k Checked.bad_fault = k
install_fault scope k Checked.unknown_tenant = k

abbrev pub install_at : Checked Scope → Checked Fault → Knobs → Knobs
install_at (Checked.fine scope) fault k = install_fault scope k fault
install_at Checked.bad_fault fault k = k
install_at Checked.unknown_tenant fault k = k

-- `Fault`.
unfoldable pub inject : Plant → FaultRequest → Knobs → Knobs
unfolding fault_scope fault_for set_fault
inject w f k = install_at (fault_scope w f) (fault_for f) k

-- `Surge`.
abbrev pub surge_one : ℕ → Knobs → Option ℕ → Checked (Unit {0}) × Knobs
surge_one x k none = (Checked.unknown_tenant, k)
surge_one x k (some i) = (Checked.fine tt, record k { mult = set_at i x k.mult })

unfoldable pub surge_rate : Plant → Bytes → ℕ → Knobs → Checked (Unit {0}) × Knobs
surge_rate w tenant x k =
    if is_empty tenant
    then (Checked.fine tt, record k { global = x })
    else surge_one x k (index_of w tenant)

-- `SetKey` at the key service's clock `at`, without the signal to a running scenario.
abbrev pub turn_key : Plant → ℕ → Bytes → Knobs → Option ℕ → Checked (Unit {0}) × Knobs
turn_key w at action k none = (Checked.unknown_tenant, k)
turn_key w at action k (some i) =
    if same action (codes "revoke")
    then (Checked.fine tt, record k { kms = revoke (kek_of w i) at k.kms })
    else if same action (codes "restore")
    then (Checked.fine tt, record k { kms = restore (kek_of w i) at k.kms })
    else (Checked.bad_fault, k)

unfoldable pub set_key : Plant → ℕ → Bytes → Bytes → Knobs → Checked (Unit {0}) × Knobs
unfolding kek_of revoke restore
set_key w at tenant action k = turn_key w at action k (index_of w tenant)

abbrev pub is_in : Plant → Bytes → ℕ → Bool
is_in w provider i = is_empty provider || same (provider_of w i) provider

-- `SetCache`: the design that each tenant concerned is told.
unfoldable pub set_cache : Plant → Bytes → Bool → Knobs → Knobs
unfolding is_known provider_of
set_cache w provider on k =
    if is_empty provider || is_known provider w.params.providers
    then record k {
      fetch = λ i.
          if is_in w provider i
          then (if on then Fetch.async else Fetch.pass_through)
          else k.fetch i;
    }
    else k

abbrev pub design : Bytes → Checked Fetch
design mode =
    if same mode (codes "async")
    then Checked.fine Fetch.async
    else if same mode (codes "sync")
    then Checked.fine Fetch.sync
    else if same mode (codes "naive")
    then Checked.fine Fetch.naive
    else Checked.bad_fault

-- `SetFetch`.
abbrev pub tell_all : Knobs → Checked Fetch → Checked (Unit {0}) × Knobs
tell_all k (Checked.fine f) = (Checked.fine tt, record k { fetch = λ i. f })
tell_all k _ = (Checked.bad_fault, k)

unfoldable pub set_fetch_all : Bytes → Knobs → Checked (Unit {0}) × Knobs
set_fetch_all mode k = tell_all k (design mode)
