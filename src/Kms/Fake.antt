-- ===== src/Kms/Fake.antt =====
-- internal/kms/fake.go and truth.go: the provider with injected faults and its ground-truth log.
-- A call reads the provider's state twice, before and after its latency. The draw of the random
-- source, the latency's outcome and the Tink primitives are arguments.
use cmek.Base.{
  ℕ, Bytes, codes, same, Map, lookup, insert, delete, List, [], ◌∷◌, ◌++◌, Option, none, some, Bool,
  true, false, ltb, ◌&&◌, ◌||◌, if◌then◌else◌,
}
use cmek.Kms.Errors.{Code, KmsError}
use cmek.Kms.Fault.{Fault, Scope, is_fast_fail, is_zero, no_fault, resolve}

-- `prim` identifies the Tink primitive; nothing looks inside it.
pub record Kek : Type 0 where
  pub prim : ℕ
  pub provider : Bytes
  pub idx : ℕ
  pub enabled : Bool

pub record KeyEvent : Type 0 where
  pub kek_id : Bytes
  pub idx : ℕ
  pub at : ℕ
  pub enabled : Bool

pub record Fake : Type 0 where
  pub keks : Map Kek
  pub prov_faults : Map Fault
  pub kek_faults : Map Fault
  pub truth : List KeyEvent

-- How the wait for the drawn latency ended: it passed, or the caller's context was done first.
pub data Wait : Type 0 where
  elapsed cancelled : Wait

pub data Answer {ℓ} (A : Type ℓ) : Type ℓ where
  ok : A → Answer A
  failed : KmsError → Answer A
  gave_up : Answer A

-- `m[key]` of a Go map: the zero fault where the key is missing.
unfoldable pub fault_of : Bytes → Map Fault → Fault
fault_of k m = elim (lookup k m) [ none ↦ no_fault | some f ↦ f ]

abbrev pub same_bool : Bool → Bool → Bool
same_bool true b = b
same_bool false true = false
same_bool false false = true

unfoldable pub set_fault : Scope → Fault → Fake → Fake
set_fault s fault f =
    if same s.kek_id []
    then record f {
      prov_faults =
          if is_zero fault
          then delete s.provider f.prov_faults
          else insert s.provider fault f.prov_faults;
    }
    else record f {
      kek_faults =
          if is_zero fault
          then delete s.kek_id f.kek_faults
          else insert s.kek_id fault f.kek_faults;
    }

-- `flip` at the clock's reading `at`. A key that is unknown, or already in the state asked for,
-- changes nothing.
unfoldable pub flip_found : Option Kek → Bytes → Bool → ℕ → Fake → Fake
flip_found none id enabled at f = f
flip_found (some k) id enabled at f = if same_bool k.enabled enabled then f else record f {
  keks = insert id (record k { enabled = enabled }) f.keks;
  truth = f.truth ++ (record { kek_id = id; idx = k.idx; at = at; enabled = enabled } ∷ []);
}

unfoldable pub flip : Bytes → Bool → ℕ → Fake → Fake
unfolding flip_found
flip id enabled at f = flip_found (lookup id f.keks) id enabled at f

unfoldable pub revoke : Bytes → ℕ → Fake → Fake
unfolding flip
revoke id at f = flip id false at f

unfoldable pub restore : Bytes → ℕ → Fake → Fake
unfolding flip
restore id at f = flip id true at f

abbrev kms_failure {ℓ} : {A : Type ℓ} → Code → Bytes → Bytes → Answer A
kms_failure code provider msg =
    Answer.failed (record { code = code; provider = provider; msg = msg })

-- The end of `begin`: the enabled flag of the key, read after the latency.
unfoldable pub enabled_now : Kek → Bytes → Fake → Bool
enabled_now k id after = elim (lookup id after.keks) [ none ↦ k.enabled | some k' ↦ k'.enabled ]

unfoldable pub check_enabled : Kek → Bytes → Fake → Answer Kek
unfolding enabled_now
check_enabled k id after =
    if enabled_now k id after
    then Answer.ok k
    else kms_failure Code.key_disabled k.provider (id ++ codes " is disabled")

-- `begin` with the draw `u` for the error rate. `before` is the state at the first read lock and
-- `after` the one at the second. No key is ever removed from the map.
unfoldable pub begin_found : Option Kek → Bytes → ℕ → Wait → Fake → Fake → Answer Kek
unfolding check_enabled
begin_found none id u w before after =
    kms_failure Code.access_denied (codes "?") (codes "unknown key " ++ id)
begin_found (some k) id u w before after =
    let fault = resolve (fault_of k.provider before.prov_faults) (fault_of id before.kek_faults) in
    if is_fast_fail fault.mode || (ltb 0 fault.error_rate && ltb u fault.error_rate)
    then kms_failure Code.unavailable k.provider (codes "injected fault")
    else if ltb 0 fault.p50
    then (elim w [ Wait.elapsed ↦ check_enabled k id after | Wait.cancelled ↦ Answer.gave_up ])
    else check_enabled k id after

unfoldable pub begin : Bytes → ℕ → Wait → Fake → Fake → Answer Kek
unfolding begin_found
begin id u w before after = begin_found (lookup id before.keks) id u w before after

-- A Tink operation gives bytes, or an error with its text.
pub data TinkResult : Type 0 where
  bytes : Bytes → TinkResult
  refused : Bytes → TinkResult

-- The Tink primitive of a KEK.
pub record Tink : Type 0 where
  pub encrypt : ℕ → Bytes → Bytes → TinkResult
  pub decrypt : ℕ → Bytes → Bytes → TinkResult

unfoldable pub encrypt_with_context :
    Tink → Bytes → ℕ → Wait → Fake → Fake → Bytes → Bytes → Answer Bytes
unfolding begin
encrypt_with_context tink id u w before after plaintext ad = elim (begin id u w before after) [
  | Answer.ok k ↦ elim (tink.encrypt k.prim plaintext ad) [
    | TinkResult.bytes ct ↦ Answer.ok ct
    | TinkResult.refused why ↦ kms_failure Code.unavailable k.provider why
  ]
  | Answer.failed e ↦ Answer.failed e
  | Answer.gave_up ↦ Answer.gave_up
]

unfoldable pub decrypt_with_context :
    Tink → Bytes → ℕ → Wait → Fake → Fake → Bytes → Bytes → Answer Bytes
unfolding begin
decrypt_with_context tink id u w before after ciphertext ad = elim (begin id u w before after) [
  | Answer.ok k ↦ elim (tink.decrypt k.prim ciphertext ad) [
    | TinkResult.bytes pt ↦ Answer.ok pt
    | TinkResult.refused why ↦
        kms_failure Code.access_denied k.provider (codes "wrapped key does not verify")
  ]
  | Answer.failed e ↦ Answer.failed e
  | Answer.gave_up ↦ Answer.gave_up
]
