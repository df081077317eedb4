-- ===== src/Kms/Errors.antt =====
-- internal/kms/kms.go: the error codes and the error type of a key service, and Go errors as the
-- program reads them.
use cmek.Base.{Bytes, codes, List, Option, ◌++◌, Bool, true, false, [], ◌∷◌}

pub data Code : Type 0 where
  timeout unavailable access_denied key_disabled : Code

-- The text of a code that is none of the four, "Unknown", has no code here.
unfoldable pub code_text : Code → Bytes
code_text Code.timeout = codes "Timeout"
code_text Code.unavailable = codes "Unavailable"
code_text Code.access_denied = codes "AccessDenied"
code_text Code.key_disabled = codes "KeyDisabled"

-- `kms.Error`.
pub record KmsError : Type 0 where
  pub code : Code
  pub provider : Bytes
  pub msg : Bytes

-- `(*Error).Error`.
unfoldable pub error_text : KmsError → Bytes
error_text e =
    codes "kms " ++ (e.provider ++ (codes ": " ++ (code_text e.code ++ (codes ": " ++ e.msg))))

-- The package-level error values that `errors.Is` is asked about.
pub data Sentinel : Type 0 where
  key_unavailable key_revoked lease_expired dek_cold poison store busy : Sentinel

-- A Go error by the three views that the program takes of it: the sentinels that `errors.Is`
-- finds in its chain, the typed error that `errors.As` finds, and the text of `Error()`.
pub record GoErr : Type 0 where
  pub chain : List Sentinel
  pub typed : Option KmsError
  pub text : Bytes

unfoldable pub same_sentinel : Sentinel → Sentinel → Bool
same_sentinel Sentinel.key_unavailable Sentinel.key_unavailable = true
same_sentinel Sentinel.key_revoked Sentinel.key_revoked = true
same_sentinel Sentinel.lease_expired Sentinel.lease_expired = true
same_sentinel Sentinel.dek_cold Sentinel.dek_cold = true
same_sentinel Sentinel.poison Sentinel.poison = true
same_sentinel Sentinel.store Sentinel.store = true
same_sentinel Sentinel.busy Sentinel.busy = true
same_sentinel _ _ = false

-- `errors.Is`.
unfoldable pub is : List Sentinel → Sentinel → Bool
unfolding same_sentinel
is [] s = false
is (x ∷ xs) s = elim (same_sentinel x s) [ true ↦ true | false ↦ is xs s ]
