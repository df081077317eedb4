-- ===== src/Core/Texts.antt =====
-- The words of the audit lines (internal/cmek/fetcher.go and manager.go).
use cmek.Base.{ℕ, Bytes, codes, itoa, ◌++◌}
use cmek.Core.Types.{State, state_text, Op}

unfoldable pub op_text : Op → Bytes
op_text Op.unwrap = codes "unwrap"
op_text Op.generate = codes "generate"
op_text Op.warm = codes "unwrap"

pub data Word : Type 0 where
  ok stale_ok denied error purge idle aged cache_off state : Word
  renewed cold_fetch no_cache renewal_failed no_traffic per_request : Word

unfoldable pub word : Word → Bytes
word Word.ok = codes "ok"
word Word.stale_ok = codes "stale ok ignored"
word Word.denied = codes "denied"
word Word.error = codes "error"
word Word.purge = codes "purge"
word Word.idle = codes "idle"
word Word.aged = codes "aged"
word Word.cache_off = codes "cache off"
word Word.state = codes "state"
word Word.renewed = codes "authorization renewed"
word Word.cold_fetch = codes "cold fetch failed"
word Word.no_cache = codes "no cache: call failed"
word Word.renewal_failed = codes "renewal failed"
word Word.no_traffic = codes "lease lapsed with no traffic"
word Word.per_request = codes "per-request KMS calls"

unfoldable pub lease_expired_purged : ℕ → Bytes
lease_expired_purged n = codes "lease expired" ++ (codes ", " ++ (itoa n ++ codes " DEKs purged"))

unfoldable pub key_revoked_purged : ℕ → Bytes
key_revoked_purged n = codes "key revoked" ++ (codes ", " ++ (itoa n ++ codes " DEKs purged"))

unfoldable pub transition_text : State → State → Bytes
transition_text from to = state_text from ++ (codes "→" ++ state_text to)

unfoldable pub warm_text : Bytes → Bytes
warm_text id = codes "warm " ++ id
