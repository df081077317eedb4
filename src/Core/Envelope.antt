-- ===== src/Core/Envelope.antt =====
-- internal/cmek/envelope.go. A Tink primitive is known by its number; `encrypt` also takes the draw
-- from which Tink makes the IV.
use cmek.Base.{
  ℕ, suc, ◌/◌, ◌%◌, ◌^◌, Bytes, codes, ◌++◌, [], ◌∷◌, Option, none, some, ltb, not, same,
  if◌then◌else◌,
}
use cmek.Kms.Fake.{TinkResult}
use cmek.Core.Types.{Handle, Envelope, Refusal, Result}

pub record Aead : Type 0 where
  pub encrypt : ℕ → ℕ → Bytes → Bytes → TinkResult
  pub decrypt : ℕ → Bytes → Bytes → TinkResult

-- `binary.BigEndian.AppendUint64` of `k` bytes of `n`, most significant first.
unfoldable pub big_endian : ℕ → ℕ → Bytes
big_endian ℕ.zero n = []
big_endian (suc k) n = (n / 256 ^ k % 256) ∷ big_endian k n

-- tenant | msgID | dekID. A message id is not negative.
unfoldable pub aad : Bytes → ℕ → Bytes → Bytes
unfolding big_endian
aad tenant msg_id dek_id = tenant ++ (big_endian 8 msg_id ++ dek_id)

abbrev seal_error : Bytes → Refusal
seal_error why =
    Refusal.other (record { chain = []; typed = none; text = codes "cmek: seal: " ++ why })

unfoldable pub sealed : Bytes → TinkResult → Result Envelope
sealed dek_id (TinkResult.bytes ct) = Result.ok (record { dek_id = dek_id; ciphertext = ct })
sealed dek_id (TinkResult.refused why) = Result.err (seal_error why)

unfoldable pub opened : TinkResult → Result Bytes
opened (TinkResult.bytes pt) = Result.ok pt
opened (TinkResult.refused why) = Result.err Refusal.poison

unfoldable pub seal_with : Aead → ℕ → Option ℕ → Bytes → Bytes → ℕ → Bytes → Result Envelope
unfolding sealed
seal_with a iv none dek_id tenant msg_id plaintext = Result.err Refusal.dek_cold
seal_with a iv (some p) dek_id tenant msg_id plaintext =
    sealed dek_id (a.encrypt p iv plaintext (aad tenant msg_id dek_id))

unfoldable pub seal : Aead → ℕ → Handle → ℕ → Bytes → ℕ → Bytes → Result Envelope
unfolding seal_with
seal a iv h now tenant msg_id plaintext =
    if not (ltb now h.valid_until)
    then Result.err Refusal.lease_expired
    else seal_with a iv h.prim h.dek_id tenant msg_id plaintext

unfoldable pub open_with : Aead → Option ℕ → Bytes → ℕ → Envelope → Result Bytes
unfolding opened
open_with a none tenant msg_id env = Result.err Refusal.dek_cold
open_with a (some p) tenant msg_id env =
    opened (a.decrypt p env.ciphertext (aad tenant msg_id env.dek_id))

unfoldable pub open_envelope : Aead → Handle → ℕ → Bytes → ℕ → Envelope → Result Bytes
unfolding open_with
open_envelope a h now tenant msg_id env =
    if not (ltb now h.valid_until)
    then Result.err Refusal.lease_expired
    else if not (same h.dek_id env.dek_id)
    then Result.err Refusal.poison
    else open_with a h.prim tenant msg_id env
