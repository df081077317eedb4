-- ===== src/Core/Sealing.antt =====
-- Envelopes: sealing then opening, and what the associated data binds.
use cmek.Base.{
  ℕ, ◌^◌, ◌<◌, ◌≡◌, refl, Bytes, ◌++◌, [], ◌∷◌, Option, none, some, arith, same_refl, length,
}
use cmek.Kms.Fake.{TinkResult}
use cmek.Core.Types.{Handle, Envelope, Result}
use cmek.Core.Envelope.{
  Aead, big_endian, aad, sealed, opened, seal_with, seal, open_with, open_envelope,
}

-- Tink's AEAD: what was encrypted decrypts under the same associated data.
abbrev pub IsAead : Aead → Type 0
IsAead a =
    (p iv : ℕ) (text ad ct : Bytes)
    → a.encrypt p iv text ad ≡ TinkResult.bytes ct
    → a.decrypt p ct ad ≡ TinkResult.bytes text

sealed-ok :
    (id : Bytes) (x : TinkResult) (env : Envelope)
    → sealed id x ≡ Result.ok env
    → (x ≡ TinkResult.bytes env.ciphertext) × (env.dek_id ≡ id)
unfolding sealed
sealed-ok id (TinkResult.bytes ct) env e = ground arith
sealed-ok id (TinkResult.refused why) env e = cc

seal_with-open :
    (a : Aead) (iv : ℕ) (o : Option ℕ) (id tenant : Bytes) (msg_id : ℕ) (text : Bytes)
    (env : Envelope)
    → IsAead a
    → seal_with a iv o id tenant msg_id text ≡ Result.ok env
    → (env.dek_id ≡ id) × (open_with a o tenant msg_id env ≡ Result.ok text)
unfolding seal_with open_with
seal_with-open a iv none id tenant msg_id text env h e = cc
seal_with-open a iv (some p) id tenant msg_id text env h e =
    let (ct, same_id) = sealed-ok id (a.encrypt p iv text (aad tenant msg_id id)) env e in
    let back = h p iv text (aad tenant msg_id id) env.ciphertext ct in
    (same_id, rw (same_id, back, opened) refl)

-- What `Seal` returns under a handle, `Open` opens to the same bytes under the same handle, tenant
-- and message id, at every instant at which the handle is valid.
pub open-seal :
    (a : Aead) (iv : ℕ) (h : Handle) (now later : ℕ) (tenant : Bytes) (msg_id : ℕ) (text : Bytes)
    (env : Envelope)
    → IsAead a
    → seal a iv h now tenant msg_id text ≡ Result.ok env
    → later < h.valid_until
    → open_envelope a h later tenant msg_id env ≡ Result.ok text
unfolding seal open_envelope
open-seal a iv h now later tenant msg_id text env aead e lt =
    ground
      (arith, seal_with-open a iv h.prim h.dek_id tenant msg_id text env aead, same_refl h.dek_id)

append_inj :
    (xs ys us vs : Bytes) → length xs ≡ length ys → xs ++ us ≡ ys ++ vs → (xs ≡ ys) × (us ≡ vs)
append_inj [] [] us vs l e = (refl, e)
append_inj [] (y ∷ ys) us vs l e = absurd (omega arith)
append_inj (x ∷ xs) [] us vs l e = absurd (omega arith)
append_inj (x ∷ xs) (y ∷ ys) us vs l e = ground (arith, append_inj xs ys us vs)

big_endian_inj : (n m : ℕ) → n < 2 ^ 64 → m < 2 ^ 64 → big_endian 8 n ≡ big_endian 8 m → n ≡ m
unfolding big_endian
big_endian_inj n m hn hm e = ground arith

-- The associated data binds the tenant, the message and the data key: among tenants whose names
-- have one length, and message ids of 64 bits, equal associated data mean equal parts.
pub aad_inj :
    (tenant tenant' : Bytes) (n m : ℕ) (id id' : Bytes)
    → length tenant ≡ length tenant'
    → n < 2 ^ 64
    → m < 2 ^ 64
    → aad tenant n id ≡ aad tenant' m id'
    → (tenant ≡ tenant') × (n ≡ m) × (id ≡ id')
unfolding aad
aad_inj tenant tenant' n m id id' l hn hm e =
    let (same_tenant, rest) = append_inj tenant tenant' _ _ l e in
    let (number, same_id) = append_inj (big_endian 8 n) (big_endian 8 m) id id' same_length rest in
    (same_tenant, big_endian_inj n m hn hm number, same_id)
  where
    same_length : length (big_endian 8 n) ≡ length (big_endian 8 m)
    same_length = unfold big_endian in refl
