-- ===== src/Core/Revocation.antt =====
-- The promise of the core: after a revocation no handle outlives the lease.
use cmek.Base.{ℕ, Bytes, Option, some, ◌≡◌, arith, ◌≤◌, ◌+◌, ◌-◌, ◌⊎◌, inl, inr, subst}
use cmek.Core.Types.{Config, Handle, Refusal, Result, Envelope}
use cmek.Core.Bound.{Inv}
use cmek.Core.Envelope.{Aead, seal, open_envelope}
use cmek.Core.Run.{Env, St}
use cmek.Core.Manager.{encrypt_key}
use cmek.Core.Delivery.{decrypt_key}
use cmek.Core.Renewal.{IsFaithful}
use cmek.Core.Handles.{GoodResult}
use cmek.Core.Encrypt.{encrypt_key-Keeps}
use cmek.Core.Decrypt.{decrypt_key-Keeps}

-- A handle that one of the two operations gives out.
abbrev pub Issues : Config → Env → St → Handle → Type 0
Issues c e s h =
    ((encrypt_key c e s).0.0 ≡ Result.ok h)
    ⊎ ((id : Bytes) × ((decrypt_key c id e s).0 ≡ Result.ok h))

issued_lapses :
    (c : Config) (r : ℕ) (e : Env) (s : St) (h : Handle)
    → IsFaithful c (some r) e
    → Inv c (some r) s.tenant
    → Issues c e s h
    → h.valid_until ≤ r + c.lease - c.early_expiry
issued_lapses c r e s h f v (inl p) =
    subst (GoodResult c (some r)) p ((encrypt_key-Keeps c (some r) e f).run s v).1
issued_lapses c r e s h f v (inr (id, p)) =
    subst (GoodResult c (some r)) p ((decrypt_key-Keeps c (some r) e f id).run s v).1

stale_handle :
    (a : Aead) (iv : ℕ) (h : Handle) (now : ℕ) (tenant : Bytes) (msg_id : ℕ) (text : Bytes)
    (env : Envelope)
    → h.valid_until ≤ now
    → (seal a iv h now tenant msg_id text ≡ Result.err Refusal.lease_expired)
      × (open_envelope a h now tenant msg_id env ≡ Result.err Refusal.lease_expired)
unfolding seal open_envelope
stale_handle a iv h now tenant msg_id text env le = (ground arith, ground arith)

-- If the key service answers no call sent after `r` with success, then at every instant from one
-- lease (less the early expiry) after `r` on, every handle that `EncryptKey` or `DecryptKey` ever
-- gives out is refused by `Seal` and by `Open`, in every fetch mode and whatever the other
-- goroutines do, as long as they keep the tenant's invariant.
pub revocation_bound :
    (c : Config) (r : ℕ) (e : Env) (s : St) (h : Handle)
    → IsFaithful c (some r) e
    → Inv c (some r) s.tenant
    → Issues c e s h
    → (a : Aead) (iv now : ℕ) (tenant : Bytes) (msg_id : ℕ) (text : Bytes) (env : Envelope)
    → r + c.lease ≤ now + c.early_expiry
    → (seal a iv h now tenant msg_id text ≡ Result.err Refusal.lease_expired)
      × (open_envelope a h now tenant msg_id env ≡ Result.err Refusal.lease_expired)
revocation_bound c r e s h f v i a iv now tenant msg_id text env le =
    stale_handle a iv h now tenant msg_id text env (omega (arith, issued_lapses c r e s h f v i))

-- Every run of `EncryptKey` and `DecryptKey` keeps the tenant's invariant: its state, lease, cache
-- and grid entry agree afterwards, with a bound on the lease or without.
pub operations-Inv :
    (c : Config) (limit : Option ℕ) (e : Env) (s : St) (id : Bytes)
    → IsFaithful c limit e
    → Inv c limit s.tenant
    → Inv c limit (encrypt_key c e s).1.tenant × Inv c limit (decrypt_key c id e s).1.tenant
operations-Inv c limit e s id f v =
    (((encrypt_key-Keeps c limit e f).run s v).0, ((decrypt_key-Keeps c limit e f id).run s v).0)
