-- ===== src/Queue/Workers/Lateness.antt =====
-- The core's promise at the far end: no message is delivered after the revocation bound.
use cmek.Base.{ℕ, ◌+◌, ◌≤◌, ◌≡◌, ◌≢◌, refl, arith, List, [], ◌∷◌, Bytes, some}
use cmek.Core.Types.{Config, Handle, Refusal, Result}
use cmek.Core.Envelope.{open_envelope}
use cmek.Core.Bound.{Inv}
use cmek.Core.Run.{Env, St, M, clock}
use cmek.Core.Delivery.{decrypt_key, ask_warm, want_warm}
use cmek.Core.Rely.{Ensures, Ensures-bind, Ensures-return, Ensures-ask, Ensures-locked}
use cmek.Core.Renewal.{Any, IsFaithful, clock-Keeps}
use cmek.Core.Handles.{GoodResult}
use cmek.Core.Decrypt.{decrypt_key-Keeps}
use cmek.Core.Sections.{want_warm-Inv}
use cmek.Queue.Rows.{Row}
use cmek.Queue.Workers.{
  Desk, Fate, Work, envelope_of, after_open, with_key, attempt, give_back, also_buried, follow_fate,
  work,
}

-- Every reading of the clock is past the bound of a revocation at `r`.
abbrev pub IsLate : Config → ℕ → Env → Type 0
IsLate c r e = (n : ℕ) → r + c.lease ≤ e.now n + c.early_expiry

after_open-late :
    (k : Desk) (row : Row) (h : Handle) (now : ℕ)
    → h.valid_until ≤ now
    → after_open k row.id (open_envelope k.aead h now k.tenant row.id (envelope_of row))
      ≢ Fate.delivered
unfolding after_open open_envelope
after_open-late k row h now le = ground arith

module _ (c : Config) (r : ℕ) (e : Env) (k : Desk) (f : IsFaithful c (some r) e)
    (late : IsLate c r e) where
  abbrev Keeps {ℓ κ} : {A : Type ℓ} → (A → Type κ) → M A → Type (ℓ ⊔ κ)
  Keeps Q m = Ensures (Inv c (some r)) e Q m

  ask_warm-Keeps : (id : Bytes) → Keeps Any (ask_warm id)
  unfolding ask_warm
  ask_warm-Keeps id = Ensures-bind clock _ (clock-Keeps c (some r) e f) (λ now p.
      Ensures-locked (want_warm id now) f.rely (λ t v. (want_warm-Inv c (some r) id now t v, tt)))

  late_clock : Keeps (λ now. r + c.lease ≤ now + c.early_expiry) clock
  unfolding clock
  late_clock = Ensures-ask (λ d n. d.now n) late

  with_key-Keeps :
      (row : Row) (got : Result Handle)
      → GoodResult c (some r) got
      → Keeps (λ fate. fate ≢ Fate.delivered) (with_key k row got)
  unfolding with_key
  with_key-Keeps row (Result.ok h) g =
      Ensures-bind clock _ late_clock
        (λ now p. Ensures-return _ (after_open-late k row h now (omega (arith, g, p))))
  with_key-Keeps row (Result.err Refusal.poison) g = Ensures-return Fate.buried (λ q. cc)
  with_key-Keeps row (Result.err Refusal.dek_cold) g =
      Ensures-bind (ask_warm row.dek_id) _ (ask_warm-Keeps row.dek_id)
        (λ j p. Ensures-return Fate.returned (λ q. cc))
  with_key-Keeps row (Result.err Refusal.key_unavailable) g = Ensures-return Fate.returned (λ q. cc)
  with_key-Keeps row (Result.err Refusal.key_revoked) g = Ensures-return Fate.returned (λ q. cc)
  with_key-Keeps row (Result.err Refusal.lease_expired) g = Ensures-return Fate.returned (λ q. cc)
  with_key-Keeps row (Result.err (Refusal.other x)) g = Ensures-return Fate.returned (λ q. cc)

  attempt-Keeps : (row : Row) → Keeps (λ fate. fate ≢ Fate.delivered) (attempt c k row)
  unfolding attempt
  attempt-Keeps row =
      Ensures-bind (decrypt_key c row.dek_id) _ (decrypt_key-Keeps c (some r) e f row.dek_id)
        (λ got g. with_key-Keeps row got g)

  follow_fate-Keeps :
      (row : Row) (rs : List Row) (rest : M Work) (fate : Fate)
      → fate ≢ Fate.delivered
      → Keeps (λ w. w.acked ≡ []) rest
      → Keeps (λ w. w.acked ≡ []) (follow_fate k row rs rest fate)
  unfolding follow_fate
  follow_fate-Keeps row rs rest Fate.delivered d q = absurd (d refl)
  follow_fate-Keeps row rs rest Fate.buried d q =
      Ensures-bind rest _ q (λ w p. Ensures-return (also_buried k row.id w) p)
  follow_fate-Keeps row rs rest Fate.returned d q =
      Ensures-return (give_back k row rs) (unfold give_back in refl)

  work-Keeps : (rs : List Row) → Keeps (λ w. w.acked ≡ []) (work c k rs)
  unfolding work
  work-Keeps [] = Ensures-return (record { acked = []; acts = [] }) refl
  work-Keeps (row ∷ rs) =
      Ensures-bind (attempt c k row) _ (attempt-Keeps row)
        (λ fate d. follow_fate-Keeps row rs (work c k rs) fate d (work-Keeps rs))

-- No worker delivers or acks a message once a lease, less the early expiry, has passed since the
-- key service last answered a call with success: neither in the cached modes nor in the direct
-- ones, and whatever the other goroutines do, as long as they keep the tenant's invariant.
pub no_late_delivery :
    (c : Config) (r : ℕ) (e : Env) (s : St) (k : Desk) (rs : List Row)
    → IsFaithful c (some r) e
    → IsLate c r e
    → Inv c (some r) s.tenant
    → (work c k rs e s).0.acked ≡ []
no_late_delivery c r e s k rs f late v = ((work-Keeps c r e k f late rs).run s v).1
