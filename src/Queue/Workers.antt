-- ===== src/Queue/Workers.antt =====
-- internal/queue/workers.go: one batch of a worker. The core is called through its own runs; what
-- the worker asks of the store is the list of the store's operations, in the order of the calls.
pub mod Disposal
pub mod Ownership
pub mod Lateness
pub mod Turn
pub mod Shifts
use cmek.Base.{
  ℕ, Bytes, List, [], ◌∷◌, ◌++◌, map, Option, none, some, Bool, true, false, if◌then◌else◌,
}
use cmek.Core.Types.{Config, Envelope, Handle, Refusal, Result}
use cmek.Core.Envelope.{Aead, open_envelope}
use cmek.Core.Run.{M, ◌>>=◌, ◌>>◌, return, clock}
use cmek.Core.Delivery.{decrypt_key, ask_warm}
use cmek.Sink.{Delivery}
use cmek.Queue.Rows.{Row}
use cmek.Queue.Histories.{Act}

-- What one batch is worked with. `deliver` is how the sink ends the delivery of a message's text;
-- `is_stopping` is whether the worker's context has ended by then; `fault` is whether the store's
-- call about the message with that id fails.
pub record Desk : Type 0 where
  pub idx : ℕ
  pub tenant : Bytes
  pub aead : Aead
  pub deliver : ℕ → Bytes → Delivery
  pub is_stopping : ℕ → Bool
  pub fault : ℕ → Bool

-- What becomes of one message of the batch.
pub data Fate : Type 0 where
  delivered buried returned : Fate

abbrev pub id_of : Row → ℕ
id_of r = r.id

abbrev pub envelope_of : Row → Envelope
envelope_of r = record { dek_id = r.dek_id; ciphertext = r.ciphertext }

unfoldable pub after_delivery : Delivery → Bool → Fate
after_delivery Delivery.delivered stopping = Fate.delivered
after_delivery Delivery.mismatched stopping = if stopping then Fate.returned else Fate.buried
after_delivery Delivery.cancelled stopping = if stopping then Fate.returned else Fate.buried

unfoldable pub after_open : Desk → ℕ → Result Bytes → Fate
unfolding after_delivery
after_open k id (Result.ok text) = after_delivery (k.deliver id text) (k.is_stopping id)
after_open k id (Result.err Refusal.poison) = Fate.buried
after_open k id (Result.err _) = Fate.returned

-- The part of the loop's body behind `DecryptKey`.
unfoldable pub with_key : Desk → Row → Result Handle → M Fate
unfolding after_open clock return
with_key k r (Result.ok h) = do
  now ← clock
  return (after_open k r.id (open_envelope k.aead h now k.tenant r.id (envelope_of r)))
with_key k r (Result.err Refusal.poison) = return Fate.buried
with_key k r (Result.err Refusal.dek_cold) = do ask_warm r.dek_id; return Fate.returned
with_key k r (Result.err _) = return Fate.returned

unfoldable pub attempt : Config → Desk → Row → M Fate
unfolding with_key
attempt c k r = do got ← decrypt_key c r.dek_id; with_key k r got

-- What the loop has done with a batch: the ids to be acked, and the store's calls so far.
pub record Work : Type 0 where
  pub acked : List ℕ
  pub acts : List Act

abbrev pub also_acked : ℕ → Work → Work
also_acked id w = record w { acked = id ∷ w.acked }

abbrev pub also_buried : Desk → ℕ → Work → Work
also_buried k id w = record w { acts = Act.dead_letters (k.fault id) k.idx id ∷ w.acts }

-- `release` of the unprocessed rest.
unfoldable pub give_back : Desk → Row → List Row → Work
give_back k r rs = record {
  acked = [];
  acts = Act.releases (k.fault r.id) k.idx (map id_of (r ∷ rs)) ∷ [];
}

-- What a fate makes of the rest of the loop: go on, or give back what is left and break.
unfoldable pub follow_fate : Desk → Row → List Row → M Work → Fate → M Work
unfolding give_back return
follow_fate k r rs rest Fate.delivered = do w ← rest; return (also_acked r.id w)
follow_fate k r rs rest Fate.buried = do w ← rest; return (also_buried k r.id w)
follow_fate k r rs rest Fate.returned = return (give_back k r rs)

-- The loop over the batch.
unfoldable pub work : Config → Desk → List Row → M Work
unfolding attempt follow_fate return
work c k [] = return (record { acked = []; acts = [] })
work c k (r ∷ rs) = attempt c k r >>= follow_fate k r rs (work c k rs)

-- `if len(acked) > 0 { Ack }`.
unfoldable pub finish : Desk → Work → List Act
finish k w = elim w.acked [
  | [] ↦ w.acts
  | id ∷ ids ↦ w.acts ++ Act.acks (k.fault id) k.idx (id ∷ ids) ∷ []
]
