-- ===== src/World/Ingest/Settles.antt =====
-- What `IngestID` leaves behind on every path, errors included.
use cmek.Base.{
  ℕ, suc, ◌+◌, ◌/◌, ◌≡◌, refl, subst, arith, Bytes, codes, lookup, List, Option, none, some, Bool,
  true, false,
}
use cmek.Core.Types.{Config, Envelope, Handle, Result}
use cmek.Core.Envelope.{seal}
use cmek.Core.Run.{Env, St, ask, clock, return}
use cmek.Core.Manager.{encrypt_key}
use cmek.Admit.{Limits, Load, Rejection, admit, within_share}
use cmek.Queue.Rows.{Row, insert_row}
use cmek.Queue.Store.{Store, Done, next_id, inserted, insert_message, new_row}
use cmek.Metrics.Counters.{note_ingest, Counters}
use cmek.World.Ingest.{
  IngestError, Gateway, Front, IngestResult, reason_for, load_of, note_outcome, reject,
  after_insert, after_seal, send, after_key, after_admit, ingest_id,
}

-- An unknown tenant and a rejection by the gate cost the core nothing.
abbrev pub IsCheap : IngestError → St → St → Type 0
IsCheap IngestError.unknown_tenant s s' = s' ≡ s
IsCheap (IngestError.rejected why) s s' = s' ≡ s
IsCheap _ s s' = Unit {0}

abbrev pub counters_after : Gateway → ℕ → Bool → Bytes → Front → Counters
counters_after g i within reason f =
    note_ingest g.affected f.store.tenants i reason within f.counters

-- The event under way: the tenant, the text, and what EncryptKey gives for it.
pub record Event : Type 0 where
  pub tenant : Bytes
  pub text : Bytes
  pub key : Result Handle

-- The message that the store has got is the event's text, sealed under its id with the event's key.
pub record IsStored (g : Gateway) (v : Event) (i id : ℕ) (s s' : Store) : Type 0 where
  pub stamp : ℕ
  pub envelope : Envelope
  pub handle : Handle
  pub sealed_at : ℕ
  pub has_key : v.key ≡ Result.ok handle
  pub is_sealed : seal g.aead g.iv handle sealed_at v.tenant id v.text ≡ Result.ok envelope
  pub is_inserted : insert_message g.fault stamp i id envelope (next_id s).1 ≡ (Done.done tt, s')

-- How an event of tenant `i` ends. Accepted: its id is the next one, the store has done the insert
-- of its sealed row, and the metrics are told. Failed: rows and ledger are as they were, and the
-- metrics are told the error's reason.
abbrev pub IsSettled :
    Gateway → Event → ℕ → Bool → Front → St → (IngestResult × Front) × St → Type 0
IsSettled g v i within f s ((IngestResult.accepted id, f'), s') =
    (id ≡ f.store.last_id + 1)
    × (f'.counters ≡ counters_after g i within (codes "accepted") f)
    × IsStored g v i id f.store f'.store
IsSettled g v i within f s ((IngestResult.failed err, f'), s') =
    (f'.store.rows ≡ f.store.rows)
    × (f'.store.ledger ≡ f.store.ledger)
    × (f'.counters ≡ counters_after g i within (reason_for (some err)) f)
    × IsCheap err s s'

module _ (g : Gateway) (v : Event) (i : ℕ) (within : Bool) (f : Front) (s : St) where
  -- The front door once an id is given out.
  abbrev numbered : Front
  numbered = record f { store = record f.store { last_id = f.store.last_id + 1 } }

  insert-IsSettled :
      (stamp at : ℕ) (env : Envelope) (h : Handle) (s' : St) (fault : Bool)
      (rows : Option (List Row))
      → v.key ≡ Result.ok h
      → seal g.aead g.iv h at v.tenant (f.store.last_id + 1) v.text ≡ Result.ok env
      → g.fault ≡ fault
      → insert_row (new_row stamp i (f.store.last_id + 1) env) f.store.rows ≡ rows
      → IsSettled g v i within f s (
        after_insert g i within
            (f.store.last_id + 1)
            numbered
            (insert_message g.fault stamp i (f.store.last_id + 1) env numbered.store),
        s',
      )
  unfolding after_insert insert_message inserted next_id reject note_outcome
  insert-IsSettled stamp at env h s' true rows k e p q = rw p (refl, refl, refl, tt)
  insert-IsSettled stamp at env h s' false none k e p q = rw (p, q) (refl, refl, refl, tt)
  insert-IsSettled stamp at env h s' false (some rows) k e p q =
      rw (p, q)
        (
          refl,
          refl,
          record {
            stamp = stamp;
            envelope = env;
            handle = h;
            sealed_at = at;
            has_key = k;
            is_sealed = e;
            is_inserted = rw q refl;
          },
        )

  after_seal-IsSettled :
      (h : Handle) (at : ℕ) (r : Result Envelope) (e : Env) (s' : St)
      → v.key ≡ Result.ok h
      → seal g.aead g.iv h at v.tenant (f.store.last_id + 1) v.text ≡ r
      → IsSettled g v i within f s (after_seal g i within (f.store.last_id + 1) numbered r e s')
  unfolding after_seal clock ask return reject note_outcome
  after_seal-IsSettled h at (Result.ok env) e s' k q =
      insert-IsSettled (e.now s'.at / 1_000_000) at env h (record s' { at = suc s'.at }) g.fault
        (insert_row (new_row (e.now s'.at / 1_000_000) i (f.store.last_id + 1) env) f.store.rows) k
        q refl refl
  after_seal-IsSettled h at (Result.err why) e s' k q = (refl, refl, refl, tt)

  after_key-IsSettled :
      (r : Result Handle) (e : Env) (s' : St)
      → v.key ≡ r
      → IsSettled g v i within f s (after_key g v.tenant v.text i within f r e s')
  unfolding after_key send next_id clock ask return reject note_outcome
  after_key-IsSettled (Result.ok h) e s' k =
      after_seal-IsSettled h (e.now s'.at)
        (seal g.aead g.iv h (e.now s'.at) v.tenant (f.store.last_id + 1) v.text) e
        (record s' { at = suc s'.at }) k refl
  after_key-IsSettled (Result.err why) e s' k = (refl, refl, refl, tt)

  after_admit-IsSettled :
      (c : Config) (why : Option Rejection) (e : Env)
      → v.key ≡ (encrypt_key c e s).0.0
      → IsSettled g v i within f s (after_admit c g v.tenant v.text i f (within, why) e s)
  unfolding after_admit return reject note_outcome
  after_admit-IsSettled c none e k =
      after_key-IsSettled (encrypt_key c e s).0.0 e (encrypt_key c e s).1 k
  after_admit-IsSettled c (some why) e k = (refl, refl, refl, refl)

admit-within :
    (l : Limits) (b : Load) (granted : Bool) (i : ℕ) → (admit l b granted i).0 ≡ within_share l b i
unfolding admit
admit-within l b granted i = ground arith

-- The event that `IngestID` is called with.
abbrev pub event_of : Config → Bytes → Bytes → Env → St → Event
event_of c tenant text e s = record { tenant = tenant; text = text; key = (encrypt_key c e s).0.0 }

-- However `IngestID` ends for a tenant of the population, it is settled as an accepted or as a
-- failed event.
pub ingest_id-IsSettled :
    (c : Config) (g : Gateway) (tenant text : Bytes) (f : Front) (e : Env) (s : St) (i : ℕ)
    → lookup tenant g.index ≡ some i
    → IsSettled g
        (event_of c tenant text e s)
        i
        (within_share g.limits (load_of f.store) i)
        f
        s
        (ingest_id c g tenant text f e s)
unfolding ingest_id
ingest_id-IsSettled c g tenant text f e s i h =
    let v = event_of c tenant text e s in
    let a = admit g.limits (load_of f.store) g.granted i in
    rw (h, ingest_id)
      (subst (λ w. IsSettled g v i w f s (after_admit c g tenant text i f a e s))
        (admit-within g.limits (load_of f.store) g.granted i)
        (after_admit-IsSettled g v i a.0 f s c a.1 e refl))
