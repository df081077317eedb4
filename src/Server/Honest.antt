-- ===== src/Server/Honest.antt =====
-- What the answer to an event says of the queue.
use cmek.Base.{
  ℕ, ◌+◌, ◌≤◌, ◌≡◌, refl, sym, ap, arith, Bytes, [], subst, lookup, none, some, Bool, true, false,
  if◌then◌else◌, Option-cases, inl, inr,
}
use cmek.Core.Types.{Config, Envelope}
use cmek.Core.Run.{Env, St, return}
use cmek.Admit.{Rejection, within_share}
use cmek.Queue.Store.{Done, next_id, insert_message}
use cmek.World.Ingest.{
  IngestError, RetryAfter, IngestResult, Gateway, Front, outcome, ingest_id, load_of,
}
use cmek.World.Ingest.Settles.{Event, IsSettled, event_of, ingest_id-IsSettled}
use cmek.World.Switches.{is_empty}
use cmek.Server.{Body, Response, Plan, with_given, respond, bad_request}
use cmek.Server.Events.{
  EventRequest, BodyRead, event_answer, take_event, event_plan, post_event, read_body,
}

-- An answer of 202 carries the id under which the event was inserted, for its tenant; any other is
-- an error, with the rows and the ledger as they were.
pub data IsHonest (g : Gateway) (tenant : Bytes) (f f' : Front) (r : Response) : Type 0 where
  stored :
      (i stamp : ℕ) (env : Envelope)
      → lookup tenant g.index ≡ some i
      → r ≡ respond 202 (Body.event (f.store.last_id + 1) tenant)
      → insert_message g.fault stamp i (f.store.last_id + 1) env (next_id f.store).1
        ≡ (Done.done tt, f'.store)
      → IsHonest g tenant f f' r
  refused :
      400 ≤ r.status
      → f'.store.rows ≡ f.store.rows
      → f'.store.ledger ≡ f.store.ledger
      → IsHonest g tenant f f' r

-- Every error is mapped to a status of 400 or more.
outcome-status : (err : IngestError) (ra : RetryAfter) → 400 ≤ (outcome (some err) ra).status
unfolding outcome
outcome-status IngestError.unknown_tenant ra = omega arith
outcome-status (IngestError.rejected Rejection.rate_limited) ra = omega arith
outcome-status (IngestError.rejected Rejection.backlog_full) ra = omega arith
outcome-status (IngestError.rejected Rejection.overloaded) ra = omega arith
outcome-status (IngestError.refused why) ra = ground arith
outcome-status IngestError.not_inserted ra = omega arith

settled-IsHonest :
    (g : Gateway) (v : Event) (ra : RetryAfter) (i : ℕ) (within : Bool) (f : Front) (s : St)
    → lookup v.tenant g.index ≡ some i
    → (r : (IngestResult × Front) × St) → IsSettled g v i within f s r
    → IsHonest g v.tenant f r.0.1 (event_answer ra v.tenant r.0.0)
unfolding event_answer outcome
settled-IsHonest g v ra i within f s h ((IngestResult.accepted id, f'), s') w =
    IsHonest.stored i w.2.stamp w.2.envelope h
      (ap (λ (k : ℕ). respond 202 (Body.event k v.tenant)) w.0)
      (subst
        (λ (k : ℕ).
          insert_message g.fault w.2.stamp i k w.2.envelope (next_id f.store).1
          ≡ (Done.done tt, f'.store))
        w.0 w.2.is_inserted)
settled-IsHonest g v ra i within f s h ((IngestResult.failed err, f'), s') w =
    IsHonest.refused (outcome-status err ra) w.0 w.1

unknown-IsHonest :
    (g : Gateway) (ra : RetryAfter) (tenant : Bytes) (f : Front)
    → IsHonest g tenant f f
        (event_answer ra tenant (IngestResult.failed IngestError.unknown_tenant))
unfolding event_answer
unknown-IsHonest g ra tenant f =
    IsHonest.refused (outcome-status IngestError.unknown_tenant ra) refl refl

ingest_id-unknown :
    (c : Config) (g : Gateway) (tenant text : Bytes) (f : Front) (e : Env) (s : St)
    → lookup tenant g.index ≡ none
    → ingest_id c g tenant text f e s ≡ ((IngestResult.failed IngestError.unknown_tenant, f), s)
unfolding ingest_id return
ingest_id-unknown c g tenant text f e s h = rw (h, ingest_id) refl

module _ (c : Config) (g : Gateway) (ra : RetryAfter) (e : Env) where
  take_event-IsHonest :
      (tenant text : Bytes) (f : Front) (s : St)
      → let r = take_event c g ra e tenant text (f, s) in IsHonest g tenant f r.1.0 r.0
  unfolding take_event
  take_event-IsHonest tenant text f s = elim (Option-cases (lookup tenant g.index)) [
    | inl h ↦
        subst
          (λ (r : (IngestResult × Front) × St).
            IsHonest g tenant f r.0.1 (event_answer ra tenant r.0.0))
          (sym (ingest_id-unknown c g tenant text f e s h)) (unknown-IsHonest g ra tenant f)
    | inr h ↦
        settled-IsHonest g (event_of c tenant text e s) ra h.0
          (within_share g.limits (load_of f.store) h.0) f s h.1 (ingest_id c g tenant text f e s)
          (ingest_id-IsSettled c g tenant text f e s h.0 h.1)
  ]

  -- Whatever POST /v1/post_event is answered with, it tells the truth about the queue: an answer of 202
  -- carries the id under which the event was inserted for its tenant, and any other answer, for a
  -- missing tenant, a body too large or cut off, or an error of IngestID, is one of 400 or more with
  -- the rows and the ledger as they were.
  pub post_event-IsHonest :
      (req : EventRequest) (f : Front) (s : St)
      → let r = with_given (post_event c g ra e req) (f, s) in IsHonest g req.tenant f r.1.0 r.0
  unfolding post_event
  post_event-IsHonest req f s = go (is_empty req.tenant) (read_body req)
    where
      go :
          (missing : Bool) (got : BodyRead)
          → let plan =
              if missing
              then Plan.replies (bad_request [])
              else event_plan c g ra e req.tenant got in
            let r = with_given plan (f, s) in IsHonest g req.tenant f r.1.0 r.0
      go true got = IsHonest.refused (omega arith) refl refl
      go false (BodyRead.whole text) = take_event-IsHonest req.tenant text f s
      go false BodyRead.too_big = IsHonest.refused (omega arith) refl refl
      go false BodyRead.aborted = IsHonest.refused (omega arith) refl refl
