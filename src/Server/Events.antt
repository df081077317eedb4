-- ===== src/Server/Events.antt =====
-- cmd/killswitch/server.go: POST /v1/post_event, over the front door of world/ingest.go. What the
-- network delivers of a body is an input: its bytes so far, and whether it was cut off.
use cmek.Base.{ℕ, Bytes, codes, [], length, none, some, Bool, ltb, if◌then◌else◌}
use cmek.Core.Types.{Config}
use cmek.Core.Run.{Env, St}
use cmek.World.Ingest.{RetryAfter, HttpReply, IngestResult, Gateway, Front, outcome, ingest_id}
use cmek.World.Switches.{is_empty}
use cmek.Server.{Body, Response, Plan, respond, refuse, bad_request}

-- X-Tenant-ID, empty when missing, and the body.
pub record EventRequest : Type 0 where
  pub tenant : Bytes
  pub body : Bytes
  pub is_cut : Bool

abbrev pub max_body : ℕ
max_body = 65_536

-- What reading the body through MaxBytesReader gives.
pub data BodyRead : Type 0 where
  whole : Bytes → BodyRead
  too_big : BodyRead
  aborted : BodyRead

unfoldable pub read_body : EventRequest → BodyRead
read_body r =
    if ltb max_body (length r.body)
    then BodyRead.too_big
    else if r.is_cut
    then BodyRead.aborted
    else BodyRead.whole r.body

abbrev pub with_retry : Bytes → HttpReply → Response
with_retry tenant o = record {
  status = o.status;
  retry_after = if ltb 0 o.retry_after then some o.retry_after else none;
  body = Body.error o.reason tenant o.retry_after;
}

-- The answer to an event that has been through IngestID.
unfoldable pub event_answer : RetryAfter → Bytes → IngestResult → Response
unfolding outcome
event_answer ra tenant (IngestResult.accepted id) =
    respond (outcome none ra).status (Body.event id tenant)
event_answer ra tenant (IngestResult.failed err) = with_retry tenant (outcome (some err) ra)

module _ (c : Config) (g : Gateway) (ra : RetryAfter) (e : Env) where
  -- The front door with the record of the event's tenant.
  unfoldable pub take_event : Bytes → Bytes → Front × St → Response × (Front × St)
  unfolding ingest_id event_answer
  take_event tenant text (f, s) =
      let r = ingest_id c g tenant text f e s in (event_answer ra tenant r.0.0, (r.0.1, r.1))

  abbrev pub event_plan : Bytes → BodyRead → Plan (Front × St)
  event_plan tenant (BodyRead.whole text) = Plan.ensures (take_event tenant text)
  event_plan tenant BodyRead.too_big = Plan.replies (refuse 413 (codes "bad_request") tenant)
  event_plan tenant BodyRead.aborted = Plan.replies (bad_request tenant)

  -- `post_event`.
  unfoldable pub post_event : EventRequest → Plan (Front × St)
  unfolding take_event read_body
  post_event r =
      if is_empty r.tenant then Plan.replies (bad_request []) else event_plan r.tenant (read_body r)
