-- ===== src/Server.antt =====
-- cmd/killswitch/server.go: the handlers of the API, over the holder and the World it gives them. A
-- handler answers at once or asks the holder for a World first. What the JSON decoder makes of a
-- body is an input: the fields it has filled and whether it succeeded.
pub mod Controls
pub mod Refusals
pub mod Events
pub mod Honest
pub mod Reads
pub mod Stream
use cmek.Base.{
  ℕ, zero, suc, ◌-◌, Bytes, codes, [], Option, none, some, Bool, true, false, ltb, if◌then◌else◌,
  set_at,
}
use cmek.World.Params.{Params}
use cmek.World.Switches.{Checked}
use cmek.World.Details.{TenantDetail, HealthInfo}
use cmek.World.Holder.{Holder, Given, ensure, current, let_hold_go, put}

pub data Body : Type 0 where
  empty : Body
  error : (reason tenant : Bytes) → (retry : ℕ) → Body
  event : (id : ℕ) → (tenant : Bytes) → Body
  surge : (tenant : Bytes) → (multiplier : ℕ) → Body
  ran : Bytes → Body
  world : ℕ → Body
  detail : TenantDetail → Body
  health : HealthInfo → Body

-- The status, the Retry-After header and the body.
pub record Response : Type 0 where
  pub status : ℕ
  pub retry_after : Option ℕ
  pub body : Body

-- `writeJSON`.
abbrev pub respond : ℕ → Body → Response
respond status body = record { status = status; retry_after = none; body = body }

abbrev pub refuse : ℕ → Bytes → Bytes → Response
refuse status reason tenant = respond status (Body.error reason tenant 0)

abbrev pub bad_request : Bytes → Response
bad_request tenant = refuse 400 (codes "bad_request") tenant

abbrev pub no_world_reply : Response
no_world_reply = refuse 503 (codes "no_world") []

-- A body as the decoder leaves it: its fields, and whether there was no error.
pub record Decoded (A : Type 0) : Type 0 where
  pub value : A
  pub ok : Bool

-- What a handler does: it answers, or asks Ensure or Current for the World and goes on with it.
pub data Plan (S : Type 0) : Type 0 where
  replies : Response → Plan S
  ensures : (S → Response × S) → Plan S
  looks : (S → Response × S) → Plan S

-- The Worlds' states besides what the holder keeps, and the holder.
pub record Service (S : Type 0) : Type 0 where
  pub states : ℕ → S
  pub holder : Holder

module _ {S : Type 0} where
  -- The handler when there is a World.
  abbrev pub with_given : Plan S → S → Response × S
  with_given (Plan.replies r) x = (r, x)
  with_given (Plan.ensures f) x = f x
  with_given (Plan.looks f) x = f x

  -- The handler with a World it was with_given, and its deferred let_hold_go.
  abbrev pub with_world : (S → Response × S) → (ℕ → S) → Given × Holder → Response × Service S
  with_world f states (Given.holds i, h) =
      let r = f (states i) in
      (
        r.0,
        record { states = set_at i r.1 states; holder = put i (let_hold_go 0 none (h.sites i)) h },
      )
  with_world f states (_, h) = (no_world_reply, record { states = states; holder = h })

  -- Serves a request; `opens` is whether a World that has to be built can be.
  unfoldable pub serve : Params → Bool → Plan S → Service S → Response × Service S
  unfolding ensure current let_hold_go
  serve p opens (Plan.replies r) s = (r, s)
  serve p opens (Plan.ensures f) s = with_world f s.states (ensure p opens s.holder)
  serve p opens (Plan.looks f) s = with_world f s.states (current s.holder)

-- `controlOutcome`.
unfoldable pub control_outcome : Checked (Unit {0}) → Bytes → Response
control_outcome (Checked.fine u) tenant = respond 204 Body.empty
control_outcome Checked.unknown_tenant tenant = refuse 404 (codes "unknown_tenant") tenant
control_outcome Checked.bad_fault tenant = bad_request tenant
