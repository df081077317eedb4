-- ===== src/Server/Reads.antt =====
-- cmd/killswitch/server.go: the handlers that read a World, and the reset.
use cmek.Base.{Bytes, codes, [], Option, none, some}
use cmek.World.Switches.{Checked}
use cmek.World.Details.{Insight, TenantDetail, tenant_detail, health_of}
use cmek.World.Holder.{Given}
use cmek.Server.{Body, Response, Plan, respond, refuse, no_world_reply}

-- `health`.
unfoldable pub health_plan : Plan Insight
unfolding health_of
health_plan = Plan.looks (λ w. (respond 200 (Body.health (health_of w)), w))

abbrev pub detail_reply : Checked TenantDetail → Response
detail_reply (Checked.fine d) = respond 200 (Body.detail d)
detail_reply _ = refuse 404 (codes "unknown_tenant") []

-- `tenant`.
unfoldable pub tenant_plan : Bytes → Plan Insight
unfolding tenant_detail
tenant_plan id = Plan.looks (λ w. (detail_reply (tenant_detail w id), w))

-- `reset`, from what the holder's Reset gives; none while Reset still waits.
unfoldable pub reset_reply : Given → Option Response
reset_reply (Given.names i) = some (respond 200 (Body.world i))
reset_reply Given.waits = none
reset_reply _ = some no_world_reply
