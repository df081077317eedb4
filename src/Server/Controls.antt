-- ===== src/Server/Controls.antt =====
-- cmd/killswitch/server.go: the handlers that change a World's switches and scenarios, and with
-- them StartScenario's and StopScenario's part in world/scenarios.go.
use cmek.Base.{
  ℕ, suc, Bytes, codes, same, Map, lookup, List, [], ◌∷◌, Option, none, some, if◌then◌else◌,
}
use cmek.Base.Int.{ℤ, pos}
use cmek.World.Switches.{
  Plant, Knobs, Checked, FaultRequest, ◌>>=◌, fault_scope, fault_for, inject, index_of, surge_rate,
  set_key, set_fetch_all,
}
use cmek.World.Scripts.{Script, Switch, flip_all}
use cmek.World.Scenarios.{
  Scenario, Stage, Started, start_scenario, signal_restore, free_slot, leave_targets, hide_card,
}
use cmek.Server.{Body, Response, Decoded, Plan, respond, refuse, bad_request, control_outcome}

-- What the handlers touch of a World: the switches, the runner's slot with its card, and the
-- scenarios by their names.
pub record Board : Type 0 where
  pub plant : Plant
  pub knobs : Knobs
  pub stage : Stage
  pub defs : Map Scenario
  pub scripts : Map Script

-- `keyfetch`.
unfoldable pub keyfetch : Decoded Bytes → Plan Board
unfolding set_fetch_all control_outcome
keyfetch d =
    if d.ok
    then Plan.ensures (λ b.
      let r = set_fetch_all d.value b.knobs in (control_outcome r.0 [], record b { knobs = r.1 }))
    else Plan.replies (bad_request [])

-- The body of POST /v1/traffic; a multiplier counts parts of a million.
pub record TrafficRequest : Type 0 where
  pub tenant : Bytes
  pub multiplier : ℤ

abbrev pub positive_of : ℤ → Option ℕ
positive_of (pos (suc n)) = some (suc n)
positive_of _ = none

abbrev pub echo : Bytes → ℕ → Checked (Unit {0}) → Response
echo tenant x (Checked.fine u) = respond 200 (Body.surge tenant x)
echo tenant x err = control_outcome err tenant

-- `traffic`.
abbrev pub surge_plan : Bytes → Option ℕ → Plan Board
surge_plan tenant none = Plan.replies (bad_request tenant)
surge_plan tenant (some x) = Plan.ensures (λ b.
    let r = surge_rate b.plant tenant x b.knobs in (echo tenant x r.0, record b { knobs = r.1 }))

unfoldable pub traffic : Decoded TrafficRequest → Plan Board
unfolding surge_rate control_outcome
traffic d = surge_plan d.value.tenant (if d.ok then positive_of d.value.multiplier else none)

-- The first phase's `enter`.
abbrev pub enter_first : Plant → ℕ → Option Script → Knobs → Knobs
enter_first w at none k = k
enter_first w at (some s) k = enter_phases s.phases
  where
    enter_phases : List (List Switch) → Knobs
    enter_phases [] = k
    enter_phases (xs ∷ rest) = flip_all w at xs k

abbrev pub start_reply : Plant → ℕ → Bytes → Map Script → Started × Stage → Board → Response × Board
start_reply w at name scripts (Started.started, s) b = (
  respond 200 (Body.ran name),
  record b { stage = s; knobs = enter_first w at (lookup name scripts) b.knobs },
)
start_reply w at name scripts (Started.busy, s) b =
    (refuse 409 (codes "busy") [], record b { stage = s })
start_reply w at name scripts (Started.unknown, s) b =
    (refuse 404 (codes "unknown_scenario") [], record b { stage = s })

-- `scenarioStart`.
unfoldable pub scenario_start : ℕ → ℕ → Bytes → Plan Board
unfolding start_scenario flip_all
scenario_start now at name =
    Plan.ensures
      (λ b. start_reply b.plant at name b.scripts (start_scenario b.defs now name b.stage) b)

-- What is left once a cancelled run has gone through its exit.
abbrev pub cancelled : ℕ → ℕ → Bytes → Board → Board
cancelled now at name b = record b {
  stage = hide_card now (leave_targets (free_slot b.stage));
  knobs = elim (lookup name b.scripts) [
    | none ↦ b.knobs
    | some s ↦ flip_all b.plant at s.exit b.knobs
  ];
}

-- `StopScenario`, when nothing else happens while it waits for the run's exit.
unfoldable pub stop_scenario : ℕ → ℕ → Option Scenario → Board → Bytes × Board
unfolding free_slot leave_targets hide_card flip_all
stop_scenario now at none b = ([], b)
stop_scenario now at (some sc) b = (sc.name, cancelled now at sc.name b)

-- `scenarioStop`.
unfoldable pub scenario_stop : ℕ → ℕ → Plan Board
unfolding stop_scenario
scenario_stop now at =
    Plan.ensures
      (λ b. let r = stop_scenario now at b.stage.cur b in (respond 200 (Body.ran r.0), r.1))

-- `Fault` of world.go, with its error.
unfoldable pub fault : Plant → FaultRequest → Knobs → Checked (Unit {0}) × Knobs
unfolding fault_scope fault_for inject
fault w f k =
    (fault_scope w f >>= λ scope. fault_for f >>= λ installed. Checked.fine tt, inject w f k)

-- `faults`.
unfoldable pub faults : Decoded FaultRequest → Plan Board
unfolding fault control_outcome
faults d =
    if d.ok
    then Plan.ensures (λ b.
      let r = fault b.plant d.value b.knobs in
      (control_outcome r.0 d.value.tenant, record b { knobs = r.1 }))
    else Plan.replies (bad_request [])

-- `SetKey` of world.go: a restore also signals the running scenario.
abbrev pub signalled : Bytes → Option ℕ → Stage → Stage
signalled action none s = s
signalled action (some i) s = if same action (codes "restore") then signal_restore i s else s

unfoldable pub press_key : ℕ → Bytes → Bytes → Board → Checked (Unit {0}) × Board
unfolding set_key signal_restore
press_key at tenant action b =
    let r = set_key b.plant at tenant action b.knobs in
    (r.0, record b { knobs = r.1; stage = signalled action (index_of b.plant tenant) b.stage })

-- `key`.
unfoldable pub key : ℕ → Bytes → Decoded Bytes → Plan Board
unfolding press_key control_outcome
key at tenant d =
    if d.ok
    then Plan.ensures
        (λ b. let r = press_key at tenant d.value b in (control_outcome r.0 tenant, r.1))
    else Plan.replies (bad_request [])
