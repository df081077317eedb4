-- ===== src/Server/Refusals.antt =====
-- What the refusals of the control handlers leave alone. The reset and the stream, which may replace
-- a World before they answer, are none of these.
use cmek.Base.{
  ℕ, ◌≤◌, ◌≡◌, ◌⊎◌, inl, inr, refl, ap, ◌∙◌, arith, Bytes, codes, same, lookup, Map, [], Option,
  none, some, Bool, true, false, is_some, ◌==◌, ◌||◌, if◌then◌else◌, set_at,
}
use cmek.World.Params.{Params}
use cmek.World.Holder.{Given, Holder, ensure, current}
use cmek.World.Switches.{
  Plant, Knobs, Checked, FaultRequest, ◌>>=◌, fault_scope, fault_for, inject, index_of, surge_rate,
  set_key, set_fetch_all, tell_all, design, surge_one, turn_key, is_empty, install_at,
}
use cmek.Kms.Fault.{Fault, Scope}
use cmek.Core.Types.{Fetch}
use cmek.World.Scenarios.{Scenario, Stage, Started, start_scenario, start_found, signal_restore}
use cmek.Server.{Response, Decoded, Plan, Service, serve, with_world, control_outcome}
use cmek.Server.Controls.{
  Board, TrafficRequest, positive_of, echo, keyfetch, traffic, start_reply, scenario_start,
  scenario_stop, fault, faults, press_key, signalled, key, surge_plan,
}

-- A request to one of the six handlers that control the current World.
pub data Request : Type 0 where
  keyfetches : Decoded Bytes → Request
  traffics : Decoded TrafficRequest → Request
  starts : Bytes → Request
  stops : Request
  injects : Decoded FaultRequest → Request
  keys : (tenant : Bytes) → Decoded Bytes → Request

-- Its handler, at the instant `now` and the key service's clock `at`.
unfoldable pub handler : ℕ → ℕ → Request → Plan Board
unfolding keyfetch traffic scenario_start scenario_stop faults key
handler now at (Request.keyfetches d) = keyfetch d
handler now at (Request.traffics d) = traffic d
handler now at (Request.starts name) = scenario_start now at name
handler now at Request.stops = scenario_stop now at
handler now at (Request.injects d) = faults d
handler now at (Request.keys tenant d) = key at tenant d

-- A refusal leaves the World as it was.
abbrev IsQuiet : Plan Board → Type 0
IsQuiet (Plan.replies r) = Unit {0}
IsQuiet (Plan.ensures f) = (b : Board) → 400 ≤ (f b).0.status → (f b).1 ≡ b
IsQuiet (Plan.looks f) = (b : Board) → 400 ≤ (f b).0.status → (f b).1 ≡ b

-- An operation succeeds or changes nothing.
abbrev Holds {ℓ} : {A : Type ℓ} → A → Checked (Unit {0}) × A → Type ℓ
Holds x r = (r.0 ≡ Checked.fine tt) ⊎ (r.1 ≡ x)

fine-status : (tenant : Bytes) → (control_outcome (Checked.fine tt) tenant).status ≡ 204
unfolding control_outcome
fine-status tenant = refl

control-Holds :
    (tenant : Bytes) (b : Board) (r : Checked (Unit {0}) × Board)
    → Holds b r
    → 400 ≤ (control_outcome r.0 tenant).status
    → r.1 ≡ b
control-Holds tenant b r (inl e) l = absurd (
    omega (
      arith,
      l,
      ap (λ (c : Checked (Unit {0})). (control_outcome c tenant).status) e,
      fine-status tenant,
    ))
control-Holds tenant b r (inr e) l = e

fetch-Holds : (k : Knobs) (c : Checked Fetch) → Holds k (tell_all k c)
fetch-Holds k (Checked.fine f) = inl refl
fetch-Holds k Checked.bad_fault = inr refl
fetch-Holds k Checked.unknown_tenant = inr refl

surge_one-Holds : (x : ℕ) (k : Knobs) (o : Option ℕ) → Holds k (surge_one x k o)
surge_one-Holds x k none = inr refl
surge_one-Holds x k (some i) = inl refl

if-Holds :
    {A : Type 0} (x : A) (b : Bool) (r s : Checked (Unit {0}) × A)
    → Holds x r
    → Holds x s
    → Holds x (if b then r else s)
if-Holds x true r s p q = p
if-Holds x false r s p q = q

surge-Holds : (w : Plant) (tenant : Bytes) (x : ℕ) (k : Knobs) → Holds k (surge_rate w tenant x k)
unfolding surge_rate
surge-Holds w tenant x k =
    if-Holds k (is_empty tenant) _ _ (inl refl) (surge_one-Holds x k (index_of w tenant))

turn_key-Holds :
    (w : Plant) (at : ℕ) (action : Bytes) (k : Knobs) (o : Option ℕ)
    → Holds k (turn_key w at action k o)
turn_key-Holds w at action k none = inr refl
turn_key-Holds w at action k (some i) =
    if-Holds k (same action (codes "revoke")) _ _ (inl refl)
      (if-Holds k (same action (codes "restore")) _ _ (inl refl) (inr refl))

two-Holds :
    (b : Board) (revoked restored : Knobs) (signals : Stage) (p q : Bool)
    → let r : Checked (Unit {0}) × Knobs =
        if p
        then (Checked.fine tt, revoked)
        else if q
        then (Checked.fine tt, restored)
        else (Checked.bad_fault, b.knobs) in
      Holds b (r.0, record b { knobs = r.1; stage = if q then signals else b.stage })
two-Holds b revoked restored signals true q = inl refl
two-Holds b revoked restored signals false true = inl refl
two-Holds b revoked restored signals false false = inr refl

-- A key's action that is refused signals no scenario.
press_key-Holds :
    (at : ℕ) (tenant action : Bytes) (b : Board) → Holds b (press_key at tenant action b)
unfolding press_key set_key
press_key-Holds at tenant action b = go (index_of b.plant tenant)
  where
    go :
        (o : Option ℕ)
        → Holds b (
          (turn_key b.plant at action b.knobs o).0,
          record b {
            knobs = (turn_key b.plant at action b.knobs o).1;
            stage = signalled action o b.stage;
          },
        )
    go none = inr refl
    go (some i) =
        two-Holds b _ _ (signal_restore i b.stage) (same action (codes "revoke"))
          (same action (codes "restore"))

fault-Holds : (w : Plant) (f : FaultRequest) (k : Knobs) → Holds k (fault w f k)
unfolding fault inject
fault-Holds w f k = go (fault_scope w f) (fault_for f)
  where
    go :
        (scope : Checked Scope) (made : Checked Fault)
        → Holds k (scope >>= λ s. made >>= λ m. Checked.fine tt, install_at scope made k)
    go (Checked.fine s) (Checked.fine m) = inl refl
    go (Checked.fine s) Checked.bad_fault = inr refl
    go (Checked.fine s) Checked.unknown_tenant = inr refl
    go Checked.bad_fault made = inr refl
    go Checked.unknown_tenant made = inr refl

-- A scenario that is not start_reply changes nothing.
started-Holds :
    (w : Plant) (at : ℕ) (name : Bytes) (b : Board) (r : Started × Stage)
    → (r.0 ≡ Started.started) ⊎ (r.1 ≡ b.stage)
    → 400 ≤ (start_reply w at name b.scripts r b).0.status
    → (start_reply w at name b.scripts r b).1 ≡ b
started-Holds w at name b (Started.started, s) e l = absurd (omega (arith, l))
started-Holds w at name b (Started.busy, s) (inl e) l = absurd cc
started-Holds w at name b (Started.busy, s) (inr e) l = ap (λ (t : Stage). record b { stage = t }) e
started-Holds w at name b (Started.unknown, s) (inl e) l = absurd cc
started-Holds w at name b (Started.unknown, s) (inr e) l =
    ap (λ (t : Stage). record b { stage = t }) e

start-Holds :
    (defs : Map Scenario) (now : ℕ) (name : Bytes) (s : Stage)
    → ((start_scenario defs now name s).0 ≡ Started.started)
      ⊎ ((start_scenario defs now name s).1 ≡ s)
unfolding start_scenario
start-Holds defs now name s = go (is_some s.cur || s.is_stopping) (lookup name defs)
  where
    go :
        (busy : Bool) (found : Option Scenario)
        → let r = if busy then (Started.busy, s) else start_found now s found in
          (r.0 ≡ Started.started) ⊎ (r.1 ≡ s)
    go true found = inr refl
    go false none = inr refl
    go false (some sc) = inl refl

-- A request that was answered with a surge's error changed nothing.
echo-status :
    (tenant : Bytes) (x : ℕ) (b : Board) (r : Checked (Unit {0}) × Knobs)
    → Holds b.knobs r
    → 400 ≤ (echo tenant x r.0).status
    → r.1 ≡ b.knobs
echo-status tenant x b r (inr e) l = e
echo-status tenant x b r (inl e) l = absurd (omega (arith, l, ap (λ c. (echo tenant x c).status) e))

knobs-Holds :
    (tenant : Bytes) (b : Board) (r : Checked (Unit {0}) × Knobs)
    → Holds b.knobs r
    → 400 ≤ (control_outcome r.0 tenant).status
    → (record b { knobs = r.1 }) ≡ b
knobs-Holds tenant b r (inl e) l =
    absurd (omega (arith, l, ap (λ c. (control_outcome c tenant).status) e, fine-status tenant))
knobs-Holds tenant b r (inr e) l = ap (λ (k : Knobs). record b { knobs = k }) e

if-IsQuiet : (ok : Bool) (p q : Plan Board) → IsQuiet p → IsQuiet q → IsQuiet (if ok then p else q)
if-IsQuiet true p q v w = v
if-IsQuiet false p q v w = w

surge-IsQuiet : (tenant : Bytes) (o : Option ℕ) → IsQuiet (surge_plan tenant o)
surge-IsQuiet tenant none = tt
surge-IsQuiet tenant (some x) = λ b l.
    ap (λ (k : Knobs). record b { knobs = k })
      (echo-status tenant x b (surge_rate b.plant tenant x b.knobs)
        (surge-Holds b.plant tenant x b.knobs) l)

handler-IsQuiet : (now at : ℕ) (r : Request) → IsQuiet (handler now at r)
unfolding handler keyfetch traffic scenario_start scenario_stop faults key set_fetch_all
handler-IsQuiet now at (Request.keyfetches d) =
    if-IsQuiet d.ok _ _
      (λ b. knobs-Holds [] b (set_fetch_all d.value b.knobs) (fetch-Holds b.knobs (design d.value)))
      tt
handler-IsQuiet now at (Request.traffics d) =
    surge-IsQuiet d.value.tenant (if d.ok then positive_of d.value.multiplier else none)
handler-IsQuiet now at (Request.starts name) = λ b.
    started-Holds b.plant at name b (start_scenario b.defs now name b.stage)
      (start-Holds b.defs now name b.stage)
handler-IsQuiet now at Request.stops = λ b l. absurd (omega (arith, l))
handler-IsQuiet now at (Request.injects d) =
    if-IsQuiet d.ok _ _
      (λ b.
        knobs-Holds d.value.tenant b (fault b.plant d.value b.knobs)
          (fault-Holds b.plant d.value b.knobs))
      tt
handler-IsQuiet now at (Request.keys tenant d) =
    if-IsQuiet d.ok _ _
      (λ b.
        control-Holds tenant b (press_key at tenant d.value b)
          (press_key-Holds at tenant d.value b))
      tt

set_at_self : {A : Type 0} (i : ℕ) (x : A) (f : ℕ → A) (j : ℕ) → x ≡ f i → set_at i x f j ≡ f j
set_at_self {A = A} i x f j e = go (j == i) refl
  where
    go : (b : Bool) → (j == i) ≡ b → (if b then x else f j) ≡ f j
    go true q = let same : i ≡ j = ground (arith, q) in e ∙ ap f same
    go false q = refl

with_world-same :
    (f : Board → Response × Board) (states : ℕ → Board) (a : Given × Holder) (j : ℕ)
    → ((b : Board) → 400 ≤ (f b).0.status → (f b).1 ≡ b)
    → 400 ≤ (with_world f states a).0.status
    → (with_world f states a).1.states j ≡ states j
with_world-same f states (Given.holds i, h) j q l =
    set_at_self i (f (states i)).1 states j (q (states i) l)
with_world-same f states (Given.views i k, h) j q l = refl
with_world-same f states (Given.names i, h) j q l = refl
with_world-same f states (Given.no_world, h) j q l = refl
with_world-same f states (Given.waits, h) j q l = refl

-- Whatever request to one of the six control handlers (key fetch, traffic, scenario start and stop,
-- faults, a tenant's key) is refused with a status of 400 or more, it leaves the state of every World
-- as it was: switches, faults, keys, scenario and card.
pub refused_unchanged :
    (p : Params) (opens : Bool) (now at : ℕ) (r : Request) (s : Service Board) (j : ℕ)
    → 400 ≤ (serve p opens (handler now at r) s).0.status
    → (serve p opens (handler now at r) s).1.states j ≡ s.states j
unfolding serve
refused_unchanged p opens now at r s j l = go (handler now at r) (handler-IsQuiet now at r) l
  where
    go :
        (plan : Plan Board)
        → IsQuiet plan
        → 400 ≤ (serve p opens plan s).0.status
        → (serve p opens plan s).1.states j ≡ s.states j
    go (Plan.replies x) q l = refl
    go (Plan.ensures f) q l = with_world-same f s.states (ensure p opens s.holder) j q l
    go (Plan.looks f) q l = with_world-same f s.states (current s.holder) j q l
