-- ===== src/World/Holder.antt =====
-- internal/world/holder.go, with what it uses of world.go: the viewers' watcher, IdleFor, hold and
-- Stop. A World is known by the number of its build. Whether New opens its database is an input of
-- every call, and Stop's wait is a state of the holder's lock.
pub mod Watching
pub mod Lives
pub mod Stops
pub mod Histories
use cmek.Base.{
  ℕ, zero, suc, ◌+◌, ◌-◌, ◌*◌, ◌/◌, ◌≤◌, ◌≡◌, List, [], ◌∷◌, length, Option, none, some, Bool, true,
  false, ltb, ◌==◌, ◌&&◌, if◌then◌else◌, set_at,
}
use cmek.Metrics.Hub.{Hub, new_hub, subscribe, cancel, close_all}
use cmek.World.Params.{Params}

-- What the holder sees of a World: its viewers, the instant since when it has none (0 while it is
-- watched), the gate of its traffic, the handlers that hold it, the goroutines that its WaitGroup
-- counts, and how far it is stopped. `is_late` is Stop's log line of a goroutine or handler that
-- still runs. The probes and warms that the core starts itself are counted nowhere in the source.
pub record Site : Type 0 where
  pub hub : Hub
  pub idle_since : ℕ
  pub is_running : Bool
  pub holds : ℕ
  pub tasks : ℕ
  pub is_cancelled : Bool
  pub is_closed : Bool
  pub is_late : Bool

-- `watcher.Viewers`.
unfoldable pub hear : ℕ → ℕ → Site → Site
hear now zero s = record s { idle_since = now / 1_000_000; is_running = false }
hear now (suc n) s = record s { is_running = true; idle_since = 0 }

-- The World after a call of its hub, which told the watcher its count or told it nothing.
unfoldable pub heard : ℕ → List ℕ → Site → Site
unfolding hear
heard now [] s = s
heard now (n ∷ ns) s = if length (n ∷ ns) == length s.hub.told then s else hear now n s

abbrev pub with_hub : ℕ → Hub → Site → Site
with_hub now h s =
    let w = heard now h.told s in
    record s { hub = h; idle_since = w.idle_since; is_running = w.is_running }

-- `IdleFor`.
unfoldable pub idle_for : ℕ → Site → ℕ
idle_for now s = if s.idle_since == 0 then 0 else now - s.idle_since * 1_000_000

-- A World that New has built and Start has launched its five goroutines in.
abbrev pub started : Params → Site
started p = record {
  hub = new_hub p.viewer_queue;
  idle_since = 0;
  is_running = false;
  holds = 0;
  tasks = 5;
  is_cancelled = false;
  is_closed = false;
  is_late = false;
}

-- A number that no World has: nothing runs in it and its database is not open.
abbrev pub absent : Params → Site
absent p = record (started p) { tasks = 0; is_cancelled = true; is_closed = true }

-- The handler's calls that may stop a World first.
pub data Call : Type 0 where
  acquires resets : Call

pub data Lock : Type 0 where
  unlocked : Lock
  stopping : Call → (i : ℕ) → (since : ℕ) → Lock

-- The Worlds that were built are those numbered from 1 to `seq`.
pub record Holder : Type 0 where
  pub cur : Option ℕ
  pub seq : ℕ
  pub sites : ℕ → Site
  pub lock : Lock

-- `NewHolder`.
abbrev pub new_holder : Params → Holder
new_holder p = record { cur = none; seq = 0; sites = λ i. absent p; lock = Lock.unlocked }

-- What a handler is given: a viewer's channel, a World that it holds, the World's name, nothing, or
-- it waits for Stop.
pub data Given : Type 0 where
  views : (i channel : ℕ) → Given
  holds : ℕ → Given
  names : ℕ → Given
  no_world : Given
  waits : Given

-- `build`.
unfoldable pub build : Params → Bool → Holder → Option ℕ × Holder
build p opens h =
    let n = suc h.seq in
    if opens
    then (some n, record h { seq = n; cur = some n; sites = set_at n (started p) h.sites })
    else (none, record h { seq = n; cur = none })

-- `if h.cur == nil && h.build() == nil`, and the current World otherwise.
abbrev pub cur_or_build : Params → Bool → Holder → Option ℕ → Option ℕ × Holder
cur_or_build p opens h none = build p opens h
cur_or_build p opens h (some i) = (some i, h)

abbrev pub put : ℕ → Site → Holder → Holder
put i s h = record h { sites = set_at i s h.sites }

-- `hold`.
abbrev pub held : Site → Site
held s = record s { holds = suc s.holds }

-- `Subscribe`, through the watcher.
unfoldable pub view : ℕ → Site → ℕ × Site
unfolding subscribe heard
view now s = let r = subscribe s.hub in (r.0, held (with_hub now r.1 s))

abbrev pub give_view : ℕ → Option ℕ × Holder → Given × Holder
give_view now (none, h) = (Given.no_world, h)
give_view now (some i, h) = let v = view now (h.sites i) in (Given.views i v.0, put i v.1 h)

abbrev pub give_hold : Option ℕ × Holder → Given × Holder
give_hold (none, h) = (Given.no_world, h)
give_hold (some i, h) = (Given.holds i, put i (held (h.sites i)) h)

-- The first half of `Stop`: no new work, and every channel is closed.
unfoldable pub cancel_site : ℕ → Site → Site
unfolding close_all heard
cancel_site now s = record (with_hub now (close_all s.hub) s) { is_cancelled = true }

unfoldable pub begin_stop : Call → ℕ → ℕ → Holder → Given × Holder
unfolding cancel_site
begin_stop call now i h = (
  Given.waits,
  record (put i (cancel_site now (h.sites i)) h) { lock = Lock.stopping call i now },
)

-- Whether nobody has watched a World for longer than IdleRebuild.
unfoldable pub is_idle : Params → ℕ → Site → Bool
unfolding idle_for
is_idle p now s = length s.hub.subs == 0 && ltb p.idle_rebuild (idle_for now s)

-- The part of `Acquire` past the idle rule.
unfoldable pub acquire_now : Params → ℕ → Bool → Holder → Given × Holder
unfolding build view
acquire_now p now opens h = give_view now (cur_or_build p opens h h.cur)

abbrev pub acquire_from : Params → ℕ → Bool → Holder → Option ℕ → Given × Holder
acquire_from p now opens h none = acquire_now p now opens h
acquire_from p now opens h (some i) =
    if is_idle p now (h.sites i)
    then begin_stop Call.acquires now i h
    else acquire_now p now opens h

unfoldable pub acquire : Params → ℕ → Bool → Holder → Given × Holder
unfolding is_idle begin_stop acquire_now
acquire p now opens h = acquire_from p now opens h h.cur

unfoldable pub ensure : Params → Bool → Holder → Given × Holder
unfolding build
ensure p opens h = give_hold (cur_or_build p opens h h.cur)

unfoldable pub current : Holder → Given × Holder
current h = give_hold (h.cur, h)

-- `Reset` returns the World without a hold.
abbrev pub give_id : Option ℕ × Holder → Given × Holder
give_id (none, h) = (Given.no_world, h)
give_id (some i, h) = (Given.names i, h)

abbrev pub reset_from : Params → ℕ → Bool → Holder → Option ℕ → Given × Holder
reset_from p now opens h none = give_id (build p opens h)
reset_from p now opens h (some i) = begin_stop Call.resets now i h

unfoldable pub reset : Params → ℕ → Bool → Holder → Given × Holder
unfolding begin_stop build
reset p now opens h = reset_from p now opens h h.cur

-- The end of `Stop` and the rest of the call that stopped the World.
abbrev pub closed : Bool → Site → Site
closed late s = record s { is_closed = true; is_late = late }

abbrev pub go_on : Params → ℕ → Bool → Call → Holder → Given × Holder
go_on p now opens Call.acquires h = acquire_now p now opens h
go_on p now opens Call.resets h = give_id (build p opens h)

unfoldable pub end_stop : Params → ℕ → Bool → Bool → Call → ℕ → Holder → Given × Holder
unfolding acquire_now build
end_stop p now opens late call i h =
    go_on p now opens call
      (record (put i (closed late (h.sites i)) h) { cur = none; lock = Lock.unlocked })

-- A handler's let_hold_go: it gives its hold back, a stream handler its channel first.
unfoldable pub let_hold_go : ℕ → Option ℕ → Site → Site
unfolding cancel heard
let_hold_go now none s = record s { holds = s.holds - 1 }
let_hold_go now (some k) s =
    let left = with_hub now (cancel k s.hub) s in record left { holds = left.holds - 1 }

-- One step of any handler or goroutine. The calls need the holder's lock, which Stop keeps.
pub data HolderStep (p : Params) : Holder → Holder → Type 0 where
  acquires :
      (now : ℕ) (opens : Bool) (h : Holder)
      → h.lock ≡ Lock.unlocked
      → HolderStep p h (acquire p now opens h).1
  ensures :
      (opens : Bool) (h : Holder) → h.lock ≡ Lock.unlocked → HolderStep p h (ensure p opens h).1
  looks : (h : Holder) → h.lock ≡ Lock.unlocked → HolderStep p h (current h).1
  resets :
      (now : ℕ) (opens : Bool) (h : Holder)
      → h.lock ≡ Lock.unlocked
      → HolderStep p h (reset p now opens h).1
  drains :
      (now : ℕ) (opens : Bool) (call : Call) (i since : ℕ) (h : Holder)
      → h.lock ≡ Lock.stopping call i since
      → (h.sites i).holds ≡ 0
      → (h.sites i).tasks ≡ 0
      → HolderStep p h (end_stop p now opens false call i h).1
  times_out :
      (now : ℕ) (opens : Bool) (call : Call) (i since : ℕ) (h : Holder)
      → h.lock ≡ Lock.stopping call i since
      → since + p.stop_timeout ≤ now
      → HolderStep p h (end_stop p now opens true call i h).1
  releases :
      (now i n : ℕ) (channel : Option ℕ) (h : Holder)
      → (h.sites i).holds ≡ suc n
      → HolderStep p h (put i (let_hold_go now channel (h.sites i)) h)
  task_starts :
      (i : ℕ) (h : Holder)
      → (h.sites i).is_cancelled ≡ false
      → HolderStep p h (put i (record (h.sites i) { tasks = suc (h.sites i).tasks }) h)
  task_ends :
      (i n : ℕ) (h : Holder)
      → (h.sites i).tasks ≡ suc n
      → HolderStep p h (put i (record (h.sites i) { tasks = n }) h)

-- Any number of steps from a new holder.
pub data Reached (p : Params) : Holder → Type 0 where
  fresh : Reached p (new_holder p)
  turned : (h h' : Holder) → Reached p h → HolderStep p h h' → Reached p h'
