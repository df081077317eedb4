-- ===== src/Checker.antt =====
-- internal/check/checker.go: the verdicts on the stored rows, the sink and the ground truth. The
-- texts of the details are left out: a verdict is its colour and its count.
pub mod Episodes
pub mod Revocation
pub mod Pass
use cmek.Base.{
  ℕ, zero, suc, ◌+◌, ◌-◌, ◌*◌, ◌/◌, ◌≤◌, ◌<◌, ◌≡◌, refl, arith, Bytes, codes, same, List, [], ◌∷◌,
  ◌++◌, map, Option, none, some, is_some, Bool, true, false, ltb, leb, not, ◌==◌, ◌&&◌, ◌||◌,
  if◌then◌else◌,
}
use cmek.Kms.Fake.{KeyEvent}
use cmek.Queue.Store.{Census, census}
use cmek.Queue.Histories.{Act, history, AllProper, empty_store, census_conserves}

-- What is reported of one light: green or red, with the count of violations so far.
pub record Verdict : Type 0 where
  pub is_green : Bool
  pub count : ℕ

-- `s1`: its state is the last scan and the hits so far. `none` is a scan that failed.
unfoldable pub s1_due : ℕ → ℕ → ℕ → Bool
s1_due every last_scan now = last_scan == 0 || not (ltb (now - last_scan) every)

unfoldable pub s1_hits : Option ℕ → ℕ → ℕ
s1_hits none hits = hits
s1_hits (some k) hits = hits + k

unfoldable pub s2 : ℕ → Verdict
s2 mismatches = record { is_green = mismatches == 0; count = mismatches }

-- `window`: an episode with no restore is still open.
pub record Window : Type 0 where
  pub idx : ℕ
  pub revoke : ℕ
  pub restore : Option ℕ

abbrev pub is_open : ℕ → Window → Bool
is_open i w = w.idx == i && not (is_some w.restore)

unfoldable pub has_open : ℕ → List Window → Bool
has_open i [] = false
has_open i (w ∷ ws) = if is_open i w then true else has_open i ws

abbrev pub close_one : ℕ → ℕ → Window → Window
close_one i at w = if is_open i w then record w { restore = some at } else w

-- One event of the loop of `windows`.
unfoldable pub note_event : KeyEvent → List Window → List Window
unfolding has_open
note_event e ws =
    if not e.enabled
    then if has_open e.idx ws
      then ws
      else ws ++ (record { idx = e.idx; revoke = e.at; restore = none } ∷ [])
    else map (close_one e.idx e.at) ws

unfoldable pub pair_events : List KeyEvent → List Window → List Window
unfolding note_event
pair_events [] ws = ws
pair_events (e ∷ es) ws = pair_events es (note_event e ws)

-- `sort.SliceStable` by tenant: a window goes behind the ones of its own tenant.
unfoldable pub place_window : Window → List Window → List Window
place_window w [] = w ∷ []
place_window w (v ∷ vs) =
    let rest = place_window w vs in if ltb w.idx v.idx then w ∷ v ∷ vs else v ∷ rest

unfoldable pub sort_windows : List Window → List Window → List Window
unfolding place_window
sort_windows [] out = out
sort_windows (w ∷ ws) out = sort_windows ws (place_window w out)

unfoldable pub windows : List KeyEvent → List Window
unfolding pair_events sort_windows
windows events = sort_windows (pair_events events []) []

-- One tenant of `s4`: the balance of the census, and the sink's own count within its bounds.
unfoldable pub is_bad : Census → (ℕ → ℕ) → ℕ → Bool
is_bad c sink i =
    let off =
      not (c.accepted i == c.delivered i + c.ready i + c.claimed i + c.expired i + c.dead i) in
    let bound = leb (c.delivered i) (sink i) && leb (sink i) (c.delivered i + c.claimed i) in
    off || not bound

-- The loop of `s4` over the tenants below `n`.
unfoldable pub bad_below : Census → (ℕ → ℕ) → ℕ → ℕ
unfolding is_bad
bad_below c sink zero = 0
bad_below c sink (suc n) = if is_bad c sink n then suc (bad_below c sink n) else bad_below c sink n

-- `s4` with the violations so far; `none` is a census that failed.
unfoldable pub s4 : ℕ → Option Census → (ℕ → ℕ) → ℕ → Verdict
unfolding bad_below
s4 n none sink so_far = record { is_green = so_far == 0; count = so_far }
s4 n (some c) sink so_far =
    let count = so_far + bad_below c sink n in record { is_green = count == 0; count = count }

abbrev pub global : Bytes → Bool
global name = same name (codes "global_surge") || same name (codes "no_cache_surge")

-- What `l1` reads of the service; a ratio counts thousandths.
pub record Health : Type 0 where
  pub scenario : Bytes
  pub is_running : Bool
  pub since : ℕ
  pub p99 : Option (ℕ × ℕ)
  pub rejections : ℕ
  pub delivered : ℕ
  pub within_shed : ℕ

pub record Thresholds : Type 0 where
  pub l1_grace : ℕ
  pub l1_for : ℕ
  pub l1_floor : ℕ
  pub l1_ratio : ℕ
  pub l4_settle : ℕ
  pub workers : ℕ
  pub claim_batch : ℕ
  pub global_cap : ℕ
  pub capacity : ℕ

-- The state of `l1` and of `l4`: the instant since which the limit is passed, zero for none, and
-- the red ticks so far.
pub record Watch : Type 0 where
  pub since : ℕ
  pub red : ℕ

abbrev green : Watch → Verdict × Watch
green w = (record { is_green = true; count = w.red }, w)

abbrev red : Watch → Verdict × Watch
red w = (record { is_green = false; count = w.red + 1 }, record w { red = w.red + 1 })

abbrev start_at : ℕ → Watch → Watch
start_at now w = if w.since == 0 then record w { since = now } else w

unfoldable pub l1_limit : Thresholds → ℕ → ℕ
l1_limit c base = c.l1_ratio * (if ltb base c.l1_floor then c.l1_floor else base) / 1000

-- `l1` once the p99 of the healthy is known.
unfoldable pub l1_judged : Thresholds → Health → ℕ → ℕ → ℕ → Watch → Verdict × Watch
unfolding l1_limit
l1_judged c h now cur base w =
    let w' = start_at now w in
    if ltb 0 h.rejections
    then red w
    else if ltb (l1_limit c base) cur
    then if ltb (now - w'.since) c.l1_for then green w' else red w'
    else green (record w { since = 0 })

unfoldable pub l1 : Thresholds → Health → ℕ → Watch → Verdict × Watch
unfolding l1_judged
l1 c h now w =
    let idle = green (record w { since = 0 }) in
    if not h.is_running || global h.scenario || ltb (now - h.since) c.l1_grace
    then idle
    else elim h.p99 [ none ↦ green w | some (cur, base) ↦ l1_judged c h now cur base w ]

-- The bound on the backlog: the cap and the overshoot of the shares.
unfoldable pub l4_bound : ℕ → ℕ → ℕ
l4_bound cap backlogged = if ltb 0 backlogged then cap + backlogged * (cap / backlogged) else cap

-- `l4` on the totals of the last census; `capacity` is already the factor's part of it.
unfoldable pub l4 : Thresholds → Health → ℕ → ℕ → ℕ → Watch → Verdict × Watch
unfolding l4_bound
l4 c h total backlogged now w =
    let w' = start_at now w in
    if not h.is_running || not (global h.scenario) || leb total (c.workers * c.claim_batch)
    then green (record w { since = 0 })
    else if ltb (now - w'.since) c.l4_settle
    then green w'
    else if ltb h.delivered c.capacity
        || ltb (l4_bound c.global_cap backlogged) total
        || ltb 0 h.within_shed
    then red w'
    else green w'

bad_below-none :
    (c : Census) (sink : ℕ → ℕ) (n : ℕ)
    → ((i : ℕ) → i < n → is_bad c sink i ≡ false)
    → bad_below c sink n ≡ 0
unfolding bad_below
bad_below-none c sink zero h = refl
bad_below-none c sink (suc n) h =
    ground (arith, h n (omega arith), bad_below-none c sink n (λ i l. h i (omega arith)))

-- The census after a history from the empty store.
abbrev pub books : ℕ → List Act → Census
books n acts = census (history acts (empty_store n))

-- The checker finds no fault with a store after a proper history, whatever failed in it: if the
-- sink has counted at least what the store has delivered and no more than that and what is
-- claimed, S4 adds no violation.
pub s4_quiet :
    (n : ℕ) (acts : List Act) (sink : ℕ → ℕ) (so_far : ℕ)
    → AllProper acts (empty_store n)
    → ((i : ℕ)
        → i < n
        → ((books n acts).delivered i ≤ sink i)
          × (sink i ≤ (books n acts).delivered i + (books n acts).claimed i))
    → (s4 n (some (books n acts)) sink so_far).count ≡ so_far
unfolding s4
s4_quiet n acts sink so_far p h =
    let balanced = (census_conserves n acts p).0 in
    omega (
      arith,
      bad_below-none (books n acts) sink n
          (λ i l. unfold is_bad in ground (arith, balanced i, h i l)),
    )
