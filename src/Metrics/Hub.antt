-- ===== src/Metrics/Hub.antt =====
-- internal/metrics/hub.go: the viewers of the snapshots. A channel is known by the number of its
-- subscription and holds what its viewer has not read yet; the watcher's calls are kept in `told`,
-- the latest first.
pub mod Viewers
use cmek.Base.{
  ℕ, zero, suc, ◌+◌, ◌≤◌, ◌<◌, ◌≡◌, refl, arith, List, [], ◌∷◌, ◌++◌, length, drop, Bool, true,
  false, ltb, not, ◌==◌, ◌||◌, if◌then◌else◌, Bytes, Option, none, some, length-append,
}

pub record Sub : Type 0 where
  pub id : ℕ
  pub queue : List Bytes

pub record Hub : Type 0 where
  pub subs : List Sub
  pub depth : ℕ
  pub is_closed : Bool
  pub told : List ℕ
  pub given : ℕ
  pub cancelled : List ℕ

-- `newHub`.
abbrev pub new_hub : ℕ → Hub
new_hub depth = record {
  subs = [];
  depth = if ltb depth 1 then 1 else depth;
  is_closed = false;
  told = [];
  given = 0;
  cancelled = [];
}

abbrev pub notify : Hub → Hub
notify h = record h { told = length h.subs ∷ h.told }

-- `subscribe`: the number of the subscription; on a closed hub the channel is closed at once.
unfoldable pub subscribe : Hub → ℕ × Hub
subscribe h =
    let named = record h { given = suc h.given } in
    if h.is_closed
    then (h.given, record named { cancelled = h.given ∷ h.cancelled })
    else (h.given, notify (record named { subs = record { id = h.given; queue = [] } ∷ h.subs }))

abbrev pub remove : ℕ → List Sub → List Sub
remove i [] = []
remove i (s ∷ subs) = if s.id == i then remove i subs else s ∷ remove i subs

abbrev pub was_cancelled : ℕ → List ℕ → Bool
was_cancelled i [] = false
was_cancelled i (j ∷ js) = j == i || was_cancelled i js

-- The cancel function of a subscription, which runs once.
unfoldable pub cancel : ℕ → Hub → Hub
cancel i h =
    if was_cancelled i h.cancelled
    then h
    else let left = record h { subs = remove i h.subs; cancelled = i ∷ h.cancelled } in
      if h.is_closed then left else notify left

-- A send that does not block.
abbrev pub offer : ℕ → Bytes → Sub → Sub
offer depth b s = if ltb (length s.queue) depth then record s { queue = s.queue ++ b ∷ [] } else s

abbrev pub offer_all : ℕ → Bytes → List Sub → List Sub
offer_all depth b [] = []
offer_all depth b (s ∷ subs) = offer depth b s ∷ offer_all depth b subs

unfoldable pub broadcast : Bytes → Hub → Hub
broadcast b h = record h { subs = offer_all h.depth b h.subs }

unfoldable pub close_all : Hub → Hub
close_all h = record h { is_closed = true; subs = []; told = 0 ∷ h.told }

-- A viewer that takes the oldest snapshot off its channel.
abbrev pub pop : Sub → Sub
pop s = record s { queue = drop 1 s.queue }

abbrev pub take_from : ℕ → List Sub → List Sub
take_from i [] = []
take_from i (s ∷ subs) = (if s.id == i then pop s else s) ∷ take_from i subs

pub data Deed : Type 0 where
  subscribes : Deed
  cancels : ℕ → Deed
  broadcasts : Bytes → Deed
  reads : ℕ → Deed
  closes : Deed

unfoldable pub act : Deed → Hub → Hub
unfolding subscribe cancel broadcast close_all
act Deed.subscribes h = (subscribe h).1
act (Deed.cancels i) h = cancel i h
act (Deed.broadcasts b) h = broadcast b h
act (Deed.reads i) h = record h { subs = take_from i h.subs }
act Deed.closes h = close_all h
