-- ===== src/Checker/Episodes.antt =====
-- The checker's windows against the ground-truth log.
use cmek.Base.{
  ℕ, ◌≡◌, refl, arith, List, [], ◌∷◌, ◌++◌, map, none, Bool, true, false, not, ◌==◌, ◌||◌,
  if◌then◌else◌,
}
use cmek.Kms.Fake.{KeyEvent}
use cmek.Checker.{
  Window, is_open, close_one, has_open, note_event, pair_events, place_window, sort_windows,
  windows,
}

-- Whether the last of a tenant's events left its key enabled, which it is before the first one.
unfoldable pub enabled_after : ℕ → Bool → List KeyEvent → Bool
enabled_after i b [] = b
enabled_after i b (e ∷ es) = enabled_after i (if e.idx == i then e.enabled else b) es

has_open-append :
    (i : ℕ) (ws : List Window) (w : Window)
    → has_open i (ws ++ w ∷ []) ≡ (has_open i ws || is_open i w)
unfolding has_open
has_open-append i [] w = ground arith
has_open-append i (v ∷ ws) w = ground (arith, has_open-append i ws w)

has_open-close :
    (i j at : ℕ) (ws : List Window)
    → has_open i (map (close_one j at) ws) ≡ (if j == i then false else has_open i ws)
unfolding has_open
has_open-close i j at [] = ground arith
has_open-close i j at (w ∷ ws) = ground (arith, has_open-close i j at ws)

has_open-note_event :
    (i : ℕ) (e : KeyEvent) (ws : List Window)
    → has_open i (note_event e ws) ≡ (if e.idx == i then not e.enabled else has_open i ws)
unfolding note_event
has_open-note_event i e ws = ground (
  arith,
  has_open-append i ws (record { idx = e.idx; revoke = e.at; restore = none }),
  has_open-close i e.idx e.at ws,
)

has_open-pair_events :
    (i : ℕ) (b : Bool) (es : List KeyEvent) (ws : List Window)
    → has_open i ws ≡ not b
    → has_open i (pair_events es ws) ≡ not (enabled_after i b es)
unfolding pair_events enabled_after
has_open-pair_events i b [] ws h = h
has_open-pair_events i b (e ∷ es) ws h =
    has_open-pair_events i (if e.idx == i then e.enabled else b) es (note_event e ws)
      (ground (arith, has_open-note_event i e ws))

has_open-place_window :
    (i : ℕ) (w : Window) (ws : List Window)
    → has_open i (place_window w ws) ≡ (is_open i w || has_open i ws)
unfolding has_open place_window
has_open-place_window i w [] = ground arith
has_open-place_window i w (v ∷ ws) = ground (arith, has_open-place_window i w ws)

has_open-sort_windows :
    (i : ℕ) (ws out : List Window)
    → has_open i (sort_windows ws out) ≡ (has_open i ws || has_open i out)
unfolding has_open sort_windows
has_open-sort_windows i [] out = ground arith
has_open-sort_windows i (w ∷ ws) out =
    ground (arith, has_open-sort_windows i ws (place_window w out), has_open-place_window i w out)

-- A tenant has an open window in the checker's list exactly when the last of its events in the
-- ground-truth log is a revoke, repeated events included.
pub windows-has_open :
    (i : ℕ) (events : List KeyEvent)
    → has_open i (windows events) ≡ not (enabled_after i true events)
unfolding windows
windows-has_open i events = ground (
  arith,
  has_open-sort_windows i (pair_events events []) [],
  has_open-pair_events i true events [] empty,
  empty,
)
  where
    empty : has_open i [] ≡ false
    empty = unfold has_open in refl
