-- ===== src/Logx.antt =====
-- internal/logx/logx.go: the throttled logger, for the lines of one message. Instants are Unix
-- milliseconds, the interval is nanoseconds. A call loads the stamp and swaps it later; what it has
-- loaded is its `seen`, so the calls of any goroutines may lie between the two.
use cmek.Base.{
  ℕ, ◌+◌, ◌/◌, ◌≤◌, ◌≡◌, refl, subst, arith, List, [], ◌∷◌, true, leb, ◌==◌, ◌&&◌, if◌then◌else◌,
  Bool-cases, inl, inr,
}

-- The stamp of the message and the instants of its lines, the latest first.
pub record Throttle : Type 0 where
  pub interval : ℕ
  pub stamp : ℕ
  pub lines : List ℕ

abbrev pub new_throttle : ℕ → Throttle
new_throttle interval = record { interval = interval; stamp = 0; lines = [] }

-- The interval in milliseconds; zero stands for a second.
unfoldable pub wait_ms : ℕ → ℕ
wait_ms interval = (if interval == 0 then 1_000_000_000 else interval) / 1_000_000

-- `Error`.
unfoldable pub log_error : (now seen : ℕ) → Throttle → Throttle
unfolding wait_ms
log_error now seen t =
    if leb (seen + wait_ms t.interval) now && t.stamp == seen
    then record t { stamp = now; lines = now ∷ t.lines }
    else t

unfoldable pub logged : ℕ → List (ℕ × ℕ) → Throttle
unfolding log_error
logged interval [] = new_throttle interval
logged interval (c ∷ calls) = log_error c.0 c.1 (logged interval calls)

-- Each line comes at least `wait` after the one before.
abbrev pub IsSpaced : ℕ → List ℕ → Type 0
IsSpaced wait [] = Unit {0}
IsSpaced wait (a ∷ []) = Unit {0}
IsSpaced wait (b ∷ a ∷ rest) = (a + wait ≤ b) × IsSpaced wait (a ∷ rest)

abbrev newest_of : List ℕ → ℕ → ℕ
newest_of [] z = z
newest_of (a ∷ rest) z = a

record Stamped (interval : ℕ) (t : Throttle) : Type 0 where
  pub same : t.interval ≡ interval
  pub newest : newest_of t.lines t.stamp ≡ t.stamp
  pub spaced : IsSpaced (wait_ms interval) t.lines

IsSpaced-next :
    (interval now seen : ℕ) (t : Throttle)
    → (leb (seen + wait_ms t.interval) now && t.stamp == seen) ≡ true
    → Stamped interval t
    → (lines : List ℕ) → newest_of lines t.stamp ≡ t.stamp
    → IsSpaced (wait_ms interval) lines
    → IsSpaced (wait_ms interval) (now ∷ lines)
IsSpaced-next interval now seen t e v [] n s = tt
IsSpaced-next interval now seen t e v (a ∷ rest) n s =
    (subst (λ (k : ℕ). a + wait_ms k ≤ now) v.same (ground (arith, e, n)), s)

log_error-Stamped :
    (interval now seen : ℕ) (t : Throttle)
    → Stamped interval t
    → Stamped interval (log_error now seen t)
unfolding log_error
log_error-Stamped interval now seen t v =
    elim (Bool-cases (leb (seen + wait_ms t.interval) now && t.stamp == seen)) [
      | inl e ↦ rw e (record {
        same = v.same;
        newest = refl;
        spaced = IsSpaced-next interval now seen t e v t.lines v.newest v.spaced;
      })
      | inr e ↦ rw e v
    ]

logged-Stamped : (interval : ℕ) (calls : List (ℕ × ℕ)) → Stamped interval (logged interval calls)
unfolding logged
logged-Stamped interval [] = record { same = refl; newest = refl; spaced = tt }
logged-Stamped interval (c ∷ calls) =
    log_error-Stamped interval c.0 c.1 (logged interval calls) (logged-Stamped interval calls)

-- However many goroutines log a message, with whatever clock readings and interleaving, its lines are
-- at least the interval apart.
pub lines-IsSpaced :
    (interval : ℕ) (calls : List (ℕ × ℕ))
    → IsSpaced (wait_ms interval) (logged interval calls).lines
lines-IsSpaced interval calls = (logged-Stamped interval calls).spaced
