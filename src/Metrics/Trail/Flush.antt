-- ===== src/Metrics/Trail/Flush.antt =====
-- `flushTransitions` of internal/metrics/registry.go: the buffered transitions become lines.
use cmek.Base.{
  set_at, ℕ, zero, suc, ◌+◌, ◌-◌, ◌%◌, ◌<◌, ◌≡◌, ap, arith, List, [], ◌∷◌, count, Bool, true, false,
  ltb, leb, not, ◌==◌, ◌&&◌, ◌||◌, if◌then◌else◌, Bool-cases, inl, inr,
}
use cmek.Metrics.Trail.{Setup, AuditEntry, Line, Trail, provider, post}

-- Transitions that are told together have the same provider, from and to.
abbrev pub Key : Type 0
Key = ℕ × ℕ × ℕ

abbrev pub key_of : Setup → ℕ × AuditEntry → Key
key_of u p = (provider u p.0 % 256, p.1.from, p.1.to)

abbrev pub same_key : Key → Key → Bool
same_key a b = a.0 == b.0 && a.1 == b.1 && a.2 == b.2

-- `counts[k]`.
abbrev pub counted : Setup → Key → List (ℕ × AuditEntry) → ℕ
counted u k = count (λ p. same_key (key_of u p) k)

-- `posted[k]`.
abbrev is_posted : Key → List Key → Bool
is_posted k [] = false
is_posted k (j ∷ posted) = same_key j k || is_posted k posted

-- The second loop over the buffer `all`, at its part `rest`.
unfoldable pub transition_lines :
    Setup → List (ℕ × AuditEntry) → List Key → List (ℕ × AuditEntry) → List Line
transition_lines u all posted [] = []
transition_lines u all posted (p ∷ rest) =
    let k = key_of u p in
    let n = counted u k all in
    let is_first = leb u.aggregate_min n && not (is_posted k posted) in
    let lines = transition_lines u all (if is_first then k ∷ posted else posted) rest in
    if is_first
    then Line.many n k.0 k.1 k.2 ∷ lines
    else if ltb n u.aggregate_min
    then Line.moved p.0 p.1.from p.1.to p.1.detail ∷ lines
    else lines

abbrev post_all : ℕ → List Line → Trail → Trail
post_all now [] t = t
post_all now (l ∷ lines) t = post_all now lines (post now l t)

-- The loop over the providers' counts, with `left` of them to go.
unfoldable pub flush_rides : ℕ → ℕ → ℕ → Trail → Trail
unfolding post
flush_rides now p zero t = t
flush_rides now p (suc left) t =
    let r = t.rides p in
    let t' =
      if r.up == 0 && r.down == 0
      then t
      else post now (Line.rode p r.up r.down)
          (record t { rides = set_at p (record { up = 0; down = 0 }) t.rides }) in
    flush_rides now (p + 1) left t'

unfoldable pub flush_transitions : Setup → ℕ → Trail → Trail
unfolding transition_lines flush_rides post
flush_transitions u now t =
    if ltb (now - t.rides_flushed) 1_000_000_000
    then t
    else flush_rides now 0 u.providers
        (record (post_all now (transition_lines u t.pending [] t.pending) t) {
          pending = [];
          rides_flushed = now;
        })

-- How many transitions of a kind a line tells.
abbrev pub told_by : Setup → Key → Line → ℕ
told_by u k (Line.many n p f t) = if same_key (p, f, t) k then n else 0
told_by u k (Line.moved i f t d) = if same_key (provider u i % 256, f, t) k then 1 else 0
told_by u k _ = 0

abbrev pub told : Setup → Key → List Line → ℕ
told u k [] = 0
told u k (l ∷ lines) = told_by u k l + told u k lines

-- Whether a line is about a kind of transition.
abbrev pub tells : Setup → Key → Line → Bool
tells u k (Line.many n p f t) = same_key (p, f, t) k
tells u k (Line.moved i f t d) = same_key (provider u i % 256, f, t) k
tells u k _ = false

same_key-eq : (a b : Key) → same_key a b ≡ true → a ≡ b
same_key-eq a b e = ground arith

-- What is still to be told of a kind, and in how many lines.
abbrev due_count : Setup → Key → List (ℕ × AuditEntry) → List Key → List (ℕ × AuditEntry) → ℕ
due_count u k all posted rest =
    if leb u.aggregate_min (counted u k all)
    then if is_posted k posted || counted u k rest == 0 then 0 else counted u k all
    else counted u k rest

abbrev due_lines : Setup → Key → List (ℕ × AuditEntry) → List Key → List (ℕ × AuditEntry) → ℕ
due_lines u k all posted rest =
    if leb u.aggregate_min (counted u k all)
    then if is_posted k posted || counted u k rest == 0 then 0 else 1
    else counted u k rest

lines-due :
    (u : Setup) (k : Key) (all : List (ℕ × AuditEntry)) (posted : List Key)
    (rest : List (ℕ × AuditEntry))
    → (told u k (transition_lines u all posted rest) ≡ due_count u k all posted rest)
      × (count (tells u k) (transition_lines u all posted rest) ≡ due_lines u k all posted rest)
unfolding transition_lines
lines-due u k all posted [] = ground arith
lines-due u k all posted (p ∷ rest) =
    let first = lines-due u k all (key_of u p ∷ posted) rest in
    let later = lines-due u k all posted rest in
    elim (Bool-cases (same_key (key_of u p) k)) [
      | inl b ↦
          let n : counted u (key_of u p) all ≡ counted u k all =
            ap (λ j. counted u j all) (same_key-eq (key_of u p) k b) in
          let q : is_posted (key_of u p) posted ≡ is_posted k posted =
            ap (λ j. is_posted j posted) (same_key-eq (key_of u p) k b) in
          ground arith
      | inr b ↦ ground arith
    ]

-- A flush tells every buffered transition exactly once: of each kind (provider, from, to) its lines
-- tell as many as the buffer holds, and they are one line from AggregateMin on and one each below,
-- for an AggregateMin of at least one.
pub transition_lines-exact :
    (u : Setup) (k : Key) (buffer : List (ℕ × AuditEntry))
    → 0 < u.aggregate_min
    → (told u k (transition_lines u buffer [] buffer) ≡ counted u k buffer)
      × (count (tells u k) (transition_lines u buffer [] buffer)
          ≡ (if leb u.aggregate_min (counted u k buffer) then 1 else counted u k buffer))
transition_lines-exact u k buffer p = ground (arith, lines-due u k buffer [] buffer)
