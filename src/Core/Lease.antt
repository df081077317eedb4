-- ===== src/Core/Lease.antt =====
-- internal/cmek/lease.go: the lease and the backoff. Instants and durations are nanoseconds, and
-- instant 0 is Go's zero time; an instant before it is not represented.
use cmek.Base.{ℕ, ◌+◌, ◌-◌, ◌*◌, ◌/◌, ◌^◌, Bool, not, ltb, ◌==◌, ◌&&◌, true, false, if◌then◌else◌}
use cmek.Base.Int.{ℤ, pos, sub_ℕ}

pub record Lease : Type 0 where
  pub sent_at : ℕ
  pub ttl : ℕ
  pub soft_ttl : ℕ
  pub early : ℕ

unfoldable pub renew_lease : Lease → ℕ → Lease × Bool
renew_lease l sent_at =
    if not (ltb l.sent_at sent_at) then (l, false) else (record l { sent_at = sent_at }, true)

-- SentAt + TTL − Early.
unfoldable pub until : Lease → ℕ
until l = l.sent_at + l.ttl - l.early

unfoldable pub usable : Lease → ℕ → Bool
unfolding until
usable l now = not (l.sent_at == 0) && ltb now (until l)

unfoldable pub soft_due : Lease → ℕ → Bool
soft_due l now = not (ltb now (l.sent_at + l.soft_ttl))

unfoldable pub remaining : Lease → ℕ → ℤ
unfolding until
remaining l now = if l.sent_at == 0 then pos 0 else sub_ℕ (until l) now

-- The jitter and the draw `u` count parts of a million, for Go's floats; a jitter is at most one.
abbrev pub million : ℕ
million = 1_000_000

-- min × 2^(n−1), at most `max`.
unfoldable pub backoff_base : ℕ → ℕ → ℕ → ℕ
backoff_base n low high =
    let exponent = (if ltb n 1 then 1 else n) - 1 in
    let base = low * 2 ^ exponent in if ltb high base then high else base

unfoldable pub backoff : ℕ → ℕ → ℕ → ℕ → ℕ → ℕ
unfolding backoff_base
backoff n low high jitter u =
    backoff_base n low high
    * (million * million + 2 * jitter * u - jitter * million)
    / (million * million)
