-- ===== src/Queue/Ledger.antt =====
-- internal/queue/store.go: the in-memory ledger. A counter is a function of the tenant's index; the
-- counters are not negative as long as no more is taken from one than it holds, which
-- Queue.Histories proves of every operation of the store.
use cmek.Base.{ℕ, zero, suc, ◌+◌, ◌-◌, ltb, ◌==◌, ◌&&◌, if◌then◌else◌}

pub record Ledger : Type 0 where
  pub accepted : ℕ → ℕ
  pub delivered : ℕ → ℕ
  pub expired : ℕ → ℕ
  pub ready : ℕ → ℕ
  pub claimed : ℕ → ℕ
  pub dead : ℕ → ℕ
  pub total : ℕ
  pub backlogged : ℕ

abbrev pub empty_ledger : Ledger
empty_ledger = record {
  accepted = λ i. 0;
  delivered = λ i. 0;
  expired = λ i. 0;
  ready = λ i. 0;
  claimed = λ i. 0;
  dead = λ i. 0;
  total = 0;
  backlogged = 0;
}

-- `counter[i].Add(k)` and `counter[i].Add(-k)`.
abbrev pub add_at : ℕ → ℕ → (ℕ → ℕ) → ℕ → ℕ
add_at i k f j = if j == i then f j + k else f j

abbrev pub take_at : ℕ → ℕ → (ℕ → ℕ) → ℕ → ℕ
take_at i k f j = if j == i then f j - k else f j

unfoldable pub backlog_of : Ledger → ℕ → ℕ
backlog_of l i = l.ready i + l.claimed i

-- `if ra > 0 && s.backlogOf(idx) == 0 { s.backlogged.Add(-1) }`
unfoldable pub settle : ℕ → ℕ → Ledger → Ledger
unfolding backlog_of
settle i k l =
    if ltb 0 k && backlog_of l i == 0 then record l { backlogged = l.backlogged - 1 } else l

unfoldable pub note_insert : ℕ → Ledger → Ledger
unfolding backlog_of
note_insert i l = record l {
  backlogged = if backlog_of l i == 0 then l.backlogged + 1 else l.backlogged;
  accepted = add_at i 1 l.accepted;
  ready = add_at i 1 l.ready;
  total = l.total + 1;
}

unfoldable pub note_claim : ℕ → ℕ → Ledger → Ledger
note_claim i k l = record l { ready = take_at i k l.ready; claimed = add_at i k l.claimed }

unfoldable pub note_ack : ℕ → ℕ → Ledger → Ledger
unfolding settle
note_ack i k l = settle i k (record l {
  delivered = add_at i k l.delivered;
  claimed = take_at i k l.claimed;
  total = l.total - k;
})

unfoldable pub note_release : ℕ → ℕ → Ledger → Ledger
note_release i k l = record l { claimed = take_at i k l.claimed; ready = add_at i k l.ready }

unfoldable pub note_dead : ℕ → ℕ → Ledger → Ledger
unfolding settle
note_dead i k l =
    settle i k
      (record l { claimed = take_at i k l.claimed; dead = add_at i k l.dead; total = l.total - k })

-- One round of `Expire`'s loop over the counts; a tenant that is not in the map has none.
unfoldable pub note_expire : ℕ → ℕ → Ledger → Ledger
unfolding settle
note_expire i k l =
    settle i k (record l {
      expired = add_at i k l.expired;
      ready = take_at i k l.ready;
      total = l.total - k;
    })

-- The loop, from tenant `n - 1` down to 0. (Go leaves the order open, and it does not matter.)
unfoldable pub note_expired : ℕ → (ℕ → ℕ) → Ledger → Ledger
unfolding note_expire
note_expired zero counts l = l
note_expired (suc n) counts l = note_expired n counts (note_expire n (counts n) l)

-- `Reclaim`'s loop.
unfoldable pub note_reclaimed : ℕ → (ℕ → ℕ) → Ledger → Ledger
unfolding note_release
note_reclaimed zero counts l = l
note_reclaimed (suc n) counts l = note_reclaimed n counts (note_release n (counts n) l)
