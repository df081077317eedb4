-- ===== src/Queue/Scheduler.antt =====
-- internal/queue/scheduler.go: the fair ring. The ledger's reads, the fair share and the answers of
-- `Gate.Hot` are arguments: the scheduler asks, and the core and the gate answer.
use cmek.Base.{
  ℕ, zero, suc, ◌+◌, ◌%◌, Option, none, some, is_some, Bool, true, false, ltb, leb, not, ◌&&◌,
  if◌then◌else◌,
}

-- What the ring reads: the tenants' counters and whether the core admits a tenant now.
pub record View : Type 0 where
  pub ready : ℕ → ℕ
  pub backlog : ℕ → ℕ
  pub is_hot : ℕ → Bool

pub record Ring : Type 0 where
  pub tenants : ℕ
  pub light_turns : ℕ
  pub two_class : Bool
  pub cursor_a : ℕ
  pub cursor_b : ℕ
  pub turn : ℕ

-- `NewScheduler`: two classes need a share and at least one light turn.
unfoldable pub new_ring : ℕ → Bool → Bool → ℕ → Ring
new_ring tenants two_class has_share light_turns = record {
  tenants = tenants;
  light_turns = light_turns;
  two_class = two_class && has_share && not (ltb light_turns 1);
  cursor_a = 0;
  cursor_b = 0;
  turn = 0;
}

abbrev pub same_class : Bool → Bool → Bool
same_class true b = b
same_class false b = not b

-- `none` is math.MaxInt: every backlog is within it.
abbrev pub is_within : Option ℕ → ℕ → Bool
is_within none n = true
is_within (some fs) n = leb n fs

-- Whether the scan accepts a tenant.
unfoldable pub admits : View → Bool → Option ℕ → ℕ → Bool
admits v want fs i = ltb 0 (v.ready i) && same_class want (is_within fs (v.backlog i)) && v.is_hot i

-- The loop of `scan` from offset `k`, with `left` rounds left.
unfoldable pub scan_from : View → Bool → Option ℕ → ℕ → ℕ → ℕ → ℕ → Option ℕ
unfolding admits
scan_from v want fs n cur k zero = none
scan_from v want fs n cur k (suc left) =
    let rest = scan_from v want fs n cur (k + 1) left in
    if admits v want fs ((cur + k) % n) then some ((cur + k) % n) else rest

abbrev pub cursor : Bool → Ring → ℕ
cursor true r = r.cursor_a
cursor false r = r.cursor_b

abbrev pub move_cursor : Bool → ℕ → Ring → Ring
move_cursor true i r = record r { cursor_a = (i + 1) % r.tenants }
move_cursor false i r = record r { cursor_b = (i + 1) % r.tenants }

unfoldable pub scanned : Bool → Option ℕ → Ring → Option ℕ × Ring
scanned want none r = (none, r)
scanned want (some i) r = (some i, move_cursor want i r)

unfoldable pub scan : View → Bool → Option ℕ → Ring → Option ℕ × Ring
unfolding scan_from scanned
scan v want fs r = scanned want (scan_from v want fs r.tenants (cursor want r) 0 r.tenants) r

abbrev end_turn : Option ℕ × Ring → Option ℕ × Ring
end_turn (none, r) = (none, r)
end_turn (some i, r) = (some i, record r { turn = (r.turn + 1) % (r.light_turns + 1) })

-- The loop over the two wanted classes; a miss on the first falls through to the second.
unfoldable pub either_class : View → Option ℕ → Bool → Ring → Option ℕ × Ring
unfolding scan
either_class v fs light r =
    let first = scan v light fs r in
    let second = scan v (not light) fs first.1 in
    if is_some first.0 then end_turn first else end_turn second

-- `Next`, with the share that the gate tells.
unfoldable pub next : View → Option ℕ → Ring → Option ℕ × Ring
unfolding either_class
next v fs r =
    if not r.two_class then scan v true none r else either_class v fs (ltb r.turn r.light_turns) r
