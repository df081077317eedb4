-- ===== src/Sink.antt =====
-- internal/traffic/sink.go: the ring of delivery instants of one tenant. Instants are nanoseconds,
-- and `hi` of zero is Go's zero time.
pub mod Window
use cmek.Base.{
  ℕ, zero, suc, ◌+◌, ◌-◌, ◌%◌, Bytes, index, has_prefix, drop, ◌++◌, [], ◌∷◌, none, some, Bool,
  false, ltb, leb, not, ◌==◌, ◌&&◌, ◌||◌, if◌then◌else◌,
}

-- One tenant's `count` and `ring`.
pub record Lane : Type 0 where
  pub size : ℕ
  pub count : ℕ
  pub ring : ℕ → ℕ

-- A ring as `NewSink` makes it.
unfoldable pub new_lane : ℕ → Lane
new_lane size = record { size = if ltb 0 size then size else 1024; count = 0; ring = λ k. 0 }

-- Whether the payload's canary names another tenant.
abbrev quote : Bytes
quote = b'"' ∷ []

unfoldable pub names_other : Bytes → Bytes → Bytes → Bool
unfolding index has_prefix
names_other prefix tenant text = elim (index text (quote ++ prefix)) [
  | none ↦ false
  | some i ↦ not (has_prefix (drop i text) (quote ++ (prefix ++ (tenant ++ quote))))
]

-- The last section of `Deliver`: slot, then count.
unfoldable pub note_delivery : ℕ → Lane → Lane
note_delivery at l = record l {
  ring = λ k. if k == l.count % l.size then at else l.ring k;
  count = l.count + 1;
}

-- How a delivery ends: accepted, refused for its canary, or cut off by its context.
pub data Delivery : Type 0 where
  delivered mismatched cancelled : Delivery

-- `Deliver`, with the sink's count of mismatches; `in_time` is whether the latency passes before
-- the context ends.
unfoldable pub deliver : Bytes → Bytes → Bytes → ℕ → Bool → ℕ → Lane → Delivery × ℕ × Lane
unfolding names_other note_delivery
deliver prefix tenant text at in_time mismatches l =
    if names_other prefix tenant text
    then (Delivery.mismatched, mismatches + 1, l)
    else if in_time
    then (Delivery.delivered, mismatches, note_delivery at l)
    else (Delivery.cancelled, mismatches, l)

abbrev pub in_window : ℕ → ℕ → ℕ → Bool
in_window lo hi at = ltb lo at && (hi == 0 || leb at hi)

-- The loop of `DeliveredBetween` over `left` sequence numbers from `seq` on.
unfoldable pub count_window : Lane → ℕ → ℕ → ℕ → ℕ → ℕ
count_window l lo hi seq zero = 0
count_window l lo hi seq (suc left) =
    let rest = count_window l lo hi (seq + 1) left in
    if in_window lo hi (l.ring ((seq - 1) % l.size)) then suc rest else rest

-- `DeliveredBetween` for a known tenant: the count, the sequence number reached, and the overrun.
unfoldable pub delivered_between : Lane → ℕ → ℕ → ℕ → ℕ × ℕ × Bool
unfolding count_window
delivered_between l since lo hi =
    let overrun = ltb l.size (l.count - since) in
    let from = if overrun then l.count - l.size else since in
    (count_window l lo hi (from + 1) (l.count - from), l.count, overrun)
