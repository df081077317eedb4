-- ===== src/Metrics/Ticks/Grid.antt =====
-- What the page reads off the grid.
use cmek.Base.{
  ℕ, zero, suc, ◌+◌, ◌-◌, ◌/◌, ◌%◌, ◌<◌, ◌≡◌, ap, ◌∙◌, arith, get_elem?, some, Bool, true, false,
  ◌==◌,
}
use cmek.Metrics.Ticks.{grid_char, grid_from}

-- A cell's state and its affected bit, off the character.
abbrev pub cell_state : ℕ → ℕ
cell_state c = (c - 48) % 4

abbrev pub cell_affected : ℕ → Bool
cell_affected c = (c - 48) / 4 % 2 == 1

cell-back :
    (state : ℕ) (affected : Bool)
    → state < 4
    → (cell_state (grid_char state affected) ≡ state)
      × (cell_affected (grid_char state affected) ≡ affected)
unfolding grid_char
cell-back state true l = (omega (arith, l), ground (arith, l))
cell-back state false l = (omega (arith, l), ground (arith, l))

grid_from-cell :
    (states : ℕ → ℕ) (affected : ℕ → Bool) (first n i : ℕ)
    → i < n
    → get_elem? (grid_from states affected first n) i
      ≡ some (grid_char (states (first + i)) (affected (first + i)))
unfolding grid_from
grid_from-cell states affected first zero i l = absurd (omega (arith, l))
grid_from-cell states affected first (suc n) zero l =
    ap (λ (k : ℕ). some (grid_char (states k) (affected k))) (omega arith)
grid_from-cell states affected first (suc n) (suc i) l =
    grid_from-cell states affected (suc first) n i (omega (arith, l))
    ∙ ap (λ (k : ℕ). some (grid_char (states k) (affected k))) (omega arith)

-- What the page reads off a snapshot's grid at a tenant is the tenant's state and whether it is in
-- the affected set, for the four states.
pub grid-reads_back :
    (states : ℕ → ℕ) (affected : ℕ → Bool) (n i : ℕ)
    → i < n
    → states i < 4
    → (c : ℕ) × (get_elem? (grid_from states affected 0 n) i ≡ some c)
      × (cell_state c ≡ states i)
      × (cell_affected c ≡ affected i)
grid-reads_back states affected n i l s =
    let b = cell-back (states i) (affected i) s in
    (
      grid_char (states i) (affected i),
      grid_from-cell states affected 0 n i l
          ∙ ap (λ (k : ℕ). some (grid_char (states k) (affected k))) (omega arith),
      b.0,
      b.1,
    )
