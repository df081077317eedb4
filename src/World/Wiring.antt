-- ===== src/World/Wiring.antt =====
-- `New` of internal/world/world.go: the tenants' names, providers and keys, the shuffled ranks and
-- the rates. The shuffle of the random source and the rates of the ranks are parameters; a name
-- past the ten-thousandth, which is wider, is one as well.
pub mod Names
pub mod Ranks
use cmek.Base.{
  ℕ, zero, suc, ◌+◌, ◌*◌, ◌/◌, ◌%◌, Bytes, codes, List, [], ◌∷◌, ◌++◌, length, Bool, ltb,
  if◌then◌else◌, set_at,
}
use cmek.World.Params.{Params}
use cmek.World.Switches.{Plant, nth, provider_of, kek_of}

-- `%04d` of a number below ten thousand.
unfoldable pub four : ℕ → Bytes
four i = (48 + i / 1000 % 10) ∷ (48 + i / 100 % 10) ∷ (48 + i / 10 % 10) ∷ (48 + i % 10) ∷ []

unfoldable pub tenant_id : (ℕ → Bytes) → ℕ → Bytes
unfolding four
tenant_id wide i = codes "t-" ++ (if ltb i 10_000 then four i else wide i)

-- `w.ids`, from the `i`-th on.
unfoldable pub ids_from : (ℕ → Bytes) → ℕ → ℕ → List Bytes
unfolding tenant_id
ids_from wide i zero = []
ids_from wide i (suc left) = tenant_id wide i ∷ ids_from wide (suc i) left

unfoldable pub plant_of : (ℕ → Bytes) → Params → List ℕ → Plant
unfolding ids_from
plant_of wide p perm = record { params = p; ids = ids_from wide 0 p.tenants; by_rank = perm }

-- The loops over `w.byRank` that fill `w.rankOf` and `rates`, from the `r`-th rank on.
unfoldable pub fill_by_rank : (ℕ → ℕ) → ℕ → List ℕ → (ℕ → ℕ) → ℕ → ℕ
fill_by_rank x r [] f = f
fill_by_rank x r (i ∷ perm) f = fill_by_rank x (suc r) perm (set_at i (x r) f)

-- `w.rankOf`.
abbrev pub rank_of_index : Plant → ℕ → ℕ
rank_of_index w = fill_by_rank (λ r. r + 1) 0 w.by_rank (λ i. 0)

-- The rates by grid index, from those by rank.
abbrev pub rates_of : (ℕ → ℕ) → Plant → ℕ → ℕ
rates_of zipf w = fill_by_rank zipf 0 w.by_rank (λ i. 0)

-- `cmek.TenantSpec`.
pub record TenantSpec : Type 0 where
  pub id : Bytes
  pub provider : Bytes
  pub kek_id : Bytes

unfoldable pub spec_of : Plant → ℕ → TenantSpec
unfolding provider_of kek_of
spec_of w i = record { id = nth [] w.ids i; provider = provider_of w i; kek_id = kek_of w i }

-- `capacity`: the configured one, or the workers over the sink's mean latency in seconds.
unfoldable pub capacity_of : Params → ℕ
capacity_of p =
    if ltb 0 p.capacity
    then p.capacity
    else p.workers * 1_000_000 * 1_000_000_000 / ((p.sink_latency_min + p.sink_latency_max) / 2)
