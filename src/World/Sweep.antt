-- ===== src/World/Sweep.antt =====
-- `sweep` of internal/world/world.go: the World's timer drives the core's Tick, and less often the
-- store's Reclaim and Expire. The store's instants are milliseconds.
pub mod Lingers
use cmek.Base.{ℕ, ◌-◌, ◌/◌, List, map, Bool, true, false, ltb, leb, ◌&&◌, if◌then◌else◌}
use cmek.Core.Types.{Config, Tenant}
use cmek.Core.Sweep.{tick_all}
use cmek.Queue.Store.{Store, reclaim, expire}
use cmek.World.Params.{Params}

-- The two instants of the loop, and what it drives: the store and the tenants of the core.
pub record Sweeper : Type 0 where
  pub last_reclaim : ℕ
  pub last_expire : ℕ
  pub store : Store
  pub tenants : List Tenant

abbrev pub ms : ℕ → ℕ
ms t = t / 1_000_000

-- One due Reclaim; `fault` is whether the database fails.
unfoldable pub reclaim_due : Params → ℕ → Bool → Sweeper → Sweeper
unfolding reclaim
reclaim_due p now fault s =
    if leb p.reclaim_interval (now - s.last_reclaim)
    then record s { last_reclaim = now; store = (reclaim fault (ms now) s.store).1 }
    else s

unfoldable pub expire_due : Params → ℕ → Bool → Sweeper → Sweeper
unfolding expire
expire_due p now fault s =
    if ltb 0 p.retention && leb p.expire_interval (now - s.last_expire)
    then record s {
      last_expire = now;
      store = (expire fault (ms (now - p.retention)) p.expire_limit s.store).1;
    }
    else s

-- One turn of the loop.
unfoldable pub sweep_turn : Config → Params → ℕ → Bool → Bool → Sweeper → Sweeper
unfolding tick_all reclaim_due expire_due
sweep_turn c p now fault fault' s =
    expire_due p now fault'
      (reclaim_due p now fault (record s { tenants = map (λ r. r.1) (tick_all c now s.tenants) }))
