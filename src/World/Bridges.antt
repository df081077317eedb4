-- ===== src/World/Bridges.antt =====
-- internal/world/world.go: gridAdapter and auditBridge, which keep the metrics from the core's types.
use cmek.Base.{ℕ}
use cmek.Core.Types.{State, Class, Audit}
use cmek.Metrics.Trail.{AuditEntry}
use cmek.World.Switches.{Plant, index_of}

-- `uint8` of a state and of a class.
unfoldable pub state_number : State → ℕ
state_number State.active = 0
state_number State.riding_through = 1
state_number State.key_unavailable = 2
state_number State.revoked = 3

unfoldable pub class_number : Class → ℕ
class_number Class.ok = 0
class_number Class.transient = 1
class_number Class.deny = 2
class_number Class.poison = 3

-- `gridAdapter.States`, from the states that the core has published.
unfoldable pub grid_states : (ℕ → State) → ℕ → ℕ
unfolding state_number
grid_states published i = state_number (published i)

-- `auditBridge.Audit`: the entry that the registry is given.
unfoldable pub bridge : Plant → Audit → AuditEntry
unfolding state_number class_number
bridge w a = record {
  at = a.at;
  idx = index_of w a.tenant;
  op = a.op;
  outcome = a.outcome;
  detail = a.detail;
  class = class_number a.class;
  from = state_number a.from;
  to = state_number a.to;
  latency = a.latency;
  purged = a.purged;
}
