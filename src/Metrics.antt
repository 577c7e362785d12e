-- ===== src/Metrics.antt =====
-- The calls that the services make on `MetricsRegistry` (server/fruitspy/metrics.py), in order.
pub mod Specs
pub mod Registry
use fruitspy.Prelude.{ℕ, String, List, [], ◌∷◌, ◌++◌}

-- name, amount or value, and labels; an observed value is in nanoseconds
pub data MetricCall : Type 0 where
  increment : String → List (String × String) → MetricCall
  set_gauge : String → ℕ → MetricCall
  observe : String → ℕ → List (String × String) → MetricCall

-- the registry, by the calls that it received
abbrev pub Metrics : Type 0
Metrics = List MetricCall

unfoldable pub record_call : MetricCall → Metrics → Metrics
record_call c m = m ++ c ∷ []
