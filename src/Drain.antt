-- ===== src/Drain.antt =====
-- `DrainController` of server/fruitspy/drain.py: a shutdown that is requested once and completed
-- once. Its log lines are left out; its metric calls go to the shared registry, passed in and back.
pub mod Once
use fruitspy.Prelude.{ℕ, Bool, true, false, Option, none, some, [], ◌∷◌, if◌then◌else◌}
use fruitspy.Metrics.{Metrics, increment, set_gauge, record_call}

pub record DrainController : Type 0 where
  pub requested : Bool
  pub completed : Bool
  pub started_at : Option ℕ

unfoldable pub create : DrainController
create = record { requested = false; completed = false; started_at = none }

-- is_draining
unfoldable pub is_draining : DrainController → Bool
is_draining d = d.requested

-- request()
unfoldable pub request : ℕ → DrainController → Metrics → Bool × DrainController × Metrics
request now d m = if d.requested then (false, d, m) else (
  true,
  record d { requested = true; started_at = some now },
  record_call (increment "fruitspy_drain_events_total" (("event", "started") ∷ []))
      (record_call (set_gauge "fruitspy_server_draining" 1) m),
)

-- complete(timed_out=...)
unfoldable pub complete : Bool → DrainController → Metrics → DrainController × Metrics
complete timed_out d m = if d.completed then (d, m) else (
  record d { completed = true },
  record_call
      (increment "fruitspy_drain_events_total"
        (("event", if timed_out then "timed_out" else "completed") ∷ []))
      m,
)
