-- ===== src/Drain/Once.antt =====
-- A drain starts once and completes once.
use fruitspy.Prelude.{ℕ, ◌≡◌, true, false, arith}
use fruitspy.Metrics.{Metrics}
use fruitspy.Drain.{DrainController, is_draining, request}

-- After any request the server is draining, and a second request, at whatever time, is refused and
-- changes neither the controller nor the metrics.
pub request_once :
    (now later : ℕ) (d : DrainController) (m : Metrics)
    → (is_draining (request now d m).1 ≡ true)
      × (request later (request now d m).1 (request now d m).2
          ≡ (false, (request now d m).1, (request now d m).2))
unfolding request is_draining
request_once now later d m = ground arith
