-- ===== src/Tests/Metrics.antt =====
-- A counter and a histogram of a small registry.
use fruitspy.Prelude.{◌*◌, ◌≡◌, refl, Bool, true, false, [], ◌∷◌, text, Result, ok, err, replicate}
use fruitspy.Clock.{second}
use fruitspy.Dict.{get}
use fruitspy.Metrics.Specs.{metric_specs}
use fruitspy.Metrics.Registry.{
  MetricsRegistry, series, value_at, histogram_at, find_spec, same_kind, label_value, key_of,
  metric_key, increment, observe,
}
use fruitspy.Metrics.Registry.Series.{Grown, increment-Grown}
use fruitspy.Metrics.Registry.Buckets.{Observed, observe-Observed}

abbrev registry : MetricsRegistry
registry = record {
  values = (text "fruitspy_relay_packets_total", ((text "dropped" ∷ []), 4) ∷ []) ∷ [];
  histograms =
      (
        text "fruitspy_natneg_setup_seconds",
        ((text "relay" ∷ []), record { buckets = replicate 12 0; count = 0; total = 0 }) ∷ [],
      )
      ∷ [];
}

abbrev registry_or : MetricsRegistry → Result MetricsRegistry → MetricsRegistry
registry_or r (ok next) = next
registry_or r (err e) = r

abbrev is_accepted : Result MetricsRegistry → Bool
is_accepted (ok next) = true
is_accepted (err e) = false

accepted_result :
    (r : MetricsRegistry) (made : Result MetricsRegistry)
    → is_accepted made ≡ true
    → made ≡ ok (registry_or r made)
accepted_result r (ok next) h = refl
accepted_result r (err e) h = cc

abbrev dropped : Result MetricsRegistry
dropped =
    increment (text "fruitspy_relay_packets_total") 1 ((text "result", text "dropped") ∷ [])
      registry

dropped_accepted : is_accepted dropped ≡ true
unfolding increment metric_key find_spec metric_specs same_kind key_of label_value get value_at
    series
dropped_accepted = refl

increment-Grown_example :
    Grown
      (text "fruitspy_relay_packets_total")
      1
      ((text "result", text "dropped") ∷ [])
      registry
      (registry_or registry dropped)
increment-Grown_example =
    increment-Grown (text "fruitspy_relay_packets_total") 1 ((text "result", text "dropped") ∷ [])
      registry (registry_or registry dropped) (accepted_result registry dropped dropped_accepted)

abbrev timed : Result MetricsRegistry
timed =
    observe (text "fruitspy_natneg_setup_seconds") (3 * second) ((text "path", text "relay") ∷ [])
      registry

timed_accepted : is_accepted timed ≡ true
unfolding observe metric_key find_spec metric_specs same_kind key_of label_value get histogram_at
    series
timed_accepted = refl

observe-Observed_example :
    Observed
      (text "fruitspy_natneg_setup_seconds")
      (3 * second)
      registry
      (registry_or registry timed)
observe-Observed_example =
    observe-Observed (text "fruitspy_natneg_setup_seconds") (3 * second)
      ((text "path", text "relay") ∷ []) registry (registry_or registry timed)
      (accepted_result registry timed timed_accepted)
