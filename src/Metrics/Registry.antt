-- ===== src/Metrics/Registry.antt =====
-- `MetricsRegistry` of server/fruitspy/metrics.py: the series of each metric, and the three methods that
-- change them. Counts are naturals, and observed values are in nanoseconds.
pub mod Labels
pub mod Series
pub mod Buckets
use fruitspy.Prelude.{
  Text, ℕ, ◌+◌, Bool, true, false, ◌&&◌, ◌||◌, not, Option, none, some, List, [], ◌∷◌, ◌++◌, Eq,
  length, map, leb, replicate, if◌then◌else◌, ◌==◌, nat_eq, list_eq, Result, ok, err, value_error,
  key_error, or_raise, ◌>>=◌,
}
use fruitspy.Dict.{Dict, get, put, contains}
use fruitspy.Metrics.Specs.{MetricKind, counter, gauge, histogram, MetricSpec, metric_specs}

abbrev pub Key : Type 0
Key = List Text

instance abbrev pub key_eq : Eq (List Text)
key_eq = list_eq

pub record HistogramValue : Type 0 where
  pub buckets : List ℕ
  pub count : ℕ
  pub total : ℕ

pub record MetricsRegistry : Type 0 where
  pub values : Dict Text (Dict Key ℕ)
  pub histograms : Dict Text (Dict Key HistogramValue)

prefix_all : Text → List Key → List Key
prefix_all value [] = []
prefix_all value (key ∷ rest) = (value ∷ key) ∷ prefix_all value rest

choose : List Text → List Key → List Key
choose [] keys = []
choose (value ∷ values) keys = prefix_all value keys ++ choose values keys

-- list(product(*(values for _, values in labels))), which is [()] without labels
unfoldable pub keys_of : List (Text × List Text) → List Key
unfolding choose prefix_all
keys_of [] = [] ∷ []
keys_of ((label, values) ∷ rest) = choose values (keys_of rest)

-- {key: start for key in keys}
add_keys : {V : Type 0} → V → List Key → Dict Key V → Dict Key V
add_keys start [] d = d
add_keys start (key ∷ rest) d = add_keys start rest (put key start d)

unfoldable pub series_from : {V : Type 0} → V → List Key → Dict Key V
unfolding add_keys
series_from start keys = add_keys start keys []

add_spec : MetricSpec → MetricKind → MetricsRegistry → MetricsRegistry
add_spec spec histogram r = record r {
  histograms =
      put spec.name
        (series_from (record { buckets = replicate (length spec.buckets) 0; count = 0; total = 0 })
          (keys_of spec.labels))
        r.histograms;
}
add_spec spec counter r = record r {
  values = put spec.name (series_from 0 (keys_of spec.labels)) r.values;
}
add_spec spec gauge r = record r {
  values = put spec.name (series_from 0 (keys_of spec.labels)) r.values;
}

create_from : List MetricSpec → MetricsRegistry → MetricsRegistry
unfolding add_spec
create_from [] r = r
create_from (spec ∷ rest) r = create_from rest (add_spec spec spec.kind r)

-- MetricsRegistry()
unfoldable pub create : MetricsRegistry
unfolding create_from
create = create_from metric_specs (record { values = []; histograms = [] })

unfoldable pub same_kind : MetricKind → MetricKind → Bool
same_kind counter counter = true
same_kind gauge gauge = true
same_kind histogram histogram = true
same_kind _ _ = false

-- self._specs.get(name)
unfoldable pub find_spec : Text → List MetricSpec → Option MetricSpec
find_spec name [] = none
find_spec name (spec ∷ rest) = if spec.name == name then some spec else find_spec name rest

contains_text : Text → List Text → Bool
contains_text value [] = false
contains_text value (x ∷ rest) = x == value || contains_text value rest

-- the label's value, if the metric allows it
unfoldable pub label_value : Dict Text Text → Text → List Text → Result Text
unfolding contains_text
label_value labels name allowed = do
  value ← or_raise value_error (get name labels)
  if contains_text value allowed then ok value else err value_error

unfoldable pub key_of : Dict Text Text → List (Text × List Text) → Result Key
key_of labels [] = ok []
key_of labels ((name, allowed) ∷ rest) = do
  value ← label_value labels name allowed
  key ← key_of labels rest
  ok (value ∷ key)

-- _metric_key(name, labels, expected_kind): every test raises a ValueError, so their order does not show
unfoldable pub metric_key : Text → Dict Text Text → MetricKind → Result (MetricSpec × Key)
metric_key name labels expected_kind = do
  spec ← or_raise value_error (find_spec name metric_specs)
  if same_kind spec.kind expected_kind && length labels == length spec.labels
      then (do key ← key_of labels spec.labels; ok (spec, key))
      else err value_error

unfoldable pub series : {V : Type 0} → Option (Dict Key V) → Dict Key V
series none = []
series (some s) = s

-- self._values[name][key]
unfoldable pub value_at : Text → Key → MetricsRegistry → Option ℕ
unfolding series
value_at name key r = get key (series (get name r.values))

-- self._values[name][key] = value
unfoldable pub store_value : Text → Key → ℕ → MetricsRegistry → MetricsRegistry
unfolding series
store_value name key value r = record r {
  values = put name (put key value (series (get name r.values))) r.values;
}

increment_found : Text → Key → ℕ → Option ℕ → MetricsRegistry → Result MetricsRegistry
increment_found name key amount none r = err key_error
increment_found name key amount (some n) r = ok (store_value name key (n + amount) r)

-- increment(name, amount, **labels)
unfoldable pub increment : Text → ℕ → Dict Text Text → MetricsRegistry → Result MetricsRegistry
unfolding increment_found
increment name amount labels r = do
  found ← metric_key name labels counter
  increment_found name found.1 amount (value_at name found.1 r) r

-- set_gauge(name, value, **labels)
unfoldable pub set_gauge : Text → ℕ → Dict Text Text → MetricsRegistry → Result MetricsRegistry
set_gauge name value labels r = do
  found ← metric_key name labels gauge
  ok (store_value name found.1 value r)

-- the buckets that hold the value count it
unfoldable pub count_in : ℕ → List ℕ → List ℕ → List ℕ
count_in value [] counts = counts
count_in value (bound ∷ bounds) [] = []
count_in value (bound ∷ bounds) (n ∷ counts) =
    let rest = count_in value bounds counts in (if leb value bound then n + 1 else n) ∷ rest

unfoldable pub observe_value : ℕ → List ℕ → HistogramValue → HistogramValue
observe_value value bounds h = record {
  buckets = count_in value bounds h.buckets;
  count = h.count + 1;
  total = h.total + value;
}

observe_found :
    Text → Key → ℕ → List ℕ → Option HistogramValue → MetricsRegistry → Result MetricsRegistry
unfolding series
observe_found name key value bounds none r = err key_error
observe_found name key value bounds (some h) r = ok (record r {
  histograms =
      put name (put key (observe_value value bounds h) (series (get name r.histograms)))
        r.histograms;
})

unfoldable pub histogram_at : Text → Key → MetricsRegistry → Option HistogramValue
unfolding series
histogram_at name key r = get key (series (get name r.histograms))

-- observe(name, value, **labels)
unfoldable pub observe : Text → ℕ → Dict Text Text → MetricsRegistry → Result MetricsRegistry
unfolding observe_found
observe name value labels r = do
  found ← metric_key name labels histogram
  observe_found name found.1 value found.0.buckets (histogram_at name found.1 r) r
