-- ===== src/Metrics/Registry/Buckets.antt =====
-- The buckets of a histogram stay cumulative: none counts more than the next, or than all there were.
use fruitspy.Prelude.{
  Text, ℕ, suc, ◌+◌, ◌≤◌, ◌≡◌, refl, ap, ◌∙◌, subst, Bool, true, false, ◌&&◌, Option, none, some,
  List, [], ◌∷◌, length, leb, if◌then◌else◌, ◌==◌, nat_eq, list_eq, Result, ok, err, Error,
  value_error, or_raise, ◌>>=◌, bind-elim, arith, if-elim,
}
use fruitspy.Dict.{Dict, get, put}
use fruitspy.Metrics.Specs.{histogram, MetricSpec, metric_specs}
use fruitspy.Metrics.Registry.{
  series, Key, key_eq, HistogramValue, MetricsRegistry, metric_key, histogram_at, count_in,
  observe_value, observe_found, observe, find_spec, key_of,
}
use fruitspy.Metrics.Registry.Series.{get-series-put}

unfoldable pub first_or : List ℕ → ℕ → ℕ
first_or [] top = top
first_or (n ∷ rest) top = n

-- Each count is at most the next, and the last at most `top`.
unfoldable pub Ascending : List ℕ → ℕ → Type 0
Ascending [] top = Unit
Ascending (n ∷ rest) top = (n ≤ first_or rest top) × Ascending rest top

in_order : List ℕ → Bool
in_order [] = true
in_order (b ∷ rest) = leb b (first_or rest b) && in_order rest

pub record IsCumulative (bounds : List ℕ) (h : HistogramValue) : Type 0 where
  pub one_for_each : length h.buckets ≡ length bounds
  pub ascending : Ascending h.buckets h.count

length-count_in :
    (value : ℕ) (bounds counts : List ℕ)
    → length counts ≡ length bounds
    → length (count_in value bounds counts) ≡ length bounds
unfolding count_in
length-count_in value [] counts e = e
length-count_in value (b ∷ bounds) [] e = e
length-count_in value (b ∷ bounds) (n ∷ counts) e =
    ap suc (length-count_in value bounds counts (omega (arith, e)))

-- The next bucket counts the value too.
next_count :
    (value b : ℕ) (bounds counts : List ℕ) (top n : ℕ)
    → length counts ≡ length bounds
    → b ≤ first_or bounds b
    → n ≤ first_or counts top
    → (if leb value b then n + 1 else n) ≤ first_or (count_in value bounds counts) (suc top)
unfolding count_in first_or
next_count value b [] [] top n e o h = ground (arith, h)
next_count value b [] (m ∷ counts) top n e o h = absurd (omega (arith, e))
next_count value b (c ∷ bounds) [] top n e o h = absurd (omega (arith, e))
next_count value b (c ∷ bounds) (m ∷ counts) top n e o h = ground (arith, o, h)

count_in-Ascending :
    (value : ℕ) (bounds counts : List ℕ) (top : ℕ)
    → length counts ≡ length bounds
    → in_order bounds ≡ true
    → Ascending counts top
    → Ascending (count_in value bounds counts) (suc top)
unfolding count_in in_order Ascending
count_in-Ascending value [] [] top e o h = tt
count_in-Ascending value [] (n ∷ counts) top e o h = absurd (omega (arith, e))
count_in-Ascending value (b ∷ bounds) [] top e o h = tt
count_in-Ascending value (b ∷ bounds) (n ∷ counts) top e o h = (
  next_count value b bounds counts top n (omega (arith, e)) (ground (arith, o)) h.0,
  count_in-Ascending value bounds counts top (omega (arith, e)) (ground (arith, o)) h.1,
)

observe_value-IsCumulative :
    (value : ℕ) (bounds : List ℕ) (h : HistogramValue)
    → in_order bounds ≡ true
    → IsCumulative bounds h
    → IsCumulative bounds (observe_value value bounds h)
unfolding observe_value
observe_value-IsCumulative value bounds h o c = record {
  one_for_each = length-count_in value bounds h.buckets c.one_for_each;
  ascending =
      subst (Ascending (count_in value bounds h.buckets)) (omega arith)
        (count_in-Ascending value bounds h.buckets h.count c.one_for_each o c.ascending);
}

all_in_order : List MetricSpec → Bool
all_in_order [] = true
all_in_order (spec ∷ rest) = in_order spec.buckets && all_in_order rest

buckets_of : Option MetricSpec → List ℕ
buckets_of none = []
buckets_of (some spec) = spec.buckets

buckets_in_order :
    (name : Text) (specs : List MetricSpec)
    → all_in_order specs ≡ true
    → in_order (buckets_of (find_spec name specs)) ≡ true
unfolding all_in_order find_spec buckets_of in_order
buckets_in_order name [] o = refl
buckets_in_order name (x ∷ specs) o =
    if-elim (λ found. in_order (buckets_of found) ≡ true) (x.name == name) (λ _. ground (arith, o))
      (λ _. buckets_in_order name specs (ground (arith, o)))

specs_in_order : all_in_order metric_specs ≡ true
unfolding metric_specs all_in_order in_order first_or
specs_in_order = refl

bounds_of : List ℕ → Result MetricSpec → List ℕ
bounds_of d (ok spec) = spec.buckets
bounds_of d (err e) = d

keyed_or : List ℕ → Result (MetricSpec × Key) → List ℕ
keyed_or d (ok found) = found.0.buckets
keyed_or d (err e) = d

raised_bounds :
    (e : Error) (o : Option MetricSpec) (spec : MetricSpec)
    → or_raise e o ≡ ok spec
    → buckets_of o ≡ spec.buckets
unfolding buckets_of bounds_of
raised_bounds e none spec h = absurd (cc)
raised_bounds e (some x) spec h = ap (λ r. bounds_of [] r) h

keyed_bounds :
    (spec : MetricSpec) (b : Bool) (key : Result Key) (found : MetricSpec × Key)
    → (if b then key >>= (λ k. ok (spec, k)) else err value_error) ≡ ok found
    → spec.buckets ≡ found.0.buckets
unfolding keyed_or
keyed_bounds spec true (ok k) found h = ap (λ r. keyed_or [] r) h
keyed_bounds spec true (err e) found h = absurd (cc)
keyed_bounds spec false key found h = absurd (cc)

-- A key of a metric comes with the metric's specification.
metric_key-find_spec :
    (name : Text) (labels : Dict Text Text) (found : MetricSpec × Key)
    → metric_key name labels histogram ≡ ok found
    → in_order found.0.buckets ≡ true
unfolding metric_key
metric_key-find_spec name labels found h =
    bind-elim (or_raise value_error (find_spec name metric_specs)) _ _
      (λ (spec : MetricSpec) known more.
        subst (λ bounds. in_order bounds ≡ true)
          (raised_bounds value_error (find_spec name metric_specs) spec known
            ∙ keyed_bounds spec _ (key_of labels spec.labels) found more)
          (buckets_in_order name metric_specs specs_in_order))
      h

-- A histogram that a value was added to.
pub record Observed (name : Text) (value : ℕ) (r next : MetricsRegistry) : Type 0 where
  pub spec : MetricSpec
  pub key : Key
  pub before : HistogramValue
  pub was : histogram_at name key r ≡ some before
  pub is_counted : histogram_at name key next ≡ some (observe_value value spec.buckets before)
  pub cumulative :
      IsCumulative spec.buckets before
      → IsCumulative spec.buckets (observe_value value spec.buckets before)
  pub others :
      (n : Text) (k : Key)
      → (name == n && key == k) ≡ false
      → histogram_at n k next ≡ histogram_at n k r
  pub same_values : next.values ≡ r.values

observe_found-Observed :
    (name : Text) (spec : MetricSpec) (key : Key) (value : ℕ) (o : Option HistogramValue)
    (r next : MetricsRegistry)
    → in_order spec.buckets ≡ true
    → histogram_at name key r ≡ o
    → observe_found name key value spec.buckets o r ≡ ok next
    → Observed name value r next
unfolding observe_found histogram_at
observe_found-Observed name spec key value none r next sorted was h = absurd (cc)
observe_found-Observed name spec key value (some v) r next sorted was h =
    let seen = observe_value value spec.buckets v in
    let stored : record r {
      histograms = put name (put key seen (series (get name r.histograms))) r.histograms;
    }
        ≡ next =
      ground (arith, h) in
    subst (Observed name value r) stored (record {
      spec = spec;
      key = key;
      before = v;
      was = was;
      is_counted =
          get-series-put name name key key seen r.histograms
          ∙ ground (arith, (list_eq {A = ℕ}).beq_iff name name, key_eq.beq_iff key key);
      cumulative = observe_value-IsCumulative value spec.buckets v sorted;
      others = λ m k other. get-series-put name m key k seen r.histograms ∙ ground (arith, other);
      same_values = refl;
    })

pub observe-Observed :
    (name : Text) (value : ℕ) (labels : Dict Text Text) (r next : MetricsRegistry)
    → observe name value labels r ≡ ok next
    → Observed name value r next
unfolding observe
observe-Observed name value labels r next h =
    bind-elim (metric_key name labels histogram) _ (Observed name value r next)
      (λ (found : MetricSpec × Key) known more.
        observe_found-Observed name found.0 found.1 value (histogram_at name found.1 r) r next
          (metric_key-find_spec name labels found known) refl more)
      h
