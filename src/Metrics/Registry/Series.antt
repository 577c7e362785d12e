-- ===== src/Metrics/Registry/Series.antt =====
-- What the methods of the registry do to its series: a counter grows by the amount and nothing else
-- changes, and the buckets of a histogram stay cumulative.
use fruitspy.Metrics.Registry.Labels.{Keyed, metric_key-Keyed}
use fruitspy.Prelude.{
  Text, ℕ, ◌+◌, ◌≡◌, refl, ◌∙◌, subst, false, ◌&&◌, Option, none, some, if◌then◌else◌, ◌==◌, nat_eq,
  list_eq, ok, bind-elim, arith,
}
use fruitspy.Dict.{Dict, get, put}
use fruitspy.Dict.Laws.{get-put}
use fruitspy.Metrics.Specs.{counter, MetricSpec}
use fruitspy.Metrics.Registry.{
  Key, key_eq, MetricsRegistry, series, value_at, metric_key, store_value, increment,
  increment_found,
}

-- A write to one series, as the others see it.
pub get-series-put :
    {V : Type 0} (name n : Text) (key k : Key) (v : V) (d : Dict Text (Dict Key V))
    → get k (series (get n (put name (put key v (series (get name d))) d)))
      ≡ (if name == n && key == k then some v else get k (series (get n d)))
unfolding series
get-series-put name n key k v d = ground (
  arith,
  get-put name n (put key v (series (get name d))) d,
  get-put key k v (series (get name d)),
  (list_eq {A = ℕ}).beq_iff name n,
)

-- The value that a registry has after a counter's increment.
pub record Grown (name : Text) (amount : ℕ) (labels : Dict Text Text) (r next : MetricsRegistry)
    : Type 0 where
  pub metric : MetricSpec
  pub key : Key
  pub keyed : Keyed name labels counter (metric, key)
  pub before : ℕ
  pub was : value_at name key r ≡ some before
  pub is_counted : value_at name key next ≡ some (before + amount)
  pub others :
      (n : Text) (k : Key) → (name == n && key == k) ≡ false → value_at n k next ≡ value_at n k r
  pub same_histograms : next.histograms ≡ r.histograms

increment_found-Grown :
    (name : Text) (labels : Dict Text Text) (found : MetricSpec × Key) (amount : ℕ) (o : Option ℕ)
    (r next : MetricsRegistry)
    → Keyed name labels counter found
    → value_at name found.1 r ≡ o
    → increment_found name found.1 amount o r ≡ ok next
    → Grown name amount labels r next
unfolding increment_found store_value value_at
increment_found-Grown name labels found amount none r next keyed was h = absurd (cc)
increment_found-Grown name labels found amount (some n) r next keyed was h =
    let key = found.1 in
    let stored : record r {
      values = put name (put key (n + amount) (series (get name r.values))) r.values;
    }
        ≡ next =
      ground (arith, h) in
    subst (Grown name amount labels r) stored (record {
      metric = found.0;
      key = key;
      keyed = keyed;
      before = n;
      was = was;
      is_counted =
          get-series-put name name key key (n + amount) r.values
          ∙ ground (arith, (list_eq {A = ℕ}).beq_iff name name, key_eq.beq_iff key key);
      others =
          λ m k other. get-series-put name m key k (n + amount) r.values ∙ ground (arith, other);
      same_histograms = refl;
    })

-- An increment that is accepted names a counter and gives one allowed value for each of its labels and
-- no other label; it adds the amount to the series of those values, which was there, and leaves every
-- other series and every histogram as it was.
pub increment-Grown :
    (name : Text) (amount : ℕ) (labels : Dict Text Text) (r next : MetricsRegistry)
    → increment name amount labels r ≡ ok next
    → Grown name amount labels r next
unfolding increment
increment-Grown name amount labels r next h =
    bind-elim (metric_key name labels counter) _ (Grown name amount labels r next)
      (λ (found : MetricSpec × Key) known more.
        increment_found-Grown name labels found amount (value_at name found.1 r) r next
          (metric_key-Keyed name labels counter found known) refl more)
      h
