-- ===== src/Metrics/Registry/Labels.antt =====
-- The key of a series, as the labels of a call give it.
use fruitspy.Prelude.{
  Text, ℕ, ◌≡◌, refl, ap, ◌∙◌, subst, Bool, true, false, Option, none, some, List, [], ◌∷◌, ◌++◌,
  length, if◌then◌else◌, ◌==◌, nat_eq, list_eq, ok, err, Error, value_error, or_raise, ◌>>=◌,
  bind-elim, arith, Bool-cases, inl, inr,
}
use fruitspy.Dict.{Dict, get}
use fruitspy.Metrics.Specs.{MetricKind, counter, gauge, histogram, MetricSpec, metric_specs}
use fruitspy.Metrics.Registry.{
  Key, contains_text, label_value, key_of, find_spec, same_kind, metric_key,
}

-- An entry of a list.
abbrev pub IsOneOf : Text → List Text → Type 0
IsOneOf value xs = (before : List Text) × (after : List Text) × (xs ≡ before ++ value ∷ after)

-- The key that labels give: the value of each label of the metric, in the metric's order, each one that
-- the metric allows.
abbrev pub Labelled : Dict Text Text → List (Text × List Text) → Key → Type 0
Labelled labels [] key = key ≡ []
Labelled labels ((label, allowed) ∷ rest) key =
    (value : Text) × (others : Key) × (key ≡ value ∷ others)
    × (get label labels ≡ some value)
    × IsOneOf value allowed
    × Labelled labels rest others

contains_text-IsOneOf :
    (value : Text) (allowed : List Text)
    → contains_text value allowed ≡ true
    → IsOneOf value allowed
unfolding contains_text
contains_text-IsOneOf value [] h = absurd (cc)
contains_text-IsOneOf value (x ∷ rest) h = elim (Bool-cases (x == value)) [
  | inl same ↦ ([], rest, ap (λ y. y ∷ rest) (((list_eq {A = ℕ}).beq_iff x value).0 same))
  | inr other ↦
      let (before, after, split) = contains_text-IsOneOf value rest (ground (arith, h, other)) in
      (x ∷ before, after, ap (λ ys. x ∷ ys) split)
]

checked_value :
    (found : Text) (allowed : List Text) (value : Text)
    → (if contains_text found allowed then ok found else err value_error) ≡ ok value
    → (found ≡ value) × IsOneOf value allowed
checked_value found allowed value h =
    let passed : contains_text found allowed ≡ true = ground (arith, h) in
    let same : found ≡ value = ground (arith, h) in
    (same, subst (λ v. IsOneOf v allowed) same (contains_text-IsOneOf found allowed passed))

raised-some : {A : Type 0} (e : Error) (o : Option A) (a : A) → or_raise e o ≡ ok a → o ≡ some a
raised-some e none a h = absurd (cc)
raised-some e (some x) a h = ground (arith, h)

label_value-IsOneOf :
    (labels : Dict Text Text) (label : Text) (allowed : List Text) (value : Text)
    → label_value labels label allowed ≡ ok value
    → (get label labels ≡ some value) × IsOneOf value allowed
unfolding label_value
label_value-IsOneOf labels label allowed value h =
    bind-elim (or_raise value_error (get label labels)) _ _
      (λ found read more.
        let checked = checked_value found allowed value more in
        (raised-some value_error (get label labels) found read ∙ ap some checked.0, checked.1))
      h

key_of-Labelled :
    (labels : Dict Text Text) (specs : List (Text × List Text)) (key : Key)
    → key_of labels specs ≡ ok key
    → Labelled labels specs key
unfolding key_of
key_of-Labelled labels [] key h = ground (arith, h)
key_of-Labelled labels ((label, allowed) ∷ rest) key h =
    bind-elim (label_value labels label allowed) _ _
      (λ value read more.
        bind-elim (key_of labels rest) _ _
          (λ others keyed whole.
            let checked = label_value-IsOneOf labels label allowed value read in
            (
              value,
              others,
              ground (arith, whole),
              checked.0,
              checked.1,
              key_of-Labelled labels rest others keyed,
            ))
          more)
      h

same_kind_lem : (a b : MetricKind) → same_kind a b ≡ true → a ≡ b
unfolding same_kind
same_kind_lem counter counter h = refl
same_kind_lem counter gauge h = absurd (cc)
same_kind_lem counter histogram h = absurd (cc)
same_kind_lem gauge counter h = absurd (cc)
same_kind_lem gauge gauge h = refl
same_kind_lem gauge histogram h = absurd (cc)
same_kind_lem histogram counter h = absurd (cc)
same_kind_lem histogram gauge h = absurd (cc)
same_kind_lem histogram histogram h = refl

-- A metric of the given name and kind, and the key that the labels give, with no label to spare.
pub record Keyed (name : Text) (labels : Dict Text Text) (kind : MetricKind)
    (found : MetricSpec × Key) : Type 0 where
  pub known : find_spec name metric_specs ≡ some found.0
  pub of_kind : found.0.kind ≡ kind
  pub as_many : length labels ≡ length found.0.labels
  pub labelled : Labelled labels found.0.labels found.1

checked-Keyed :
    (name : Text) (labels : Dict Text Text) (kind : MetricKind) (spec : MetricSpec)
    (found : MetricSpec × Key) (fits : Bool)
    → find_spec name metric_specs ≡ some spec
    → (fits ≡ true → (spec.kind ≡ kind) × (length labels ≡ length spec.labels))
    → (if fits then key_of labels spec.labels >>= (λ key. ok (spec, key)) else err value_error)
      ≡ ok found
    → Keyed name labels kind found
checked-Keyed name labels kind spec found false known fine h = absurd (cc)
checked-Keyed name labels kind spec found true known fine h =
    bind-elim (key_of labels spec.labels) _ _
      (λ key keyed whole. subst (Keyed name labels kind) (cc) (record {
        known = known;
        of_kind = (fine refl).0;
        as_many = (fine refl).1;
        labelled = key_of-Labelled labels spec.labels key keyed;
      }))
      h

pub metric_key-Keyed :
    (name : Text) (labels : Dict Text Text) (kind : MetricKind) (found : MetricSpec × Key)
    → metric_key name labels kind ≡ ok found
    → Keyed name labels kind found
unfolding metric_key
metric_key-Keyed name labels kind found h =
    bind-elim (or_raise value_error (find_spec name metric_specs)) _ _
      (λ (spec : MetricSpec) read more.
        checked-Keyed name labels kind spec found _
          (raised-some value_error (find_spec name metric_specs) spec read)
          (λ fits. (same_kind_lem spec.kind kind (ground (arith, fits)), ground (arith, fits)))
          more)
      h
