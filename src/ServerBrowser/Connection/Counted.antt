-- ===== src/ServerBrowser/Connection/Counted.antt =====
-- What each step of a connection does to the counts of the open connections.
use fruitspy.Prelude.{
  Text, ℕ, ◌+◌, ◌-◌, ◌≤◌, ◌≡◌, refl, sym, ap, ◌∙◌, subst, Bool, true, false, Option, none, some,
  List, [], ◌∷◌, ◌++◌, length, length-append, if◌then◌else◌, ◌==◌, nat_eq, list_eq, arith,
  Bool-cases, inl, inr,
}
use fruitspy.Dict.Laws.{get-put, get-remove, beq_refl}
use fruitspy.Drain.{is_draining}
use fruitspy.ConnectionAdmission.{ConnectionAdmission, acquire, release, release_counted, count}
use fruitspy.ServerBrowser.{ServerBrowser, count_metric}
use fruitspy.ServerBrowser.Connection.{
  Connection, open_connection, open_admitted, gauge_connections,
}

-- the connections of a source
unfoldable pub connections_from : Text → List Connection → ℕ
connections_from source [] = 0
connections_from source (c ∷ cs) =
    (if c.source == source then 1 else 0) + connections_from source cs

from-append :
    (source : Text) (xs ys : List Connection)
    → connections_from source (xs ++ ys) ≡ connections_from source xs + connections_from source ys
unfolding connections_from
from-append source [] ys = omega arith
from-append source (c ∷ xs) ys = omega (arith, from-append source xs ys)

-- The counts of the admission are those of the open connections.
pub record IsCounted (a : ConnectionAdmission) (cs : List Connection) : Type 0 where
  pub total_counted : a.total ≡ length cs
  pub source_counted : (source : Text) → count source a ≡ connections_from source cs

count-acquire :
    (source j : Text) (a : ConnectionAdmission)
    → (acquire source a).0 ≡ true
    → ((acquire source a).1.total ≡ a.total + 1)
      × (count j (acquire source a).1 ≡ (if source == j then 1 else 0) + count j a)
unfolding acquire count
count-acquire source j a granted =
    ground
      (arith, get-put source j (count source a + 1) a.sources, (list_eq {A = ℕ}).beq_iff source j)

count-release :
    (source j : Text) (a : ConnectionAdmission)
    → 1 ≤ count source a
    → ((release source a).total ≡ a.total - 1)
      × (count j (release source a) ≡ count j a - (if source == j then 1 else 0))
unfolding release release_counted count
count-release source j a h = ground (
  arith,
  h,
  get-put source j (count source a - 1) a.sources,
  get-remove source j a.sources,
  (list_eq {A = ℕ}).beq_iff source j,
)

source_of : Text → Option Connection → Text
source_of source none = source
source_of source (some c) = c.source

open_admitted_lem :
    (source : Text) (admitted : Bool) (s t : ServerBrowser) (c : Connection)
    → open_admitted source admitted s ≡ (some c, t)
    → (admitted ≡ true) × (t.admission ≡ s.admission) × (c.source ≡ source)
unfolding open_admitted gauge_connections count_metric source_of
open_admitted_lem source true s t c h =
    (refl, sym (ap (λ r. r.1.admission) h), sym (ap (λ r. source_of source r.0) h))
open_admitted_lem source false s t c h = absurd (let e = ap (λ r. r.0) h in cc)

open_connection_lem :
    (source : Text) (s t : ServerBrowser) (c : Connection)
    → open_connection source s ≡ (some c, t)
    → ((acquire source s.admission).0 ≡ true)
      × (t.admission ≡ (acquire source s.admission).1)
      × (c.source ≡ source)
unfolding open_connection
open_connection_lem source s t c h = elim (Bool-cases (is_draining s.drain)) [
  | inl drains ↦ absurd (let e = ap (λ r. r.0) (rw drains at h) in cc)
  | inr on ↦ open_admitted_lem source _ _ t c (rw on at h)
]

acquire_refused :
    (source : Text) (a : ConnectionAdmission)
    → (acquire source a).0 ≡ false
    → (acquire source a).1 ≡ a
unfolding acquire
acquire_refused source a h = ground arith

open_admitted_refused :
    (source : Text) (admitted : Bool) (s t : ServerBrowser)
    → open_admitted source admitted s ≡ (none, t)
    → (admitted ≡ false) × (t.admission ≡ s.admission)
unfolding open_admitted gauge_connections count_metric
open_admitted_refused source true s t h = absurd (let e = ap (λ r. r.0) h in cc)
open_admitted_refused source false s t h = (refl, sym (ap (λ r. r.1.admission) h))

pub open_connection_refused :
    (source : Text) (s t : ServerBrowser)
    → open_connection source s ≡ (none, t)
    → t.admission ≡ s.admission
unfolding open_connection count_metric
open_connection_refused source s t h = elim (Bool-cases (is_draining s.drain)) [
  | inl drains ↦ sym (ap (λ r. r.1.admission) (rw drains at h))
  | inr on ↦
      let refused = open_admitted_refused source _ _ t (rw on at h) in
      refused.1 ∙ acquire_refused source s.admission refused.0
]

pub open_connection-IsCounted :
    (source : Text) (s t : ServerBrowser) (c : Connection) (cs : List Connection)
    → open_connection source s ≡ (some c, t)
    → IsCounted s.admission cs
    → IsCounted t.admission (c ∷ cs)
unfolding connections_from
open_connection-IsCounted source s t c cs h counted =
    let (granted, taken, same) = open_connection_lem source s t c h in
    subst (λ a. IsCounted a (c ∷ cs)) (sym taken)
      (record {
        total_counted =
            omega
              (arith, (count-acquire source source s.admission granted).0, counted.total_counted);
        source_counted = λ j.
            ground (
              arith,
              same,
              (count-acquire source j s.admission granted).1,
              counted.source_counted j,
            );
      })

-- One connection in the place of another of the same source.
pub replace-IsCounted :
    (a b : ConnectionAdmission) (before after : List Connection) (c d : Connection)
    → b ≡ a
    → d.source ≡ c.source
    → IsCounted a (before ++ c ∷ after)
    → IsCounted b (before ++ d ∷ after)
unfolding connections_from
replace-IsCounted a b before after c d same from counted =
    subst (λ x. IsCounted x (before ++ d ∷ after)) (sym same)
      (record {
        total_counted = ground (
          arith,
          counted.total_counted,
          length-append before (c ∷ after),
          length-append before (d ∷ after),
        );
        source_counted = λ j. ground (
          arith,
          from,
          counted.source_counted j,
          from-append j before (c ∷ after),
          from-append j before (d ∷ after),
        );
      })

-- A connection that ends.
pub close-IsCounted :
    (a : ConnectionAdmission) (before after : List Connection) (c : Connection)
    → IsCounted a (before ++ c ∷ after)
    → IsCounted (release c.source a) (before ++ after)
unfolding connections_from
close-IsCounted a before after c counted =
    let one : 1 ≤ count c.source a = ground (
      arith,
      beq_refl c.source,
      counted.source_counted c.source,
      from-append c.source before (c ∷ after),
    ) in
    record {
      total_counted = ground (
        arith,
        (count-release c.source c.source a one).0,
        counted.total_counted,
        length-append before (c ∷ after),
        length-append before after,
      );
      source_counted = λ j. ground (
        arith,
        (count-release c.source j a one).1,
        counted.source_counted j,
        from-append j before (c ∷ after),
        from-append j before after,
      );
    }
