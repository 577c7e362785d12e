-- ===== src/ConnectionAdmission/Counts.antt =====
-- The counts are right: the total is the sum over the sources, within both limits.
use fruitspy.Prelude.{
  Text, list_eq, nat_eq, ℕ, ◌+◌, ◌-◌, ◌≤◌, ◌≡◌, refl, true, Option, none, some, [], ◌∷◌, arith, leb,
  Bool-cases, inl, inr, ◌==◌, All,
}
use fruitspy.Dict.{Dict, get, put, remove}
use fruitspy.Dict.Laws.{
  get-put, beq_refl, Unique, put-Unique, remove-put_new, put-put, put_same, remove_absent,
  remove-Unique, All-put, All-get, All-remove,
}
use fruitspy.ConnectionAdmission.{
  ConnectionAdmission, create, count, acquire, release, release_counted,
}

pub sum : Dict Text ℕ → ℕ
sum [] = 0
sum ((k, n) ∷ d) = n + sum d

found : Option ℕ → ℕ
found none = 0
found (some n) = n

sum-put : (k : Text) (n : ℕ) (d : Dict Text ℕ) → sum (put k n d) + found (get k d) ≡ sum d + n
unfolding sum put get found
sum-put k n [] = omega arith
sum-put k n ((i, m) ∷ d) = ground (arith, sum-put k n d)

sum-remove : (k : Text) (d : Dict Text ℕ) → Unique d → sum (remove k d) + found (get k d) ≡ sum d
unfolding sum remove get found
sum-remove k [] h = refl
sum-remove k ((i, m) ∷ d) h =
    ground (arith, sum-remove k d h.1, remove_absent k d, (list_eq {A = ℕ}).beq_iff i k)

-- Each source has between one and `per_source_limit` connections.
abbrev pub IsCounted : ℕ → Text × ℕ → Type 0
IsCounted limit (k, n) = (1 ≤ n) × (n ≤ limit)

pub record IsConsistent (a : ConnectionAdmission) : Type 0 where
  pub total_is_sum : a.total ≡ sum a.sources
  pub within : a.total ≤ a.total_limit
  pub counted : All (IsCounted a.per_source_limit) a.sources
  pub unique : Unique a.sources

pub create-IsConsistent : (m n : ℕ) → IsConsistent (create m n)
unfolding create sum
create-IsConsistent m n = record {
  total_is_sum = refl;
  within = omega arith;
  counted = tt;
  unique = tt;
}

count-found :
    (source : Text) (a : ConnectionAdmission) → count source a ≡ found (get source a.sources)
unfolding count found
count-found source a = ground arith

-- Where the counts are right, a granted or refused connection keeps them right.
pub acquire-IsConsistent :
    (source : Text) (a : ConnectionAdmission) → IsConsistent a → IsConsistent (acquire source a).1
unfolding acquire
acquire-IsConsistent source a h = elim (Bool-cases (leb a.total_limit a.total)) [
  | inl full ↦ rw full h
  | inr room ↦ rw room (elim (Bool-cases (leb a.per_source_limit (count source a))) [
    | inl busy ↦ rw busy h
    | inr fine ↦ rw fine (record {
      total_is_sum = omega (
        arith,
        sum-put source (count source a + 1) a.sources,
        count-found source a,
        h.total_is_sum,
      );
      within = ground arith;
      counted =
          All-put (IsCounted a.per_source_limit) source _ a.sources (λ j e. ground arith) h.counted;
      unique = put-Unique source _ a.sources h.unique;
    })
  ])
]

release_counted-IsConsistent :
    (source : Text) (o : Option ℕ) (a : ConnectionAdmission)
    → get source a.sources ≡ o
    → IsConsistent a
    → IsConsistent (release_counted source o a)
unfolding release_counted found
release_counted-IsConsistent source none a e h = h
release_counted-IsConsistent source (some n) a e h =
    let limits = All-get (IsCounted a.per_source_limit) source a.sources h.counted e in
    elim (Bool-cases (n == 1)) [
      | inl last ↦ rw last (record {
        total_is_sum = ground (arith, sum-remove source a.sources h.unique);
        within = omega (arith, h.within);
        counted = All-remove (IsCounted a.per_source_limit) source a.sources h.counted;
        unique = remove-Unique source a.sources h.unique;
      })
      | inr more ↦ rw more (record {
        total_is_sum = ground (arith, sum-put source (n - 1) a.sources);
        within = omega (arith, h.within);
        counted =
            All-put (IsCounted a.per_source_limit) source (n - 1) a.sources (λ j e. ground arith)
              h.counted;
        unique = put-Unique source (n - 1) a.sources h.unique;
      })
    ]

-- Where the counts are right, closing a connection keeps them right, and so does a release of an
-- unknown source.
pub release-IsConsistent :
    (source : Text) (a : ConnectionAdmission) → IsConsistent a → IsConsistent (release source a)
unfolding release
release-IsConsistent source a h =
    release_counted-IsConsistent source (get source a.sources) a refl h

abbrev granted_state : Text → ℕ → ConnectionAdmission → ConnectionAdmission
granted_state source n a = record a { total = a.total + 1; sources = put source (n + 1) a.sources }

acquire_granted :
    (source : Text) (a : ConnectionAdmission)
    → (acquire source a).0 ≡ true
    → (acquire source a).1 ≡ granted_state source (count source a) a
unfolding acquire
acquire_granted source a h = ground arith

release-granted_state :
    (source : Text) (o : Option ℕ) (a : ConnectionAdmission)
    → get source a.sources ≡ o
    → All (IsCounted a.per_source_limit) a.sources
    → release_counted source (some (found o + 1)) (granted_state source (found o) a) ≡ a
unfolding release_counted found
release-granted_state source none a e h = ground (arith, remove-put_new source 1 a.sources e)
release-granted_state source (some n) a e h =
    let limits = All-get (IsCounted a.per_source_limit) source a.sources h e in
    ground (arith, put-put source (n + 1) n a.sources, put_same source n a.sources e)

get_granted :
    (source : Text) (n : ℕ) (a : ConnectionAdmission)
    → get source (granted_state source n a).sources ≡ some (n + 1)
get_granted source n a = simp (get-put, beq_refl)

-- Where the counts are right, a release undoes a granted `acquire` of the same source, to the last
-- entry of the table.
pub release-acquire :
    (source : Text) (a : ConnectionAdmission)
    → IsConsistent a
    → (acquire source a).0 ≡ true
    → release source (acquire source a).1 ≡ a
unfolding release
release-acquire source a h granted =
    rw
      (
        acquire_granted source a granted,
        count-found source a,
        get_granted source (found (get source a.sources)) a,
      )
      (release-granted_state source (get source a.sources) a refl h.counted)
