-- ===== src/Dict/Laws.antt =====
-- The laws of dictionaries: what is found after a write, a removal or a comprehension, and sizes.
use fruitspy.Prelude.{
  subst, ◌≢◌, ap, ◌∙◌, inl, inr, Bool-cases, suc, ◌≤◌, ◌≡◌, refl, Bool, true, false, none, some, [],
  ◌∷◌, arith, Eq, ◌==◌, if◌then◌else◌, length, All,
}
use fruitspy.Dict.{remove_if, Dict, get, put, remove, contains, retain}

module _ {ℓ κ} {K : Type ℓ} {V : Type κ} ⦃e : Eq K⦄ where
  pub get-put :
      (k j : K) (v : V) (d : Dict K V) → get j (put k v d) ≡ (if k == j then some v else get j d)
  unfolding get put
  get-put k j v [] = refl
  get-put k j v ((i, w) ∷ d) =
      ground (arith, e.beq_iff k j, e.beq_iff i k, e.beq_iff i j, get-put k j v d)

  pub get-remove :
      (k j : K) (d : Dict K V) → get j (remove k d) ≡ (if k == j then none else get j d)
  unfolding get remove
  get-remove k j [] = ground arith
  get-remove k j ((i, w) ∷ d) =
      ground (arith, e.beq_iff k j, e.beq_iff i k, e.beq_iff i j, get-remove k j d)

  -- A write adds one entry when the key is new, and none when it is there.
  pub length-put :
      (k : K) (v : V) (d : Dict K V)
      → length (put k v d) ≡ (if contains k d then length d else suc (length d))
  unfolding put contains
  length-put k v [] = refl
  length-put k v ((i, w) ∷ d) = ground (arith, length-put k v d)

  pub length-remove-le : (k : K) (d : Dict K V) → length (remove k d) ≤ length d
  unfolding remove
  length-remove-le k [] = omega arith
  length-remove-le k ((i, w) ∷ d) = ground (arith, length-remove-le k d)

  pub All-put {μ} :
      (P : K × V → Type μ) (k : K) (v : V) (d : Dict K V)
      → ((j : K) → j ≡ k → P (j, v))
      → All P d
      → All P (put k v d)
  unfolding put
  All-put P k v [] p h = (p k refl, tt)
  All-put P k v ((i, w) ∷ d) p h = elim (Bool-cases (i == k)) [
    | inl same ↦ rw same (p i ((e.beq_iff i k).0 same), h.1)
    | inr other ↦ rw other (h.0, All-put P k v d p h.1)
  ]

  pub All-get {μ} :
      (P : K × V → Type μ) (k : K) (d : Dict K V) {v : V} → All P d → get k d ≡ some v → P (k, v)
  unfolding get
  All-get P k [] h g = cc
  All-get P k ((i, w) ∷ d) h g = elim (Bool-cases (i == k)) [
    | inl same ↦ subst P (ground (arith, e.beq_iff i k)) h.0
    | inr other ↦ All-get P k d h.1 (rw other at g)
  ]

  pub All-remove {μ} : (P : K × V → Type μ) (k : K) (d : Dict K V) → All P d → All P (remove k d)
  unfolding remove
  All-remove P k [] h = tt
  All-remove P k ((i, w) ∷ d) h = elim (Bool-cases (i == k)) [
    | inl same ↦ rw same (All-remove P k d h.1)
    | inr other ↦ rw other (h.0, All-remove P k d h.1)
  ]

module _ {ℓ κ} {K : Type ℓ} {V : Type κ} where
  pub length-retain-le : (p : V → Bool) (d : Dict K V) → length (retain p d) ≤ length d
  unfolding retain
  length-retain-le p [] = omega arith
  length-retain-le p ((i, w) ∷ d) = ground (arith, length-retain-le p d)

  pub All-retain {μ} :
      (P : K × V → Type μ) (p : V → Bool) (d : Dict K V) → All P d → All P (retain p d)
  unfolding retain
  All-retain P p [] h = tt
  All-retain P p ((i, w) ∷ d) h = elim (Bool-cases (p w)) [
    | inl kept ↦ rw kept (h.0, All-retain P p d h.1)
    | inr gone ↦ rw gone (All-retain P p d h.1)
  ]

pub beq_refl {ℓ} : {K : Type ℓ} ⦃e : Eq K⦄ (k : K) → (k == k) ≡ true
beq_refl ⦃e⦄ k = (e.beq_iff k k).1 refl

module _ {ℓ κ} {K : Type ℓ} {V : Type κ} ⦃e : Eq K⦄ where
  -- A comprehension keeps what is found under a key, if the test accepts it.
  pub get-retain_kept :
      (p : V → Bool) (k : K) (d : Dict K V) {v : V}
      → get k d ≡ some v
      → p v ≡ true
      → get k (retain p d) ≡ some v
  unfolding get retain
  get-retain_kept p k [] g t = cc
  get-retain_kept p k ((i, w) ∷ d) {v} g t = elim (Bool-cases (i == k)) [
    | inl same ↦
        let found : w ≡ v = ground arith in
        let kept : p w ≡ true = ap p found ∙ t in rw kept (rw same (ap some found))
    | inr other ↦ let rest = get-retain_kept p k d (rw other at g) t in ground (arith, rest)
  ]

  -- No key stands twice, as in every Python dictionary.
  abbrev pub Unique : Dict K V → Type κ
  Unique [] = Unit
  Unique ((i, w) ∷ d) = (get i d ≡ none) × Unique d

  pub put-Unique : (k : K) (v : V) (d : Dict K V) → Unique d → Unique (put k v d)
  unfolding get put
  put-Unique k v [] h = (refl, tt)
  put-Unique k v ((i, w) ∷ d) h = elim (Bool-cases (i == k)) [
    | inl same ↦ rw same h
    | inr other ↦ rw other (
      rw (get-put k i v d) (ground (arith, e.beq_iff k i, e.beq_iff i k, h.0)),
      put-Unique k v d h.1,
    )
  ]

  get-remove-none : (k j : K) (d : Dict K V) → get j d ≡ none → get j (remove k d) ≡ none
  get-remove-none k j d h = ground (arith, get-remove k j d)

  pub remove-Unique : (k : K) (d : Dict K V) → Unique d → Unique (remove k d)
  unfolding remove
  remove-Unique k [] h = tt
  remove-Unique k ((i, w) ∷ d) h = elim (Bool-cases (i == k)) [
    | inl same ↦ rw same (remove-Unique k d h.1)
    | inr other ↦ rw other (get-remove-none k i d h.0, remove-Unique k d h.1)
  ]

  get-retain-none :
      (p : V → Bool) (k : K) (d : Dict K V) → get k d ≡ none → get k (retain p d) ≡ none
  unfolding get retain
  get-retain-none p k [] g = refl
  get-retain-none p k ((i, w) ∷ d) g = ground (arith, get-retain-none p k d)

  pub retain-Unique : (p : V → Bool) (d : Dict K V) → Unique d → Unique (retain p d)
  unfolding retain
  retain-Unique p [] h = tt
  retain-Unique p ((i, w) ∷ d) h = elim (Bool-cases (p w)) [
    | inl kept ↦ rw kept (get-retain-none p i d h.0, retain-Unique p d h.1)
    | inr gone ↦ rw gone (retain-Unique p d h.1)
  ]

  -- What a comprehension leaves under a key.
  pub get-retain :
      (p : V → Bool) (k : K) (d : Dict K V)
      → Unique d
      → get k (retain p d) ≡ elim (get k d) [ none ↦ none | some v ↦ if p v then some v else none ]
  unfolding get retain
  get-retain p k [] h = refl
  get-retain p k ((i, w) ∷ d) h =
      ground (arith, get-retain p k d h.1, e.beq_iff i k, get-retain-none p i d h.0)

  pub remove_absent : (k : K) (d : Dict K V) → get k d ≡ none → remove k d ≡ d
  unfolding remove get
  remove_absent k [] h = refl
  remove_absent k ((i, w) ∷ d) h = ground (arith, remove_absent k d)

  -- To add a new key and drop it again changes nothing.
  pub remove-put_new : (k : K) (v : V) (d : Dict K V) → get k d ≡ none → remove k (put k v d) ≡ d
  unfolding remove put get
  remove-put_new k v [] h = ground (arith, e.beq_iff k k)
  remove-put_new k v ((i, w) ∷ d) h = ground (arith, remove-put_new k v d)

  -- A second write to a key replaces the first, and a write of what is there changes nothing.
  pub put-put : (k : K) (v w : V) (d : Dict K V) → put k w (put k v d) ≡ put k w d
  unfolding put
  put-put k v w [] = ground (arith, e.beq_iff k k)
  put-put k v w ((i, u) ∷ d) = ground (arith, put-put k v w d)

  pub put_same : (k : K) (v : V) (d : Dict K V) → get k d ≡ some v → put k v d ≡ d
  unfolding put get
  put_same k v [] h = cc
  put_same k v ((i, w) ∷ d) h = ground (arith, put_same k v d)

  pub length-put-le : (k : K) (v : V) (d : Dict K V) → length (put k v d) ≤ suc (length d)
  length-put-le k v d = ground (arith, length-put k v d)

  pub length-put_old :
      (k : K) (v : V) (d : Dict K V) {w : V} → get k d ≡ some w → length (put k v d) ≡ length d
  unfolding contains
  length-put_old k v d h = ground (arith, length-put k v d)

  pub length-put_new :
      (k : K) (v : V) (d : Dict K V) → get k d ≡ none → length (put k v d) ≡ suc (length d)
  unfolding contains
  length-put_new k v d h = ground (arith, length-put k v d)

module _ {ℓ κ} {K : Type ℓ} {V : Type κ} ⦃e : Eq K⦄ ⦃f : Eq V⦄ where
  -- A conditional removal only removes.
  pub get-remove_if :
      (k j : K) (v : V) (d : Dict K V) {x : V} → get j (remove_if k v d) ≡ some x → get j d ≡ some x
  unfolding remove_if
  get-remove_if k j v d h = ground (arith, get-remove k j d)

  -- It removes what it is told to.
  pub get-remove_if_hit : (k : K) (v : V) (d : Dict K V) → get k (remove_if k v d) ≢ some v
  unfolding remove_if
  get-remove_if_hit k v d h = ground (arith, get-remove k k d, e.beq_iff k k, f.beq_iff v v)

  -- It leaves other values alone.
  pub get-remove_if_other :
      (k j : K) (v x : V) (d : Dict K V)
      → get j d ≡ some x
      → x ≢ v
      → get j (remove_if k v d) ≡ some x
  unfolding remove_if
  get-remove_if_other k j v x d h n = ground (arith, get-remove k j d, e.beq_iff k j, f.beq_iff x v)

pub beq_ne {ℓ} : {K : Type ℓ} ⦃e : Eq K⦄ (k j : K) → (k == j) ≡ false → j ≢ k
beq_ne ⦃e⦄ k j h p = ground (arith, e.beq_iff k j)

pub beq_false {ℓ} : {K : Type ℓ} ⦃e : Eq K⦄ (k j : K) → j ≢ k → (k == j) ≡ false
beq_false ⦃e⦄ k j h = ground (arith, e.beq_iff k j)
