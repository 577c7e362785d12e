-- ===== src/Dict.antt =====
-- Python's `dict`: an association list in insertion order. A write to a key that is there keeps
-- the key's place; `del` and `pop` drop the key; a comprehension with `if` keeps the order.
pub mod Laws
use fruitspy.Prelude.{
  ℕ, Bool, true, false, Option, none, some, List, [], ◌∷◌, Eq, ◌==◌, if◌then◌else◌, length, map,
}

abbrev pub Dict {ℓ κ} : Type ℓ → Type κ → Type (ℓ ⊔ κ)
Dict K V = List (K × V)

module _ {ℓ κ} {K : Type ℓ} {V : Type κ} ⦃e : Eq K⦄ where
  -- d.get(k)
  unfoldable pub get : K → Dict K V → Option V
  get k [] = none
  get k ((j, v) ∷ d) = if j == k then some v else get k d

  -- d[k] = v
  unfoldable pub put : K → V → Dict K V → Dict K V
  put k v [] = (k, v) ∷ []
  put k v ((j, w) ∷ d) = let rest = put k v d in if j == k then (j, v) ∷ d else (j, w) ∷ rest

  -- d.pop(k, None), del d[k]
  unfoldable pub remove : K → Dict K V → Dict K V
  remove k [] = []
  remove k ((j, v) ∷ d) = let rest = remove k d in if j == k then rest else (j, v) ∷ rest

  -- k in d
  unfoldable pub contains : K → Dict K V → Bool
  unfolding get
  contains k d = elim (get k d) [ none ↦ false | some _ ↦ true ]

-- d.get(k) == v, of the value looked up
unfoldable pub holds {ℓ} : {V : Type ℓ} ⦃f : Eq V⦄ → V → Option V → Bool
holds v none = false
holds v (some w) = w == v

module _ {ℓ κ} {K : Type ℓ} {V : Type κ} ⦃e : Eq K⦄ ⦃f : Eq V⦄ where
  -- if d.get(k) == v: d.pop(k, None)
  unfoldable pub remove_if : K → V → Dict K V → Dict K V
  unfolding holds
  remove_if k v d = if holds v (get k d) then remove k d else d

module _ {ℓ κ} {K : Type ℓ} {V : Type κ} where
  -- {k: v for k, v in d.items() if p(v)}
  unfoldable pub retain : (V → Bool) → Dict K V → Dict K V
  retain p [] = []
  retain p ((j, v) ∷ d) = let rest = retain p d in if p v then (j, v) ∷ rest else rest

  unfoldable pub keys : Dict K V → List K
  keys [] = []
  keys ((j, v) ∷ d) = j ∷ keys d

  unfoldable pub values : Dict K V → List V
  values [] = []
  values ((j, v) ∷ d) = v ∷ values d
