-- ===== src/NatNeg/Activate/Replaced.antt =====
-- The relays that a new one replaces: those that one of its addresses is bound to.
use fruitspy.Prelude.{
  Bytes, ℕ, ◌≡◌, refl, sym, subst, true, none, some, List, [], ◌∷◌, inl, inr, ◌==◌, nat_eq, pair_eq,
  Bool-cases, Option-cases, if-elim,
}
use fruitspy.Dict.{get}
use fruitspy.State.{Address, address_eq, bytes_eq}
use fruitspy.NatNeg.Relay.Links.{Bindings}
use fruitspy.NatNeg.Relay.Ends.{Among}
use fruitspy.NatNeg.Activate.{cookie_in, add_cookie, replaced, with_cookie}

cookie_in-Among : (c : Bytes) (cs : List Bytes) → cookie_in c cs ≡ true → Among c cs
unfolding cookie_in
cookie_in-Among c [] h = cc
cookie_in-Among c (d ∷ cs) h = elim (Bool-cases (d == c)) [
  | inl same ↦ inl ((bytes_eq.beq_iff d c).0 same)
  | inr other ↦ inr (cookie_in-Among c cs (rw other at h))
]

Among-add_cookie : (c : Bytes) (cs : List Bytes) → Among c (add_cookie c cs)
unfolding add_cookie
Among-add_cookie c cs =
    if-elim (Among c) (cookie_in c cs) (λ there. cookie_in-Among c cs there) (λ absent. inl refl)

Among-add_cookie_old : (c d : Bytes) (cs : List Bytes) → Among c cs → Among c (add_cookie d cs)
unfolding add_cookie
Among-add_cookie_old c d cs h = if-elim (Among c) (cookie_in d cs) (λ there. h) (λ absent. inr h)

replaced_bound :
    (a : Address) (rest : List Address) (b : Bindings) (c : Bytes) (i : ℕ)
    → get a b ≡ some (c, i)
    → replaced (a ∷ rest) b ≡ add_cookie c (replaced rest b)
unfolding replaced with_cookie
replaced_bound a rest b c i h = rw h refl

replaced_unbound :
    (a : Address) (rest : List Address) (b : Bindings)
    → get a b ≡ none
    → replaced (a ∷ rest) b ≡ replaced rest b
unfolding replaced with_cookie
replaced_unbound a rest b h = rw h refl

-- The relay that an address is bound to is among those replaced.
pub replaced_head :
    (a : Address) (rest : List Address) (b : Bindings) (c : Bytes) (i : ℕ)
    → get a b ≡ some (c, i)
    → Among c (replaced (a ∷ rest) b)
replaced_head a rest b c i h =
    subst (Among c) (sym (replaced_bound a rest b c i h)) (Among-add_cookie c (replaced rest b))

pub replaced_tail :
    (a : Address) (rest : List Address) (b : Bindings) (c : Bytes)
    → Among c (replaced rest b)
    → Among c (replaced (a ∷ rest) b)
replaced_tail a rest b c h = elim (Option-cases (get a b)) [
  | inl free ↦ subst (Among c) (sym (replaced_unbound a rest b free)) h
  | inr ((d, i), at) ↦
      subst (Among c) (sym (replaced_bound a rest b d i at))
        (Among-add_cookie_old c d (replaced rest b) h)
]
