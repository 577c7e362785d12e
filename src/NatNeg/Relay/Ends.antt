-- ===== src/NatNeg/Relay/Ends.antt =====
-- What the end of relays takes away: it only drops relays and bindings, and after the relays that
-- use an address have ended the address is free.
use fruitspy.Prelude.{
  Bytes, ℕ, ◌≤◌, ◌≡◌, ◌≢◌, refl, sym, ◌∙◌, subst, Bool, Option, none, some, List, [], ◌∷◌, ◌⊎◌, inl,
  inr, arith, nat_eq, pair_eq, Option-cases, if-elim, ◌+◌, length, ◌&&◌, not, ltb,
}
use fruitspy.Clock.{seconds}
use fruitspy.Dict.{Dict, get, remove, values}
use fruitspy.Dict.Laws.{get-remove, length-remove-le}
use fruitspy.State.{Address, address_eq, bytes_eq}
use fruitspy.NatNeg.{NatNeg, RelaySession, count_metric}
use fruitspy.NatNeg.Relay.{finish_found, finish_relay, finish_all, expire_relays}
use fruitspy.NatNeg.Relay.Links.{get-unbind, unbound}
use fruitspy.NatNeg.Relay.Finish.{HasRelays, finish_relay-HasRelays}

-- From `s` to `t` relays and bindings were only dropped.
pub record Shrunk (s t : NatNeg) : Type 0 where
  pub config : t.config ≡ s.config
  pub fewer : length t.relays ≤ length s.relays
  pub absent : (c : Bytes) → get c s.relays ≡ none → get c t.relays ≡ none
  pub bound :
      (a : Address) (v : Bytes × ℕ)
      → get a t.relay_by_address ≡ some v
      → get a s.relay_by_address ≡ some v

pub Shrunk-refl : (s : NatNeg) → Shrunk s s
Shrunk-refl s = record { config = refl; fewer = omega arith; absent = λ c h. h; bound = λ a v h. h }

pub Shrunk-trans : (s t u : NatNeg) → Shrunk s t → Shrunk t u → Shrunk s u
Shrunk-trans s t u f g = record {
  config = g.config ∙ f.config;
  fewer = omega (arith, f.fewer, g.fewer);
  absent = λ c h. g.absent c (f.absent c h);
  bound = λ a v h. f.bound a v (g.bound a v h);
}

remove_absent :
    (c d : Bytes) (relays : Dict Bytes RelaySession)
    → get d relays ≡ none
    → get d (remove c relays) ≡ none
remove_absent c d relays h = ground (arith, get-remove c d relays)

finish_found-Shrunk :
    (c : Bytes) (o : Option RelaySession) (s : NatNeg) → Shrunk s (finish_found c o s)
unfolding finish_found count_metric
finish_found-Shrunk c none s = Shrunk-refl s
finish_found-Shrunk c (some r) s = record {
  config = refl;
  fewer = length-remove-le c s.relays;
  absent = λ d h. remove_absent c d s.relays h;
  bound = λ a v h. get-unbind c (values r.endpoints) s.relay_by_address a h;
}

pub finish_relay-Shrunk : (c : Bytes) (s : NatNeg) → Shrunk s (finish_relay c s)
unfolding finish_relay
finish_relay-Shrunk c s = finish_found-Shrunk c (get c s.relays) s

pub finish_all-Shrunk : (cs : List Bytes) (s : NatNeg) → Shrunk s (finish_all cs s)
unfolding finish_all
finish_all-Shrunk [] s = Shrunk-refl s
finish_all-Shrunk (c ∷ cs) s =
    Shrunk-trans s _ _ (finish_relay-Shrunk c s) (finish_all-Shrunk cs (finish_relay c s))

-- An address that is free stays free.
pub stays_free :
    (s t : NatNeg) (a : Address)
    → Shrunk s t
    → get a s.relay_by_address ≡ none
    → get a t.relay_by_address ≡ none
stays_free s t a f h = elim (Option-cases (get a t.relay_by_address)) [
  | inl free ↦ free
  | inr (v, at) ↦ let gone : none ≡ some v = sym h ∙ f.bound a v at in cc
]

finish_found_free :
    (c : Bytes) (o : Option RelaySession) (s : NatNeg) (a : Address) (i : ℕ)
    → get c s.relays ≡ o
    → HasRelays s
    → get a (finish_found c o s).relay_by_address ≢ some (c, i)
unfolding finish_found count_metric
finish_found_free c none s a i g h at =
    let (r, found, e, m, x) = h.linked.targets a c i at in absurd (cc)
finish_found_free c (some r) s a i g h at =
    unbound s.relays s.relay_by_address c r g h.linked a i at

abbrev pub Among : Bytes → List Bytes → Type 0
Among c [] = ⊥
Among c (d ∷ cs) = (d ≡ c) ⊎ Among c cs

-- When every relay that an address is bound to is among those that end, the address is free.
pub freed :
    (cs : List Bytes) (s : NatNeg) (a : Address)
    → HasRelays s
    → ((c : Bytes) (i : ℕ) → get a s.relay_by_address ≡ some (c, i) → Among c cs)
    → get a (finish_all cs s).relay_by_address ≡ none
unfolding finish_all finish_relay
freed [] s a h among = elim (Option-cases (get a s.relay_by_address)) [
  | inl free ↦ free
  | inr ((c, i), at) ↦ absurd (among c i at)
]
freed (d ∷ cs) s a h among = freed cs (finish_relay d s) a (finish_relay-HasRelays d s h) (λ c i at.
    elim (among c i ((finish_relay-Shrunk d s).bound a (c, i) at)) [
      | inl same ↦ absurd (
          finish_found_free d (get d s.relays) s a i refl h (
            subst (λ (x : Bytes). get a (finish_relay d s).relay_by_address ≡ some (x, i))
              (sym same) at))
      | inr later ↦ later
    ])

pub expire_relays-Shrunk :
    (now : ℕ) (force : Bool) (s : NatNeg) → Shrunk s (expire_relays now force s)
unfolding expire_relays
expire_relays-Shrunk now force s =
    if-elim (Shrunk s) (not force && ltb now s.next_relay_expiry) (λ early. Shrunk-refl s)
      (λ due.
        Shrunk-trans s (record s { next_relay_expiry = now + seconds 1 }) _
          (record { config = refl; fewer = omega arith; absent = λ c h. h; bound = λ a v h. h })
          (finish_all-Shrunk _ _))
