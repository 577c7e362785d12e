-- ===== src/NatNeg/Relay/Links.antt =====
-- The two tables of the relay point at each other: an address is bound to an endpoint of a relay
-- that is there, and both endpoints of every relay are bound.
use fruitspy.Prelude.{
  Bytes, ℕ, ◌<◌, ◌≡◌, ◌≢◌, refl, sym, ap, ◌∙◌, subst, none, some, List, [], ◌∷◌, ◌⊎◌, inl, inr,
  arith, ◌==◌, nat_eq, pair_eq, Bool-cases,
}
use fruitspy.Dict.{Dict, get, put, remove, remove_if, values}
use fruitspy.Dict.Laws.{
  get-put, get-remove, beq_ne, get-remove_if, get-remove_if_hit, get-remove_if_other,
}
use fruitspy.State.{Address, address_eq, bytes_eq}
use fruitspy.NatNeg.{RelaySession, RelayEndpoint}
use fruitspy.NatNeg.Relay.{unbind}

abbrev pub Relays : Type 0
Relays = Dict Bytes RelaySession

abbrev pub Bindings : Type 0
Bindings = Dict Address (Bytes × ℕ)

-- The relay under `c` has endpoints 0 and 1 and no other, each bound by its address.
pub record IsBound (bindings : Bindings) (c : Bytes) (r : RelaySession) : Type 0 where
  pub ends :
      (i : ℕ) (e : RelayEndpoint)
      → get i r.endpoints ≡ some e
      → (e.index ≡ i) × (i < 2) × (get e.address bindings ≡ some (c, i))
  pub has : (i : ℕ) → i < 2 → (e : RelayEndpoint) × (get i r.endpoints ≡ some e)

-- What a binding points to.
abbrev pub Target : Relays → Address → Bytes → ℕ → Type 0
Target relays a c i =
    (r : RelaySession) × (get c relays ≡ some r)
    × (e : RelayEndpoint) × (get i r.endpoints ≡ some e)
    × (e.address ≡ a)

pub record Linked (relays : Relays) (bindings : Bindings) : Type 0 where
  pub targets :
      (a : Address) (c : Bytes) (i : ℕ) → get a bindings ≡ some (c, i) → Target relays a c i
  pub relay_ends : (c : Bytes) (r : RelaySession) → get c relays ≡ some r → IsBound bindings c r

pub Linked-empty : Linked [] []
unfolding get
Linked-empty = record { targets = λ a c i h. cc; relay_ends = λ c r h. cc }

In : RelayEndpoint → List RelayEndpoint → Type 0
In e [] = ⊥
In e (x ∷ xs) = (x ≡ e) ⊎ In e xs

In-values :
    (i : ℕ) (d : Dict ℕ RelayEndpoint) {e : RelayEndpoint} → get i d ≡ some e → In e (values d)
unfolding get values In
In-values i [] h = cc
In-values i ((j, x) ∷ d) h = elim (Bool-cases (j == i)) [
  | inl same ↦ inl (ground arith)
  | inr other ↦ inr (In-values i d (rw other at h))
]

-- `unbind` only removes bindings.
pub get-unbind :
    (c : Bytes) (es : List RelayEndpoint) (b : Bindings) (a : Address) {x : Bytes × ℕ}
    → get a (unbind c es b) ≡ some x
    → get a b ≡ some x
unfolding unbind
get-unbind c [] b a h = h
get-unbind c (e ∷ es) b a h =
    get-remove_if e.address a (c, e.index) b
      (get-unbind c es (remove_if e.address (c, e.index) b) a h)

-- It removes the binding of each endpoint of the relay.
unbind_hit :
    (c : Bytes) (es : List RelayEndpoint) (b : Bindings) (e : RelayEndpoint)
    → In e es
    → get e.address (unbind c es b) ≢ some (c, e.index)
unfolding unbind In
unbind_hit c [] b e m h = m
unbind_hit c (x ∷ es) b e (inl same) h =
    let here =
      subst
        (λ (y : RelayEndpoint).
          get y.address (unbind c es (remove_if x.address (c, x.index) b)) ≡ some (c, y.index))
        (sym same) h in
    get-remove_if_hit x.address (c, x.index) b
      (get-unbind c es (remove_if x.address (c, x.index) b) x.address here)
unbind_hit c (x ∷ es) b e (inr later) h =
    unbind_hit c es (remove_if x.address (c, x.index) b) e later h

-- It leaves the bindings of other relays.
unbind_other :
    (c : Bytes) (es : List RelayEndpoint) (b : Bindings) (a : Address) (d : Bytes) (i : ℕ)
    → d ≢ c
    → get a b ≡ some (d, i)
    → get a (unbind c es b) ≡ some (d, i)
unfolding unbind
unbind_other c [] b a d i n h = h
unbind_other c (e ∷ es) b a d i n h =
    unbind_other c es (remove_if e.address (c, e.index) b) a d i n (
      get-remove_if_other e.address a (c, e.index) (d, i) b h
        (λ p. n (ap (λ (x : Bytes × ℕ). x.0) p)))

module _ (relays : Relays) (bindings : Bindings) (c : Bytes) (r : RelaySession)
    (there : get c relays ≡ some r) (l : Linked relays bindings) where
  -- After the end of a relay no address is bound to it.
  pub unbound : (a : Address) (i : ℕ) → get a (unbind c (values r.endpoints) bindings) ≢ some (c, i)
  unbound a i h =
      let (r', g, e, m, at) = l.targets a c i (get-unbind c (values r.endpoints) bindings a h) in
      let same : r' ≡ r = cc in
      let m' : get i r.endpoints ≡ some e = rw same at m in
      let index = ((l.relay_ends c r there).ends i e m').0 in
      unbind_hit c (values r.endpoints) bindings e (In-values i r.endpoints m') (rw (at, index) h)

  pub finish-Linked : Linked (remove c relays) (unbind c (values r.endpoints) bindings)
  finish-Linked = record {
    targets = λ a d i h. elim (Bool-cases (c == d)) [
      | inl same ↦
          absurd (
            unbound a i (h ∙ ap (λ (y : Bytes). some (y, i)) (sym ((bytes_eq.beq_iff c d).0 same))))
      | inr other ↦
          let (r', g, e, m, at) =
            l.targets a d i (get-unbind c (values r.endpoints) bindings a h) in
          (r', rw (get-remove, other) g, e, m, at)
    ];
    relay_ends = λ d r' h. elim (Bool-cases (c == d)) [
      | inl same ↦ let gone : none ≡ some r' = rw (get-remove, same) at h in cc
      | inr other ↦
          let old = l.relay_ends d r' (rw (get-remove, other) at h) in
          record {
            ends = λ i e m.
                let (index, small, b) = old.ends i e m in
                (
                  index,
                  small,
                  unbind_other c (values r.endpoints) bindings e.address d i (beq_ne c d other) b,
                );
            has = old.has;
          }
    ];
  }

-- A relay whose endpoints have the indices and addresses of another's.
pub record SameEnds (r r' : RelaySession) : Type 0 where
  pub back :
      (i : ℕ) (e' : RelayEndpoint)
      → get i r'.endpoints ≡ some e'
      → (e : RelayEndpoint) × (get i r.endpoints ≡ some e)
        × (e'.index ≡ e.index)
        × (e'.address ≡ e.address)
  pub forth :
      (i : ℕ) (e : RelayEndpoint)
      → get i r.endpoints ≡ some e
      → (e' : RelayEndpoint) × (get i r'.endpoints ≡ some e') × (e'.address ≡ e.address)

pub SameEnds-refl : (r r' : RelaySession) → r'.endpoints ≡ r.endpoints → SameEnds r r'
SameEnds-refl r r' same = record {
  back = λ i e' h. (e', rw same at h, refl, refl);
  forth = λ i e h. (e, rw same h, refl);
}

-- One endpoint's balance changes.
pub SameEnds-put :
    (r r' : RelaySession) (k : ℕ) (e e' : RelayEndpoint)
    → get k r.endpoints ≡ some e
    → r'.endpoints ≡ put k e' r.endpoints
    → e'.index ≡ e.index
    → e'.address ≡ e.address
    → SameEnds r r'
SameEnds-put r r' k e e' g same index address = record {
  back = λ i x h. elim (Bool-cases (k == i)) [
    | inl here ↦
        let new : some e' ≡ some x = rw (same, get-put, here) at h in
        let old : get i r.endpoints ≡ some e = rw (← (nat_eq.beq_iff k i).0 here) g in
        (e, old, ground (arith, new), ground (arith, new))
    | inr other ↦ (x, rw (same, get-put, other) at h, refl, refl)
  ];
  forth = λ i x h. elim (Bool-cases (k == i)) [
    | inl here ↦
        let old : get i r.endpoints ≡ some e = rw (← (nat_eq.beq_iff k i).0 here) g in
        (e', rw (same, get-put, here), ground (arith, old))
    | inr other ↦ (x, rw (same, get-put, other) h, refl)
  ];
}

pub store-Linked :
    (relays : Relays) (bindings : Bindings) (c : Bytes) (r r' : RelaySession)
    → get c relays ≡ some r
    → SameEnds r r'
    → Linked relays bindings
    → Linked (put c r' relays) bindings
store-Linked relays bindings c r r' there same l = record {
  targets = λ a d i h.
      let (s, g, e, m, at) = l.targets a d i h in
      elim (Bool-cases (c == d)) [
        | inl here ↦
            let old : get d relays ≡ some r = rw (← (bytes_eq.beq_iff c d).0 here) there in
            let found : s ≡ r = cc in
            let (e', m', at') = same.forth i e (rw found at m) in
            (r', rw (get-put, here), e', m', at' ∙ at)
        | inr other ↦ (s, rw (get-put, other) g, e, m, at)
      ];
  relay_ends = λ d s h. elim (Bool-cases (c == d)) [
    | inl here ↦
        let new : some r' ≡ some s = rw (get-put, here) at h in
        let found : r' ≡ s = ground (arith, new) in
        let c_eq = (bytes_eq.beq_iff c d).0 here in
        let old = l.relay_ends c r there in
        subst (λ (x : RelaySession). IsBound bindings d x) found
          (subst (λ (x : Bytes). IsBound bindings x r') c_eq
            (record {
              ends = λ i e' m'.
                  let (e, m, index, at) = same.back i e' m' in
                  let (ix, small, b) = old.ends i e m in (index ∙ ix, small, rw at b);
              has = λ i small.
                  let (e, m) = old.has i small in let (e', m', at') = same.forth i e m in (e', m');
            }))
    | inr other ↦ l.relay_ends d s (rw (get-put, other) at h)
  ];
}
