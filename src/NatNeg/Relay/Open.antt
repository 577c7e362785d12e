-- ===== src/NatNeg/Relay/Open.antt =====
-- A relay whose two endpoints' addresses are unbound is opened: the tables stay linked.
use fruitspy.Prelude.{
  Bytes, ℕ, ◌<◌, ◌≡◌, ◌≢◌, refl, sym, ◌∙◌, subst, false, Option, none, some, [], ◌∷◌, ◌⊎◌, inl, inr,
  arith, ◌==◌, nat_eq, pair_eq, Bool-cases,
}
use fruitspy.Dict.{get, put}
use fruitspy.Dict.Laws.{get-put, beq_refl, beq_false}
use fruitspy.State.{Address, address_eq, bytes_eq}
use fruitspy.NatNeg.{RelaySession, RelayEndpoint}
use fruitspy.NatNeg.Relay.Links.{Relays, Bindings, IsBound, Target, Linked}

-- The relay has the two endpoints `e` and `f`, under 0 and 1 in some order.
pub record IsPair (r : RelaySession) (e f : RelayEndpoint) : Type 0 where
  pub shape : r.endpoints ≡ (e.index, e) ∷ (f.index, f) ∷ []
  pub indices : ((e.index ≡ 0) × (f.index ≡ 1)) ⊎ ((e.index ≡ 1) × (f.index ≡ 0))
  pub apart : e.address ≢ f.address

module _ (c : Bytes) (r : RelaySession) (e f : RelayEndpoint) (pair : IsPair r e f) where
  -- The bindings of both endpoints.
  abbrev pub bind_both : Bindings → Bindings
  bind_both b = put f.address (c, f.index) (put e.address (c, e.index) b)

  get-first : (b : Bindings) → get e.address (bind_both b) ≡ some (c, e.index)
  get-first b =
      let apart : (f.address == e.address) ≡ false = beq_false _ _ pair.apart in
      rw (get-put, apart, get-put, beq_refl e.address)

  get-second : (b : Bindings) → get f.address (bind_both b) ≡ some (c, f.index)
  get-second b = rw (get-put, beq_refl f.address)

  ends_of :
      (i : ℕ) (x : RelayEndpoint)
      → get i r.endpoints ≡ some x
      → ((i ≡ e.index) × (x ≡ e)) ⊎ ((i ≡ f.index) × (x ≡ f))
  unfolding get
  ends_of i x h =
      let h' = rw pair.shape at h in
      elim (Bool-cases (e.index == i)) [
        | inl here ↦
            let same : some e ≡ some x = rw here at h' in
            inl (sym ((nat_eq.beq_iff e.index i).0 here), ground (arith, same))
        | inr other ↦ elim (Bool-cases (f.index == i)) [
          | inl here ↦
              let same : some f ≡ some x = rw (other, here) at h' in
              inr (sym ((nat_eq.beq_iff f.index i).0 here), ground (arith, same))
          | inr neither ↦ let gone : none ≡ some x = rw (other, neither) at h' in cc
        ]
      ]

  small : (e.index < 2) × (f.index < 2) × (e.index ≢ f.index)
  small = elim pair.indices [
    | inl (p, q) ↦ (omega (arith, p), omega (arith, q), λ s. omega (arith, p, q, s))
    | inr (p, q) ↦ (omega (arith, p), omega (arith, q), λ s. omega (arith, p, q, s))
  ]

  get-end :
      (i : ℕ) → (i ≡ e.index) ⊎ (i ≡ f.index) → (x : RelayEndpoint) × (get i r.endpoints ≡ some x)
  unfolding get
  get-end i (inl p) = (e, rw (pair.shape, p, beq_refl e.index))
  get-end i (inr p) =
      let apart : (e.index == f.index) ≡ false = beq_false _ _ (λ s. small.2 (sym s)) in
      (f, rw (pair.shape, p, apart, beq_refl f.index))

  one_of : (i : ℕ) → i < 2 → (i ≡ e.index) ⊎ (i ≡ f.index)
  one_of i h = ground (arith, pair.indices)

  IsBound-both : (b : Bindings) → IsBound (bind_both b) c r
  IsBound-both b = record {
    ends = λ i x h. elim (ends_of i x h) [
      | inl (p, q) ↦ rw (p, q) (refl, small.0, get-first b)
      | inr (p, q) ↦ rw (p, q) (refl, small.1, get-second b)
    ];
    has = λ i h. get-end i (one_of i h);
  }

  -- Other addresses keep their bindings.
  get-bind_other :
      (a : Address) (b : Bindings) → a ≢ e.address → a ≢ f.address → get a (bind_both b) ≡ get a b
  get-bind_other a b m n =
      let one : (f.address == a) ≡ false = beq_false _ _ n in
      let two : (e.address == a) ≡ false = beq_false _ _ m in rw (get-put, one, get-put, two)

  module _ (relays : Relays) (b : Bindings) (l : Linked relays b) (new : get c relays ≡ none)
      (free_e : get e.address b ≡ none) (free_f : get f.address b ≡ none) where
    taken : (x a : Address) {v : Bytes × ℕ} → get x b ≡ none → get a b ≡ some v → a ≢ x
    taken x a {v} free h p =
        let gone : none ≡ some v = sym free ∙ subst (λ (y : Address). get y b ≡ some v) p h in cc

    not_new : (d : Bytes) (s : RelaySession) → get d relays ≡ some s → d ≢ c
    not_new d s g p =
        let gone : none ≡ some s = sym new ∙ subst (λ (y : Bytes). get y relays ≡ some s) p g in cc

    -- What an address of the new relay points to.
    new-Target :
        (x : RelayEndpoint) (a : Address) (d : Bytes) (i : ℕ)
        → get x.index r.endpoints ≡ some x
        → x.address ≡ a
        → ◌≡◌ {A = Option (Bytes × ℕ)} (some (c, x.index)) (some (d, i))
        → Target (put c r relays) a d i
    new-Target x a d i m at h =
        let same : ◌≡◌ {A = Bytes × ℕ} (c, x.index) (d, i) = ground (arith, h) in
        subst (λ (y : Bytes × ℕ). Target (put c r relays) a y.0 y.1) same
          (r, rw (get-put, beq_refl c), x, m, at)

    at_first : get e.index r.endpoints ≡ some e
    unfolding get
    at_first = rw (pair.shape, beq_refl e.index)

    at_second : get f.index r.endpoints ≡ some f
    unfolding get
    at_second =
        let apart : (e.index == f.index) ≡ false = beq_false _ _ (λ s. small.2 (sym s)) in
        rw (pair.shape, apart, beq_refl f.index)

    pub open-Linked : Linked (put c r relays) (bind_both b)
    open-Linked = record {
      targets = λ a d i h. elim (Bool-cases (f.address == a)) [
        | inl here ↦
            new-Target f a d i at_second ((address_eq.beq_iff f.address a).0 here)
              (rw (get-put, here) at h)
        | inr n ↦ elim (Bool-cases (e.address == a)) [
          | inl here ↦
              new-Target e a d i at_first ((address_eq.beq_iff e.address a).0 here)
                (rw (get-put, n, get-put, here) at h)
          | inr m ↦
              let (s, g, x, found, at) = l.targets a d i (rw (get-put, n, get-put, m) at h) in
              let other : (c == d) ≡ false = beq_false c d (λ p. not_new d s g p) in
              (s, rw (get-put, other) g, x, found, at)
        ]
      ];
      relay_ends = λ d s h. elim (Bool-cases (c == d)) [
        | inl here ↦
            let found : some r ≡ some s = rw (get-put, here) at h in
            subst (λ (x : Bytes). IsBound (bind_both b) x s) ((bytes_eq.beq_iff c d).0 here)
              (subst (λ (x : RelaySession). IsBound (bind_both b) c x) (ground (arith, found))
                (IsBound-both b))
        | inr other ↦
            let old = l.relay_ends d s (rw (get-put, other) at h) in
            record {
              ends = λ i x m.
                  let (index, low, at) = old.ends i x m in
                  (
                    index,
                    low,
                    get-bind_other x.address b (taken e.address x.address free_e at)
                          (taken f.address x.address free_f at)
                        ∙ at,
                  );
              has = old.has;
            }
      ];
    }
