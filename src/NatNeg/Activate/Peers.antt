-- ===== src/NatNeg/Activate/Peers.antt =====
-- The two peers of a paired session, and the two endpoints of its relay.
use fruitspy.Prelude.{
  Bytes, ℕ, ◌*◌, ◌≤◌, ◌≡◌, ◌≢◌, refl, sym, true, [], ◌∷◌, ◌⊎◌, arith, ◌==◌, nat_eq, pair_eq, length,
}
use fruitspy.Clock.{second}
use fruitspy.Dict.{Dict, keys, values}
use fruitspy.State.{address_eq, NatPeer, NatSession}
use fruitspy.NatNeg.{RelayEndpoint, is_both, is_in}
use fruitspy.NatNeg.Activate.{seen_in, add_address, address_set, new_endpoints, new_relay}
use fruitspy.NatNeg.Relay.Open.{IsPair}

-- Two peers, under 0 and 1 in some order.
pub record IsTwo (d : Dict ℕ NatPeer) : Type 0 where
  pub i : ℕ
  pub j : ℕ
  pub p : NatPeer
  pub q : NatPeer
  pub shape : d ≡ (i, p) ∷ (j, q) ∷ []
  pub indices : ((i ≡ 0) × (j ≡ 1)) ⊎ ((i ≡ 1) × (j ≡ 0))

pub both-IsTwo : (d : Dict ℕ NatPeer) → length d ≤ 2 → is_both (keys d) ≡ true → IsTwo d
unfolding is_both is_in keys
both-IsTwo [] small h = absurd (ground (arith, h))
both-IsTwo ((i, p) ∷ []) small h = absurd (ground (arith, h))
both-IsTwo ((i, p) ∷ (j, q) ∷ []) small h = record {
  i = i;
  j = j;
  p = p;
  q = q;
  shape = refl;
  indices = ground (arith, h);
}
both-IsTwo (x ∷ y ∷ z ∷ d) small h = absurd (omega (arith, small))

-- Two peers whose set of addresses has two members are apart.
pub apart :
    (d : Dict ℕ NatPeer) (two : IsTwo d)
    → (length (address_set (values d)) == 2) ≡ true
    → two.p.address ≢ two.q.address
unfolding address_set values add_address seen_in
apart d two h same =
    let hit = (address_eq.beq_iff two.q.address two.p.address).1 (sym same) in
    let h' = rw two.shape at h in let h'' = rw hit at h' in ground (arith, h'')

abbrev pub end_of : ℕ → ℕ → ℕ → NatPeer → RelayEndpoint
end_of burst now i p = record {
  index = i;
  address = p.address;
  tokens = burst * second;
  last_refill = now;
}

-- The relay of a paired session has the two peers' addresses as its endpoints.
pub new_relay-IsPair :
    (burst now : ℕ) (cookie : Bytes) (session : NatSession) (two : IsTwo session.peers)
    → two.p.address ≢ two.q.address
    → IsPair
        (new_relay burst now cookie session)
        (end_of burst now two.i two.p)
        (end_of burst now two.j two.q)
unfolding new_relay new_endpoints
new_relay-IsPair burst now cookie session two n = record {
  shape = rw two.shape;
  indices = two.indices;
  apart = n;
}
