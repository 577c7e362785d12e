-- ===== src/NatNeg/Relay/Forward.antt =====
-- What the relay forwards, and to whom: a datagram of a bound endpoint goes, unchanged, to the other
-- endpoint of the same relay, or nowhere.
use fruitspy.Prelude.{
  Bytes, ℕ, zero, suc, ◌-◌, ◌<◌, ◌≤◌, ◌≡◌, ◌≢◌, refl, sym, ap, ◌∙◌, subst, Bool, true, Option, none,
  some, inl, inr, arith, nat_eq, length, Result,
}
use fruitspy.Dict.{get}
use fruitspy.Dict.Laws.{get-put, beq_refl}
use fruitspy.State.{Address, address_eq, bytes_eq, NatSession}
use fruitspy.NatNeg.{
  NatNeg, NatNegConfig, RelaySession, RelayEndpoint, store_relay, store_session, is_both,
}
use fruitspy.NatNeg.Relay.{forward_seen, forward_in, forward_bound, forward_relay, touch_session}
use fruitspy.NatNeg.Relay.Charge.{Forwarded, To, forward_from_lem}
use fruitspy.NatNeg.Relay.Links.{SameEnds-refl}
use fruitspy.NatNeg.Relay.Finish.{
  HasRelays, SameRelays-HasRelays, store_relay-HasRelays, touch_session-SameRelays,
}

store-config : (c : Bytes) (r : RelaySession) (s : NatNeg) → (store_relay c r s).config ≡ s.config
unfolding store_relay
store-config c r s = refl

not_same_end :
    (c : Bytes) (i : ℕ) → i < 2 → ◌≢◌ {A = Option (Bytes × ℕ)} (some (c, 1 - i)) (some (c, i))
not_same_end c zero small h = ground (arith, h)
not_same_end c (suc zero) small h = ground (arith, h)
not_same_end c (suc (suc i)) small h = omega (arith, small)

-- Forwarding that starts after steps that send nothing.
Forwarded-before :
    {packet : Bytes} (t s : NatNeg) (to to' : Address → Type 0) (result : Result Bool × NatNeg)
    → t.sent ≡ s.sent
    → ((a : Address) → to a → to' a)
    → Forwarded packet to t result
    → Forwarded packet to' s result
Forwarded-before t s to to' result same f w = record {
  keeps = w.keeps;
  no_error = w.no_error;
  sends = elim w.sends [
    | inl quiet ↦ inl (quiet ∙ same)
    | inr (a, at, e) ↦ inr (a, f a at, rw same at e)
  ];
}

touch-sent :
    (c : Bytes) (now : ℕ) (o : Option NatSession) (s : NatNeg)
    → (touch_session c now o s).sent ≡ s.sent
unfolding touch_session store_session
touch-sent c now none s = refl
touch-sent c now (some session) s = refl

get-stored : (c : Bytes) (r : RelaySession) (s : NatNeg) → get c (store_relay c r s).relays ≡ some r
unfolding store_relay
get-stored c r s = rw (get-put, beq_refl c)

-- What a datagram of `addr` may be forwarded to: the other endpoint of the relay to which `addr` is
-- bound, where both endpoints are ready and the datagram is within the size limit.
pub record IsPeer (s : NatNeg) (packet : Bytes) (addr a : Address) : Type 0 where
  pub cookie : Bytes
  pub index : ℕ
  pub relay : RelaySession
  pub endpoint : RelayEndpoint
  pub bound : get addr s.relay_by_address ≡ some (cookie, index)
  pub there : get cookie s.relays ≡ some relay
  pub other : get (1 - index) relay.endpoints ≡ some endpoint
  pub at_address : endpoint.address ≡ a
  pub ready : is_both relay.ready ≡ true
  pub fits : length packet ≤ s.config.packet_bytes
  pub not_back : a ≢ addr

module _ (packet : Bytes) (addr : Address) (c : Bytes) (i now : ℕ) (r : RelaySession) (s : NatNeg)
    (bound : get addr s.relay_by_address ≡ some (c, i)) (there : get c s.relays ≡ some r)
    (h : HasRelays s) where
  not_back : (e : RelayEndpoint) → i < 2 → get (1 - i) r.endpoints ≡ some e → e.address ≢ addr
  not_back e small m same =
      let b = ((h.linked.relay_ends c r there).ends (1 - i) e m).2 in
      not_same_end c i small
        (sym b ∙ subst (λ (x : Address). get x s.relay_by_address ≡ some (c, i)) (sym same) bound)

  module _ (active : RelaySession) (same_ends : active.endpoints ≡ r.endpoints)
      (same_ready : active.ready ≡ r.ready) where
    abbrev seen : NatNeg
    seen = touch_session c now (get c s.state.nat_sessions) (store_relay c active s)

    To-IsPeer :
        (small : i < 2) (a : Address)
        → To packet c i now active small s.config.packet_bytes a
        → IsPeer s packet addr a
    To-IsPeer small a (e, m, at, ready, fits) =
        let other : get (1 - i) r.endpoints ≡ some e = rw (← same_ends) m in
        record {
          cookie = c;
          index = i;
          relay = r;
          endpoint = e;
          bound = bound;
          there = there;
          other = other;
          at_address = at;
          ready = rw (← same_ready) ready;
          fits = fits;
          not_back = λ p. not_back e small other (at ∙ p);
        }

    forward_active :
        (o : Option RelayEndpoint)
        → get i active.endpoints ≡ o
        → Forwarded packet (IsPeer s packet addr) s (forward_seen packet c i now active o seen)
    unfolding store_relay forward_seen
    forward_active none m =
        let (x, g, e, found, at) = h.linked.targets addr c i bound in
        let same : x ≡ r = cc in
        let there' : get i r.endpoints ≡ some e = rw same at found in
        let gone : get i r.endpoints ≡ none = rw (← same_ends) m in absurd (cc)
    forward_active (some e) m =
        let stored =
          store_relay-HasRelays c r active s there (SameEnds-refl r active same_ends) h in
        let touched =
          touch_session-SameRelays c now (get c s.state.nat_sessions) (store_relay c active s) in
        let h' = SameRelays-HasRelays _ _ touched stored in
        let kept : get c seen.relays ≡ some active =
          ap (get c) touched.relays ∙ get-stored c active s in
        let m' : get i r.endpoints ≡ some e = rw (← same_ends) m in
        let small = ((h.linked.relay_ends c r there).ends i e m').1 in
        Forwarded-before seen s _ _ _
          (touch-sent c now (get c s.state.nat_sessions) (store_relay c active s))
          (λ a (x, found, at, ready, fits). To-IsPeer small a (
            x,
            found,
            at,
            ready,
            subst (λ (n : NatNegConfig). length packet ≤ n.packet_bytes)
                (touched.config ∙ store-config c active s) fits,
          ))
          (forward_from_lem packet c i now active small e seen kept m
            (h'.linked.relay_ends c active kept) h')

forward_in_lem :
    (packet : Bytes) (addr : Address) (c : Bytes) (i now : ℕ) (o : Option RelaySession) (s : NatNeg)
    → get addr s.relay_by_address ≡ some (c, i)
    → get c s.relays ≡ o
    → HasRelays s
    → Forwarded packet (IsPeer s packet addr) s (forward_in packet addr c i now o s)
unfolding forward_in
forward_in_lem packet addr c i now none s b g h =
    let (x, found, e, m, at) = h.linked.targets addr c i b in absurd (cc)
forward_in_lem packet addr c i now (some r) s b g h =
    let active = record r { last_seen = now } in
    forward_active packet addr c i now r s b g h active refl refl (get i r.endpoints) refl

forward_bound_lem :
    (packet : Bytes) (addr : Address) (now : ℕ) (o : Option (Bytes × ℕ)) (s : NatNeg)
    → get addr s.relay_by_address ≡ o
    → HasRelays s
    → Forwarded packet (IsPeer s packet addr) s (forward_bound packet addr now o s)
unfolding forward_bound
forward_bound_lem packet addr now none s b h = record {
  keeps = h;
  no_error = λ p. cc;
  sends = inl refl;
}
forward_bound_lem packet addr now (some (c, i)) s b h =
    forward_in_lem packet addr c i now (get c s.relays) s b refl h

-- Where the relay tables are linked, `_forward_relay` raises no KeyError, leaves the tables linked,
-- and either sends nothing or sends just the datagram, unchanged, to one address: that of the other
-- endpoint of the relay to which the sender is bound, never back to the sender, and only if both
-- endpoints are ready and the datagram is within the size limit.
pub forward_relay_lem :
    (packet : Bytes) (addr : Address) (now : ℕ) (s : NatNeg)
    → HasRelays s
    → Forwarded packet (IsPeer s packet addr) s (forward_relay packet addr now s)
unfolding forward_relay
forward_relay_lem packet addr now s h =
    forward_bound_lem packet addr now (get addr s.relay_by_address) s refl h
