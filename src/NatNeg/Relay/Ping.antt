-- ===== src/NatNeg/Relay/Ping.antt =====
-- What a ping of a relay does: the endpoint it comes from becomes ready, and nothing else may do so.
use fruitspy.Prelude.{
  Bytes, ℕ, ◌≤◌, ◌≡◌, ◌≢◌, refl, sym, subst, Bool, true, false, ◌&&◌, ◌||◌, not, Option, none, some,
  List, [], ◌∷◌, ◌++◌, ◌⊎◌, inl, inr, arith, ◌==◌, nat_eq, pair_eq, Bool-cases, length, ltb, get_or,
  slice, Result, ok, if-elim, nat_beq_iff,
}
use fruitspy.Dict.{get, put}
use fruitspy.State.{Address, address_eq, bytes_eq, NatSession}
use fruitspy.NatNeg.{
  NatNeg, RelaySession, RelayEndpoint, count_metric, store_relay, store_session, add, is_in,
  is_both,
}
use fruitspy.NatNeg.Packet.{has_magic, nn_connect_ping}
use fruitspy.NatNeg.Relay.{touch_session, ping_endpoint, ping_at, ping_found, handle_relay_ping}

-- A packet long enough for a ping, with the magic bytes and the ping's type.
pub record IsPing (packet : Bytes) : Type 0 where
  long : 20 ≤ length packet
  magic : has_magic packet ≡ true
  typed : get_or packet 7 0 ≡ nn_connect_ping

-- The address is bound to an endpoint of the relay, and is that endpoint's own.
pub record Bound (cookie : Bytes) (addr : Address) (s : NatNeg) : Type 0 where
  index : ℕ
  relay : RelaySession
  endpoint : RelayEndpoint
  bound : get addr s.relay_by_address ≡ some (cookie, index)
  open_relay : get cookie s.relays ≡ some relay
  held : get index relay.endpoints ≡ some endpoint
  own : endpoint.address ≡ addr

-- The relay has heard from the endpoint at this time: that endpoint is ready, besides those that
-- were, and the other relays, the bindings and what was sent are as before.
pub record Heard (cookie : Bytes) (now : ℕ) (addr : Address) (s next : NatNeg) : Type 0 where
  from : Bound cookie addr s
  relay : RelaySession
  stored : next.relays ≡ put cookie relay s.relays
  ready : (i : ℕ) → is_in i relay.ready ≡ (i == from.index || is_in i from.relay.ready)
  seen : relay.last_seen ≡ now
  endpoints : relay.endpoints ≡ from.relay.endpoints
  bindings : next.relay_by_address ≡ s.relay_by_address
  sent : next.sent ≡ s.sent

-- Heard and answered with True, or no ping of a bound endpoint and then without any effect.
abbrev pub Pinged : Bytes → Address → ℕ → NatNeg → Result Bool × NatNeg → Type 0
Pinged packet addr now s (answer, next) =
    (IsPing packet × Heard (slice packet 8 12) now addr s next × (answer ≡ ok true))
    ⊎ (¬ (IsPing packet × Bound (slice packet 8 12) addr s) × (next ≡ s) × (answer ≢ ok true))

is_in-append : (i j : ℕ) (s : List ℕ) → is_in i (s ++ j ∷ []) ≡ (i == j || is_in i s)
unfolding is_in
is_in-append i j [] = ground arith
is_in-append i j (x ∷ s) = ground (arith, is_in-append i j s)

add_lem : (i j : ℕ) (s : List ℕ) → is_in i (add j s) ≡ (i == j || is_in i s)
unfolding add
add_lem i j s = elim (Bool-cases (is_in j s)) [
  | inl there ↦ rw there (elim (Bool-cases (i == j)) [
    | inl same ↦ ground (arith, nat_beq_iff i j, there, same)
    | inr other ↦ rw other refl
  ])
  | inr new ↦ rw new (is_in-append i j s)
]

touch_session-Same :
    (c : Bytes) (now : ℕ) (o : Option NatSession) (s : NatNeg)
    → ((touch_session c now o s).relays ≡ s.relays)
      × ((touch_session c now o s).relay_by_address ≡ s.relay_by_address)
      × ((touch_session c now o s).sent ≡ s.sent)
unfolding touch_session store_session
touch_session-Same c now none s = (refl, refl, refl)
touch_session-Same c now (some session) s = (refl, refl, refl)

heard :
    (c : Bytes) (addr : Address) (now : ℕ) (s next : NatNeg) (from : Bound c addr s)
    (relay : RelaySession)
    → relay ≡ record from.relay { ready = add from.index from.relay.ready; last_seen = now }
    → (next.relays ≡ put c relay s.relays)
      × (next.relay_by_address ≡ s.relay_by_address)
      × (next.sent ≡ s.sent)
    → Heard c now addr s next
heard c addr now s next from relay h (relays, bindings, sent) = record {
  from = from;
  relay = relay;
  stored = relays;
  ready = λ i. rw h (add_lem i from.index from.relay.ready);
  seen = rw h refl;
  endpoints = rw h refl;
  bindings = bindings;
  sent = sent;
}

ping_endpoint-Heard :
    (c : Bytes) (addr : Address) (now : ℕ) (s : NatNeg) (from : Bound c addr s)
    → Heard c now addr s (ping_endpoint c from.index now from.relay s)
unfolding ping_endpoint count_metric store_relay
ping_endpoint-Heard c addr now s from =
    let pinged = record from.relay { ready = add from.index from.relay.ready; last_seen = now } in
    let same = touch_session-Same c now (get c s.state.nat_sessions) (store_relay c pinged s) in
    if-elim (Heard c now addr s) (not (is_both from.relay.ready) && is_both pinged.ready)
      (λ both. heard c addr now s _ from pinged refl same)
      (λ one. heard c addr now s _ from pinged refl same)

-- The address is bound to no other endpoint than the one that the tables lead to.
Bound-get :
    (c : Bytes) (addr : Address) (i : ℕ) (r : RelaySession) (s : NatNeg)
    → get addr s.relay_by_address ≡ some (c, i)
    → get c s.relays ≡ some r
    → (b : Bound c addr s) → get i r.endpoints ≡ some b.endpoint
Bound-get c addr i r s bound found b =
    let same_relay : b.relay ≡ r = ground (arith, b.open_relay, found) in
    let same_index : b.index ≡ i = ground (arith, b.bound, bound) in
    rw (sym same_relay, sym same_index) b.held

ping_at-Pinged :
    (packet : Bytes) (addr : Address) (i now : ℕ) (r : RelaySession) (o : Option RelayEndpoint)
    (s : NatNeg)
    → IsPing packet
    → get addr s.relay_by_address ≡ some (slice packet 8 12, i)
    → get (slice packet 8 12) s.relays ≡ some r
    → get i r.endpoints ≡ o
    → Pinged packet addr now s (ping_at (slice packet 8 12) i addr now r o s)
unfolding ping_at
ping_at-Pinged packet addr i now r none s is bound found held = inr (
  λ (p, b). absurd (ground (arith, Bound-get (slice packet 8 12) addr i r s bound found b, held)),
  refl,
  λ e. cc,
)
ping_at-Pinged packet addr i now r (some endpoint) s is bound found held =
    if-elim (Pinged packet addr now s) (endpoint.address == addr)
      (λ same. inl (
        is,
        ping_endpoint-Heard (slice packet 8 12) addr now s (record {
          index = i;
          relay = r;
          endpoint = endpoint;
          bound = bound;
          open_relay = found;
          held = held;
          own = (address_eq.beq_iff endpoint.address addr).0 same;
        }),
        refl,
      ))
      (λ other. inr (
        λ (p, b). absurd (
            ground (
              arith,
              address_eq.beq_iff endpoint.address addr,
              other,
              b.own,
              Bound-get (slice packet 8 12) addr i r s bound found b,
              held,
            )),
        refl,
        λ e. cc,
      ))

ping_found-Pinged :
    (packet : Bytes) (addr : Address) (now : ℕ) (o : Option RelaySession)
    (binding : Option (Bytes × ℕ)) (s : NatNeg)
    → IsPing packet
    → get (slice packet 8 12) s.relays ≡ o
    → get addr s.relay_by_address ≡ binding
    → Pinged packet addr now s (ping_found (slice packet 8 12) addr now o binding s)
unfolding ping_found
ping_found-Pinged packet addr now none binding s is found bound =
    inr (λ (p, b). absurd (cc (found, b.open_relay)), refl, λ e. cc)
ping_found-Pinged packet addr now (some r) none s is found bound =
    inr (λ (p, b). absurd (cc (bound, b.bound)), refl, λ e. cc)
ping_found-Pinged packet addr now (some r) (some (c, i)) s is found bound =
    if-elim (Pinged packet addr now s) (c == slice packet 8 12)
      (λ same.
        ping_at-Pinged packet addr i now r (get i r.endpoints) s is
          (subst (λ c'. get addr s.relay_by_address ≡ some (c', i))
            ((bytes_eq.beq_iff c (slice packet 8 12)).0 same) bound)
          found refl)
      (λ other. inr (
        λ (p, b).
            absurd (ground (arith, bytes_eq.beq_iff c (slice packet 8 12), other, bound, b.bound)),
        refl,
        λ e. cc,
      ))

IsPing_lem :
    (packet : Bytes)
    → (ltb (length packet) 20
        || not (has_magic packet)
        || not (get_or packet 7 0 == nn_connect_ping))
      ≡ false
    → IsPing packet
IsPing_lem packet ping = record {
  long = ground (arith, ping);
  magic = ground (arith, ping);
  typed = ground (arith, ping, nat_beq_iff (get_or packet 7 0) nn_connect_ping);
}

-- A datagram from an address that is long enough, has the magic bytes and the ping's type, and whose
-- cookie's relay holds an endpoint of that address to which the address is bound, is answered with
-- True: the endpoint becomes ready besides those that were, the relay was last seen now, and the
-- endpoints, the other relays, the bindings and what was sent are as before. Any other datagram
-- changes nothing and is not answered with True.
pub handle_relay_ping-Pinged :
    (packet : Bytes) (addr : Address) (now : ℕ) (s : NatNeg)
    → Pinged packet addr now s (handle_relay_ping packet addr now s)
unfolding handle_relay_ping
handle_relay_ping-Pinged packet addr now s =
    if-elim (Pinged packet addr now s)
      (ltb (length packet) 20
        || not (has_magic packet)
        || not (get_or packet 7 0 == nn_connect_ping))
      (λ no_ping. inr (
        λ (p, b). ground (
          arith,
          no_ping,
          p.long,
          p.magic,
          p.typed,
          nat_beq_iff (get_or packet 7 0) nn_connect_ping,
        ),
        refl,
        λ e. cc,
      ))
      (λ ping. ping_found-Pinged packet addr now _ _ s (IsPing_lem packet ping) refl refl)
