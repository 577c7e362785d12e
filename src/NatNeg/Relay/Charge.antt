-- ===== src/NatNeg/Relay/Charge.antt =====
-- The tests of size, readiness and rate: a datagram that passes them goes, unchanged, to the other
-- endpoint of the relay, and any other is dropped.
use fruitspy.Prelude.{
  Bytes, ℕ, ◌+◌, ◌-◌, ◌<◌, ◌≤◌, ◌≡◌, ◌≢◌, refl, Bool, true, Option, none, some, [], ◌∷◌, ◌++◌, ◌⊎◌,
  inl, inr, arith, nat_eq, Bool-cases, if-elim, length, ltb, Result, ok, err, key_error,
}
use fruitspy.Dict.{get, put}
use fruitspy.State.{Address, address_eq, bytes_eq}
use fruitspy.NatNeg.{
  NatNeg, RelaySession, RelayEndpoint, count_metric, store_relay, send, is_both, allow,
}
use fruitspy.NatNeg.Relay.{drop_packet, count_packet, pass_on, forward_from}
use fruitspy.NatNeg.Relay.Links.{IsBound, SameEnds, SameEnds-refl, SameEnds-put}
use fruitspy.NatNeg.Relay.Finish.{HasRelays, SameRelays-HasRelays, store_relay-HasRelays}

-- A state reached by forwarding: the tables are linked and the datagrams sent are those before,
-- with at most the given one to the given address.
pub record Forwarded (packet : Bytes) (to : Address → Type 0) (s : NatNeg)
    (result : Result Bool × NatNeg) : Type 0 where
  pub keeps : HasRelays result.1
  pub no_error : result.0 ≢ err key_error
  pub sends :
      (result.1.sent ≡ s.sent)
      ⊎ ((a : Address) × to a × (result.1.sent ≡ s.sent ++ (packet, a) ∷ []))

drop_packet-HasRelays :
    (c : Bytes) (r r' : RelaySession) (s : NatNeg)
    → get c s.relays ≡ some r
    → SameEnds r r'
    → HasRelays s
    → HasRelays (drop_packet c r' s)
unfolding drop_packet count_metric
drop_packet-HasRelays c r r' s g e h =
    SameRelays-HasRelays _ _ (record { relays = refl; bindings = refl; config = refl; flag = refl })
      (store_relay-HasRelays c r (record r' { drops = r'.drops + 1 }) s g
        (record { back = e.back; forth = e.forth }) h)

allow_ends :
    (size rate burst now : ℕ) (e : RelayEndpoint)
    → ((allow size rate burst now e).1.index ≡ e.index)
      × ((allow size rate burst now e).1.address ≡ e.address)
unfolding allow
allow_ends size rate burst now e = ground arith

module _ (packet : Bytes) (c : Bytes) (i now : ℕ) (r : RelaySession) (small : i < 2) where
  -- The other endpoint of the relay.
  abbrev pub To : ℕ → Address → Type 0
  To limit a =
      (e : RelayEndpoint) × (get (1 - i) r.endpoints ≡ some e)
      × (e.address ≡ a)
      × (is_both r.ready ≡ true)
      × (length packet ≤ limit)

  pass_on_lem :
      (charged : RelaySession) (o : Option RelayEndpoint) (s : NatNeg)
      → get c s.relays ≡ some r
      → SameEnds r charged
      → get (1 - i) r.endpoints ≡ o
      → is_both r.ready ≡ true
      → length packet ≤ s.config.packet_bytes
      → IsBound s.relay_by_address c r
      → HasRelays s
      → Forwarded packet (To s.config.packet_bytes) s (pass_on packet c now o charged s)
  unfolding pass_on drop_packet count_metric send store_relay count_packet
  pass_on_lem charged none s g e m ready fits b h =
      let (x, found) = b.has (1 - i) (omega arith) in absurd (cc)
  pass_on_lem charged (some x) s g e m ready fits b h =
      if-elim (Forwarded packet (To s.config.packet_bytes) s) s.connected
        (λ up. record {
          keeps =
              SameRelays-HasRelays _ _
                (record { relays = refl; bindings = refl; config = refl; flag = refl })
                (store_relay-HasRelays c r (count_packet (length packet) now charged) s g
                  (record { back = e.back; forth = e.forth }) h);
          no_error = λ p. cc;
          sends = inr (x.address, (x, m, refl, ready, fits), refl);
        })
        (λ down. record {
          keeps = drop_packet-HasRelays c r charged s g e h;
          no_error = λ p. cc;
          sends = inl refl;
        })

  drop_lem :
      (charged : RelaySession) (s : NatNeg) (to : Address → Type 0)
      → get c s.relays ≡ some r
      → SameEnds r charged
      → HasRelays s
      → Forwarded packet to s (ok true, drop_packet c charged s)
  unfolding drop_packet count_metric store_relay
  drop_lem charged s to g e h = record {
    keeps = drop_packet-HasRelays c r charged s g e h;
    no_error = λ p. cc;
    sends = inl refl;
  }

  pub forward_from_lem :
      (e : RelayEndpoint) (s : NatNeg)
      → get c s.relays ≡ some r
      → get i r.endpoints ≡ some e
      → IsBound s.relay_by_address c r
      → HasRelays s
      → Forwarded packet (To s.config.packet_bytes) s (forward_from packet c i now r e s)
  unfolding forward_from
  forward_from_lem e s g m b h = elim (Bool-cases (ltb s.config.packet_bytes (length packet))) [
    | inl long ↦ rw long (drop_lem r s _ g (SameEnds-refl r r refl) h)
    | inr fits ↦ rw fits (elim (Bool-cases (is_both r.ready)) [
      | inr waiting ↦ rw waiting (drop_lem r s _ g (SameEnds-refl r r refl) h)
      | inl ready ↦
          let paid = allow (length packet) s.config.bytes_per_second s.config.byte_burst now e in
          let ends =
            allow_ends (length packet) s.config.bytes_per_second s.config.byte_burst now e in
          let charged = record r { endpoints = put i paid.1 r.endpoints } in
          let same = SameEnds-put r charged i e paid.1 m refl ends.0 ends.1 in
          elim (Bool-cases paid.0) [
            | inl granted ↦
                rw (ready, granted)
                  (pass_on_lem charged (get (1 - i) r.endpoints) s g same refl ready (ground arith)
                    b h)
            | inr refused ↦ rw (ready, refused) (drop_lem charged s _ g same h)
          ]
    ])
  ]
