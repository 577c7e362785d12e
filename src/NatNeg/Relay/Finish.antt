-- ===== src/NatNeg/Relay/Finish.antt =====
-- The relay tables stay linked when relays end, expire, are pinged and are used.
use fruitspy.Prelude.{
  ◌+◌, Bytes, ℕ, ◌≤◌, ◌≡◌, refl, sym, ◌∙◌, Bool, false, ◌&&◌, ◌||◌, not, Option, none, some, List,
  [], ◌∷◌, inl, inr, arith, ◌==◌, nat_eq, pair_eq, Bool-cases, length, ltb, get_or, slice,
}
use fruitspy.Clock.{seconds}
use fruitspy.Dict.{Dict, get, put}
use fruitspy.Dict.Laws.{
  beq_refl, get-put, length-remove-le, length-put_old, Unique, put-Unique, remove-Unique,
}
use fruitspy.State.{Address, address_eq, bytes_eq, NatSession}
use fruitspy.State.{ServerState}
use fruitspy.UdpAdmission.{UdpAdmission}
use fruitspy.Drain.{DrainController}
use fruitspy.NatNeg.{
  NatNegConfig, create, NatNeg, RelaySession, RelayEndpoint, count_metric, store_relay,
  store_session, add, is_both,
}
use fruitspy.NatNeg.Packet.{has_magic, nn_connect_ping}
use fruitspy.NatNeg.Relay.{
  is_empty, finish_found, finish_relay, finish_all, expire_relays, begin_drain, touch_session,
  ping_endpoint, ping_at, ping_found, handle_relay_ping, expire_relay_after_idle, expire_idle_found,
  schedule_expiration,
}
use fruitspy.NatNeg.Relay.Links.{
  Linked, Linked-empty, SameEnds, SameEnds-refl, finish-Linked, store-Linked,
}

-- The tables are linked, there are at most `max_relays` relays, one for each cookie, and the event
-- `_relays_empty` is set exactly when there is none.
pub record HasRelays (s : NatNeg) : Type 0 where
  pub linked : Linked s.relays s.relay_by_address
  pub within : length s.relays ≤ s.config.max_relays
  pub one_each : Unique s.relays
  pub flagged : s.relays_empty ≡ is_empty s.relays

-- A state with the same relay tables and limits.
pub record SameRelays (s t : NatNeg) : Type 0 where
  pub relays : t.relays ≡ s.relays
  pub bindings : t.relay_by_address ≡ s.relay_by_address
  pub config : t.config ≡ s.config
  pub flag : t.relays_empty ≡ s.relays_empty

pub SameRelays-HasRelays : (s t : NatNeg) → SameRelays s t → HasRelays s → HasRelays t
SameRelays-HasRelays s t e h = record {
  linked = rw (e.relays, e.bindings) h.linked;
  within = rw (e.relays, e.config) h.within;
  one_each = rw e.relays h.one_each;
  flagged = rw (e.relays, e.flag) h.flagged;
}

pub not_empty :
    (c : Bytes) (d : Dict Bytes RelaySession) {r : RelaySession}
    → get c d ≡ some r
    → is_empty d ≡ false
unfolding get is_empty
not_empty c [] h = cc
not_empty c (x ∷ d) h = refl

finish_found-HasRelays :
    (c : Bytes) (o : Option RelaySession) (s : NatNeg)
    → get c s.relays ≡ o
    → HasRelays s
    → HasRelays (finish_found c o s)
unfolding finish_found count_metric
finish_found-HasRelays c none s g h = h
finish_found-HasRelays c (some r) s g h = record {
  linked = finish-Linked s.relays s.relay_by_address c r g h.linked;
  within = omega (arith, length-remove-le c s.relays, h.within);
  one_each = remove-Unique c s.relays h.one_each;
  flagged = ground (arith, not_empty c s.relays g, h.flagged);
}

-- Where the relay tables are linked, `_finish_relay` leaves them linked, for any cookie.
pub finish_relay-HasRelays : (c : Bytes) (s : NatNeg) → HasRelays s → HasRelays (finish_relay c s)
unfolding finish_relay
finish_relay-HasRelays c s h = finish_found-HasRelays c (get c s.relays) s refl h

pub finish_all-HasRelays :
    (cs : List Bytes) (s : NatNeg) → HasRelays s → HasRelays (finish_all cs s)
unfolding finish_all
finish_all-HasRelays [] s h = h
finish_all-HasRelays (c ∷ cs) s h =
    finish_all-HasRelays cs (finish_relay c s) (finish_relay-HasRelays c s h)

-- Where the relay tables are linked, the periodic expiry of relays, forced or not, leaves them
-- linked.
pub expire_relays-HasRelays :
    (now : ℕ) (force : Bool) (s : NatNeg) → HasRelays s → HasRelays (expire_relays now force s)
unfolding expire_relays
expire_relays-HasRelays now force s h =
    elim (Bool-cases (not force && ltb now s.next_relay_expiry)) [
      | inl early ↦ rw early h
      | inr due ↦ rw due (
          finish_all-HasRelays _ _ (
            SameRelays-HasRelays s _
              (record { relays = refl; bindings = refl; config = refl; flag = refl }) h))
    ]

-- A relay object changes, and its endpoints keep their indices and addresses.
pub store_relay-HasRelays :
    (c : Bytes) (r r' : RelaySession) (s : NatNeg)
    → get c s.relays ≡ some r
    → SameEnds r r'
    → HasRelays s
    → HasRelays (store_relay c r' s)
unfolding store_relay
store_relay-HasRelays c r r' s g e h = record {
  linked = store-Linked s.relays s.relay_by_address c r r' g e h.linked;
  within = omega (arith, length-put_old c r' s.relays g, h.within);
  one_each = put-Unique c r' s.relays h.one_each;
  flagged =
      h.flagged ∙ not_empty c s.relays g ∙ sym (not_empty c (put c r' s.relays) (stored c r' s));
}
  where
    stored : (c : Bytes) (r' : RelaySession) (s : NatNeg) → get c (put c r' s.relays) ≡ some r'
    stored c r' s = rw (get-put, beq_refl c)

pub touch_session-SameRelays :
    (c : Bytes) (now : ℕ) (o : Option NatSession) (s : NatNeg)
    → SameRelays s (touch_session c now o s)
unfolding touch_session store_session
touch_session-SameRelays c now none s = record {
  relays = refl;
  bindings = refl;
  config = refl;
  flag = refl;
}
touch_session-SameRelays c now (some session) s = record {
  relays = refl;
  bindings = refl;
  config = refl;
  flag = refl;
}

ping_endpoint-HasRelays :
    (c : Bytes) (i now : ℕ) (r : RelaySession) (s : NatNeg)
    → get c s.relays ≡ some r
    → HasRelays s
    → HasRelays (ping_endpoint c i now r s)
unfolding ping_endpoint count_metric
ping_endpoint-HasRelays c i now r s g h =
    let pinged = record r { ready = add i r.ready; last_seen = now } in
    let stored = store_relay-HasRelays c r pinged s g (SameEnds-refl r pinged refl) h in
    let seen =
      SameRelays-HasRelays _ _
        (touch_session-SameRelays c now (get c s.state.nat_sessions) (store_relay c pinged s))
        stored in
    elim (Bool-cases (not (is_both r.ready) && is_both pinged.ready)) [
      | inl ready ↦ rw ready (
          SameRelays-HasRelays _ _
            (record { relays = refl; bindings = refl; config = refl; flag = refl }) seen)
      | inr waiting ↦ rw waiting seen
    ]

ping_at-HasRelays :
    (c : Bytes) (i : ℕ) (addr : Address) (now : ℕ) (r : RelaySession) (o : Option RelayEndpoint)
    (s : NatNeg)
    → get c s.relays ≡ some r
    → HasRelays s
    → HasRelays (ping_at c i addr now r o s).1
unfolding ping_at
ping_at-HasRelays c i addr now r none s g h = h
ping_at-HasRelays c i addr now r (some e) s g h = elim (Bool-cases (e.address == addr)) [
  | inl same ↦ rw same (ping_endpoint-HasRelays c i now r s g h)
  | inr other ↦ rw other h
]

ping_found-HasRelays :
    (c : Bytes) (addr : Address) (now : ℕ) (o : Option RelaySession) (b : Option (Bytes × ℕ))
    (s : NatNeg)
    → get c s.relays ≡ o
    → HasRelays s
    → HasRelays (ping_found c addr now o b s).1
unfolding ping_found
ping_found-HasRelays c addr now none b s g h = h
ping_found-HasRelays c addr now (some r) none s g h = h
ping_found-HasRelays c addr now (some r) (some (d, i)) s g h = elim (Bool-cases (d == c)) [
  | inl same ↦ rw same (ping_at-HasRelays c i addr now r (get i r.endpoints) s g h)
  | inr other ↦ rw other h
]

-- Where the relay tables are linked, a ping, of a relay or not, leaves them linked.
pub handle_relay_ping-HasRelays :
    (packet : Bytes) (addr : Address) (now : ℕ) (s : NatNeg)
    → HasRelays s
    → HasRelays (handle_relay_ping packet addr now s).1
unfolding handle_relay_ping
handle_relay_ping-HasRelays packet addr now s h =
    elim (Bool-cases (
      ltb (length packet) 20
      || not (has_magic packet)
      || not (get_or packet 7 0 == nn_connect_ping))) [
        | inl no_ping ↦ rw no_ping h
        | inr ping ↦ rw ping (ping_found-HasRelays (slice packet 8 12) addr now _ _ s refl h)
      ]

expire_idle_found-HasRelays :
    (now loop_now : ℕ) (c : Bytes) (o : Option RelaySession) (s : NatNeg)
    → HasRelays s
    → HasRelays (expire_idle_found now loop_now c o s)
unfolding expire_idle_found schedule_expiration
expire_idle_found-HasRelays now loop_now c none s h =
    SameRelays-HasRelays s _ (record { relays = refl; bindings = refl; config = refl; flag = refl })
      h
expire_idle_found-HasRelays now loop_now c (some r) s h =
    let same = λ (d : Dict Bytes ℕ).
      SameRelays-HasRelays s (record s { relay_expirations = d })
        (record { relays = refl; bindings = refl; config = refl; flag = refl }) h in
    elim (Bool-cases (ltb now (r.last_seen + seconds s.config.session_seconds))) [
      | inl active ↦ rw active (same _)
      | inr idle ↦ rw idle (finish_relay-HasRelays c _ (same _))
    ]

-- Where the relay tables are linked, the timer of a relay leaves them linked, whether it ends the
-- relay or is set again.
pub expire_relay_after_idle-HasRelays :
    (now loop_now : ℕ) (c : Bytes) (s : NatNeg)
    → HasRelays s
    → HasRelays (expire_relay_after_idle now loop_now c s)
unfolding expire_relay_after_idle
expire_relay_after_idle-HasRelays now loop_now c s h =
    expire_idle_found-HasRelays now loop_now c (get c s.relays) s h

pub begin_drain-HasRelays : (s : NatNeg) → HasRelays s → HasRelays (begin_drain s).1
unfolding begin_drain
begin_drain-HasRelays s h = record {
  linked = h.linked;
  within = h.within;
  one_each = h.one_each;
  flagged = ground (arith, h.flagged);
}

pub create-HasRelays :
    (config : NatNegConfig) (state : ServerState) (a : UdpAdmission) (d : DrainController)
    → HasRelays (create config state a d)
unfolding create is_empty
create-HasRelays config state a d = record {
  linked = Linked-empty;
  within = omega arith;
  one_each = tt;
  flagged = refl;
}
