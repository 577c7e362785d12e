-- ===== src/NatNeg/Invariant/Relays.antt =====
-- The operations of the relay leave the service sound.
use fruitspy.Prelude.{
  Bytes, ℕ, ◌+◌, ◌≡◌, refl, Bool, ◌&&◌, ◌||◌, not, Option, none, some, List, [], ◌∷◌, length, ltb,
  get_or, slice, Result, ◌==◌, if-elim, nat_eq,
}
use fruitspy.Clock.{seconds}
use fruitspy.Dict.{get, remove}
use fruitspy.State.{Address, address_eq, bytes_eq}
use fruitspy.NatNeg.{NatNeg, RelaySession, RelayEndpoint, count_metric, store_relay, add, is_both}
use fruitspy.NatNeg.Packet.{has_magic, nn_connect_ping}
use fruitspy.NatNeg.Relay.{
  finish_found, finish_relay, finish_all, idle_cookies, expire_relays, begin_drain, ping_endpoint,
  ping_at, ping_found, handle_relay_ping, schedule_expiration, expire_idle_found,
  expire_relay_after_idle,
}
use fruitspy.NatNeg.Relay.Links.{SameEnds-refl}
use fruitspy.NatNeg.Relay.Finish.{
  finish_relay-HasRelays, finish_all-HasRelays, expire_relays-HasRelays, begin_drain-HasRelays,
  expire_relay_after_idle-HasRelays,
}
use fruitspy.NatNeg.Invariant.{
  IsSound, SameSessions, SameSessions-HasSessions, SameSessions-trans, touch_session-IsSound,
  count_metric-IsSound, store_relay-IsSound,
}

finish_found-SameSessions :
    (c : Bytes) (o : Option RelaySession) (s : NatNeg) → SameSessions s (finish_found c o s)
unfolding finish_found count_metric
finish_found-SameSessions c none s = record { sessions = refl; limit = refl }
finish_found-SameSessions c (some r) s = record { sessions = refl; limit = refl }

pub finish_relay-SameSessions : (c : Bytes) (s : NatNeg) → SameSessions s (finish_relay c s)
unfolding finish_relay
finish_relay-SameSessions c s = finish_found-SameSessions c (get c s.relays) s

pub finish_all-SameSessions : (cs : List Bytes) (s : NatNeg) → SameSessions s (finish_all cs s)
unfolding finish_all
finish_all-SameSessions [] s = record { sessions = refl; limit = refl }
finish_all-SameSessions (c ∷ cs) s =
    SameSessions-trans s (finish_relay c s) _ (finish_relay-SameSessions c s)
      (finish_all-SameSessions cs (finish_relay c s))

pub expire_relays-SameSessions :
    (now : ℕ) (force : Bool) (s : NatNeg) → SameSessions s (expire_relays now force s)
unfolding expire_relays
expire_relays-SameSessions now force s =
    if-elim (SameSessions s) (not force && ltb now s.next_relay_expiry)
      (λ early. record { sessions = refl; limit = refl })
      (λ due.
        SameSessions-trans s (record s { next_relay_expiry = now + seconds 1 }) _
          (record { sessions = refl; limit = refl })
          (finish_all-SameSessions (idle_cookies s.config.session_seconds now s.relays)
            (record s { next_relay_expiry = now + seconds 1 })))

pub finish_relay-IsSound : (c : Bytes) (s : NatNeg) → IsSound s → IsSound (finish_relay c s)
finish_relay-IsSound c s h = record {
  sessions = SameSessions-HasSessions s _ (finish_relay-SameSessions c s) h.sessions;
  relays = finish_relay-HasRelays c s h.relays;
}

pub finish_all-IsSound : (cs : List Bytes) (s : NatNeg) → IsSound s → IsSound (finish_all cs s)
finish_all-IsSound cs s h = record {
  sessions = SameSessions-HasSessions s _ (finish_all-SameSessions cs s) h.sessions;
  relays = finish_all-HasRelays cs s h.relays;
}

pub expire_relays-IsSound :
    (now : ℕ) (force : Bool) (s : NatNeg) → IsSound s → IsSound (expire_relays now force s)
expire_relays-IsSound now force s h = record {
  sessions = SameSessions-HasSessions s _ (expire_relays-SameSessions now force s) h.sessions;
  relays = expire_relays-HasRelays now force s h.relays;
}

pub begin_drain-IsSound : (s : NatNeg) → IsSound s → IsSound (begin_drain s).1
unfolding begin_drain
begin_drain-IsSound s h = record {
  sessions =
      SameSessions-HasSessions s (begin_drain s).1 (record { sessions = refl; limit = refl })
        h.sessions;
  relays = begin_drain-HasRelays s h.relays;
}

expire_idle_found-SameSessions :
    (now loop_now : ℕ) (c : Bytes) (o : Option RelaySession) (s : NatNeg)
    → SameSessions s (expire_idle_found now loop_now c o s)
unfolding expire_idle_found schedule_expiration
expire_idle_found-SameSessions now loop_now c none s = record { sessions = refl; limit = refl }
expire_idle_found-SameSessions now loop_now c (some r) s =
    if-elim (SameSessions s) (ltb now (r.last_seen + seconds s.config.session_seconds))
      (λ active. record { sessions = refl; limit = refl })
      (λ idle.
        SameSessions-trans s (record s { relay_expirations = remove c s.relay_expirations }) _
          (record { sessions = refl; limit = refl })
          (finish_relay-SameSessions c
            (record s { relay_expirations = remove c s.relay_expirations })))

pub expire_relay_after_idle-IsSound :
    (now loop_now : ℕ) (c : Bytes) (s : NatNeg)
    → IsSound s
    → IsSound (expire_relay_after_idle now loop_now c s)
unfolding expire_relay_after_idle
expire_relay_after_idle-IsSound now loop_now c s h = record {
  sessions =
      SameSessions-HasSessions s _
        (expire_idle_found-SameSessions now loop_now c (get c s.relays) s) h.sessions;
  relays = expire_relay_after_idle-HasRelays now loop_now c s h.relays;
}

-- A change of a relay leaves the sessions as they are.
pub stored_sessions :
    (c : Bytes) (r : RelaySession) (s : NatNeg)
    → get c (store_relay c r s).state.nat_sessions ≡ get c s.state.nat_sessions
unfolding store_relay
stored_sessions c r s = refl

ping_endpoint-IsSound :
    (c : Bytes) (i now : ℕ) (r : RelaySession) (s : NatNeg)
    → get c s.relays ≡ some r
    → IsSound s
    → IsSound (ping_endpoint c i now r s)
unfolding ping_endpoint
ping_endpoint-IsSound c i now r s g h =
    let pinged = record r { ready = add i r.ready; last_seen = now } in
    let seen =
      touch_session-IsSound c now (get c s.state.nat_sessions) (store_relay c pinged s)
        (stored_sessions c pinged s)
        (store_relay-IsSound c r pinged s g (SameEnds-refl r pinged refl) h) in
    if-elim IsSound (not (is_both r.ready) && is_both pinged.ready)
      (λ ready. count_metric-IsSound _ _ seen) (λ waiting. seen)

ping_at-IsSound :
    (c : Bytes) (i : ℕ) (addr : Address) (now : ℕ) (r : RelaySession) (o : Option RelayEndpoint)
    (s : NatNeg)
    → get c s.relays ≡ some r
    → IsSound s
    → IsSound (ping_at c i addr now r o s).1
unfolding ping_at
ping_at-IsSound c i addr now r none s g h = h
ping_at-IsSound c i addr now r (some e) s g h =
    if-elim (λ (o : Result Bool × NatNeg). IsSound o.1) (e.address == addr)
      (λ same. ping_endpoint-IsSound c i now r s g h) (λ other. h)

ping_found-IsSound :
    (c : Bytes) (addr : Address) (now : ℕ) (o : Option RelaySession) (b : Option (Bytes × ℕ))
    (s : NatNeg)
    → get c s.relays ≡ o
    → IsSound s
    → IsSound (ping_found c addr now o b s).1
unfolding ping_found
ping_found-IsSound c addr now none b s g h = h
ping_found-IsSound c addr now (some r) none s g h = h
ping_found-IsSound c addr now (some r) (some (d, i)) s g h =
    if-elim (λ (o : Result Bool × NatNeg). IsSound o.1) (d == c)
      (λ same. ping_at-IsSound c i addr now r (get i r.endpoints) s g h) (λ other. h)

pub handle_relay_ping-IsSound :
    (packet : Bytes) (addr : Address) (now : ℕ) (s : NatNeg)
    → IsSound s
    → IsSound (handle_relay_ping packet addr now s).1
unfolding handle_relay_ping
handle_relay_ping-IsSound packet addr now s h =
    if-elim (λ (o : Result Bool × NatNeg). IsSound o.1)
      (ltb (length packet) 20
        || not (has_magic packet)
        || not (get_or packet 7 0 == nn_connect_ping))
      (λ no_ping. h) (λ ping. ping_found-IsSound (slice packet 8 12) addr now _ _ s refl h)
