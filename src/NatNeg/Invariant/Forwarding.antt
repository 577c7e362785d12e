-- ===== src/NatNeg/Invariant/Forwarding.antt =====
-- Forwarding and the opening of a relay leave the service sound.
use fruitspy.Prelude.{
  Bytes, ℕ, ◌-◌, ◌≡◌, refl, Bool, true, false, ◌||◌, not, Option, none, some, List, [], ◌∷◌, length,
  ltb, leb, Result, ok, err, ◌==◌, if-elim, nat_eq,
}
use fruitspy.Clock.{seconds}
use fruitspy.Dict.{Dict, get, put, remove, contains, keys, values}
use fruitspy.State.{Address, address_eq, bytes_eq, NatSession}
use fruitspy.State.Sessions.Invariant.{HasSessions}
use fruitspy.Drain.{is_draining}
use fruitspy.NatNeg.{
  NatNeg, RelaySession, RelayEndpoint, count_metric, send, store_relay, is_both, is_none, allow,
}
use fruitspy.NatNeg.Relay.{
  finish_all, expire_relays, touch_session, drop_packet, pass_on, forward_from, forward_seen,
  forward_in, forward_bound, forward_relay, schedule_expiration,
}
use fruitspy.NatNeg.Relay.Links.{SameEnds-refl}
use fruitspy.NatNeg.Relay.Forward.{forward_relay_lem}
use fruitspy.NatNeg.Activate.{
  is_auto, count_unavailable, count_rejection, replaced, address_set, bind_endpoints, new_relay,
  open_relay, activate_pinged, activate_checked, activate_session, activate_relay,
}
use fruitspy.NatNeg.Activate.Opened.{activate_relay-HasRelays}
use fruitspy.NatNeg.Invariant.Relays.{
  finish_all-SameSessions, expire_relays-SameSessions, stored_sessions,
}
use fruitspy.NatNeg.Invariant.{
  IsSound, SameSessions, SameSessions-HasSessions, SameSessions-trans, touch_session-IsSound,
  store_relay-IsSound,
}

-- The sessions after a forwarding step: only the metrics have changed.
abbrev Kept : NatNeg → Result Bool × NatNeg → Type 0
Kept s result = SameSessions s result.1

drop_packet-SameSessions :
    (c : Bytes) (r : RelaySession) (s : NatNeg) → SameSessions s (drop_packet c r s)
unfolding drop_packet count_metric store_relay
drop_packet-SameSessions c r s = record { sessions = refl; limit = refl }

pass_on-SameSessions :
    (packet c : Bytes) (now : ℕ) (o : Option RelayEndpoint) (r : RelaySession) (s : NatNeg)
    → Kept s (pass_on packet c now o r s)
unfolding pass_on count_metric store_relay send
pass_on-SameSessions packet c now none r s = record { sessions = refl; limit = refl }
pass_on-SameSessions packet c now (some other) r s =
    if-elim (Kept s) s.connected (λ up. record { sessions = refl; limit = refl })
      (λ down. drop_packet-SameSessions c r s)

forward_from-SameSessions :
    (packet c : Bytes) (i now : ℕ) (r : RelaySession) (e : RelayEndpoint) (s : NatNeg)
    → Kept s (forward_from packet c i now r e s)
unfolding forward_from
forward_from-SameSessions packet c i now r e s =
    if-elim (Kept s) (ltb s.config.packet_bytes (length packet))
      (λ long. drop_packet-SameSessions c r s)
      (λ fits.
        if-elim (Kept s) (not (is_both r.ready)) (λ waiting. drop_packet-SameSessions c r s)
          (λ ready.
            let paid = allow (length packet) s.config.bytes_per_second s.config.byte_burst now e in
            let charged = record r { endpoints = put i paid.1 r.endpoints } in
            if-elim (Kept s) paid.0
              (λ granted. pass_on-SameSessions packet c now (get (1 - i) r.endpoints) charged s)
              (λ refused. drop_packet-SameSessions c charged s)))

forward_seen-SameSessions :
    (packet c : Bytes) (i now : ℕ) (r : RelaySession) (o : Option RelayEndpoint) (s : NatNeg)
    → Kept s (forward_seen packet c i now r o s)
unfolding forward_seen
forward_seen-SameSessions packet c i now r none s = record { sessions = refl; limit = refl }
forward_seen-SameSessions packet c i now r (some e) s =
    forward_from-SameSessions packet c i now r e s

forward_in-HasSessions :
    (packet : Bytes) (addr : Address) (c : Bytes) (i now : ℕ) (o : Option RelaySession) (s : NatNeg)
    → get c s.relays ≡ o
    → IsSound s
    → HasSessions (forward_in packet addr c i now o s).1.state
unfolding forward_in
forward_in-HasSessions packet addr c i now none s g h = h.sessions
forward_in-HasSessions packet addr c i now (some r) s g h =
    let active = record r { last_seen = now } in
    let seen = touch_session c now (get c s.state.nat_sessions) (store_relay c active s) in
    let sound =
      touch_session-IsSound c now (get c s.state.nat_sessions) (store_relay c active s)
        (stored_sessions c active s)
        (store_relay-IsSound c r active s g (SameEnds-refl r active refl) h) in
    SameSessions-HasSessions seen _
      (forward_seen-SameSessions packet c i now active (get i r.endpoints) seen) sound.sessions

forward_bound-HasSessions :
    (packet : Bytes) (addr : Address) (now : ℕ) (o : Option (Bytes × ℕ)) (s : NatNeg)
    → IsSound s
    → HasSessions (forward_bound packet addr now o s).1.state
unfolding forward_bound
forward_bound-HasSessions packet addr now none s h = h.sessions
forward_bound-HasSessions packet addr now (some (c, i)) s h =
    forward_in-HasSessions packet addr c i now (get c s.relays) s refl h

pub forward_relay-IsSound :
    (packet : Bytes) (addr : Address) (now : ℕ) (s : NatNeg)
    → IsSound s
    → IsSound (forward_relay packet addr now s).1
unfolding forward_relay
forward_relay-IsSound packet addr now s h = record {
  sessions = forward_bound-HasSessions packet addr now (get addr s.relay_by_address) s h;
  relays = (forward_relay_lem packet addr now s h.relays).keeps;
}

bind_endpoints-SameSessions :
    (c : Bytes) (pings : Dict ℕ Bytes) (es : Dict ℕ RelayEndpoint) (s : NatNeg)
    → SameSessions s (bind_endpoints c pings es s)
unfolding bind_endpoints send
bind_endpoints-SameSessions c pings [] s = record { sessions = refl; limit = refl }
bind_endpoints-SameSessions c pings ((i, e) ∷ es) s =
    SameSessions-trans s _ _ (record { sessions = refl; limit = refl })
      (bind_endpoints-SameSessions c pings es _)

open_relay-SameSessions :
    (clock : ℕ → ℕ) (c : Bytes) (session : NatSession) (pings : Dict ℕ Bytes) (s : NatNeg)
    → SameSessions s (open_relay clock c session pings s)
unfolding open_relay count_metric schedule_expiration
open_relay-SameSessions clock c session pings s =
    let relay = new_relay s.config.byte_burst (clock 0) c session in
    let stored = record s { relays = put c relay s.relays; relays_empty = false } in
    let timed = schedule_expiration c (clock 1) (seconds s.config.session_seconds) stored in
    let bound = bind_endpoints-SameSessions c pings relay.endpoints timed in
    record { sessions = bound.sessions; limit = bound.limit }

activate_pinged-SameSessions :
    (clock : ℕ → ℕ) (c : Bytes) (session : NatSession) (addresses : List Address)
    (o : Result (Option (Dict ℕ Bytes))) (s : NatNeg)
    → SameSessions s (activate_pinged clock c session addresses o s)
unfolding activate_pinged count_rejection count_metric
activate_pinged-SameSessions clock c session addresses (err e) s = record {
  sessions = refl;
  limit = refl;
}
activate_pinged-SameSessions clock c session addresses (ok none) s = record {
  sessions = refl;
  limit = refl;
}
activate_pinged-SameSessions clock c session addresses (ok (some pings)) s =
    let cs = replaced addresses s.relay_by_address in
    SameSessions-trans s (finish_all cs s) _ (finish_all-SameSessions cs s)
      (open_relay-SameSessions clock c session pings (finish_all cs s))

activate_checked-SameSessions :
    (clock : ℕ → ℕ) (c : Bytes) (session : NatSession) (s : NatNeg)
    → SameSessions s (activate_checked clock c session s)
unfolding activate_checked count_rejection count_unavailable count_metric
activate_checked-SameSessions clock c session s =
    if-elim (SameSessions s) (leb s.config.max_relays (length s.relays))
      (λ full. record { sessions = refl; limit = refl })
      (λ room.
        if-elim (SameSessions s) (length (address_set (values session.peers)) == 2)
          (λ separate. activate_pinged-SameSessions clock c session _ _ s)
          (λ one. record { sessions = refl; limit = refl }))

activate_session-SameSessions :
    (clock : ℕ → ℕ) (c : Bytes) (o : Option NatSession) (s : NatNeg)
    → SameSessions s (activate_session clock c o s)
unfolding activate_session
activate_session-SameSessions clock c none s = record { sessions = refl; limit = refl }
activate_session-SameSessions clock c (some session) s =
    if-elim (SameSessions s)
      (not (is_both (keys session.peers))
        || not (is_none session.successful_reports)
        || contains c s.relays)
      (λ idle. record { sessions = refl; limit = refl })
      (λ due.
        SameSessions-trans s (expire_relays (clock 0) true s) _
          (expire_relays-SameSessions (clock 0) true s)
          (activate_checked-SameSessions clock c session (expire_relays (clock 0) true s)))

activate_relay-SameSessions :
    (clock : ℕ → ℕ) (c : Bytes) (s : NatNeg) → SameSessions s (activate_relay clock c s)
unfolding activate_relay count_rejection count_unavailable count_metric
activate_relay-SameSessions clock c s =
    let t = record s { fallbacks = remove c s.fallbacks } in
    if-elim (SameSessions s) (is_draining s.drain)
      (λ draining. record { sessions = refl; limit = refl })
      (λ up.
        if-elim (SameSessions s) (not s.connected || not (is_auto s.config.policy))
          (λ off. record { sessions = refl; limit = refl })
          (λ on.
            SameSessions-trans s t _ (record { sessions = refl; limit = refl })
              (activate_session-SameSessions clock c (get c s.state.nat_sessions) t)))

pub activate_relay-IsSound :
    (clock : ℕ → ℕ) (c : Bytes) (s : NatNeg) → IsSound s → IsSound (activate_relay clock c s)
activate_relay-IsSound clock c s h = record {
  sessions = SameSessions-HasSessions s _ (activate_relay-SameSessions clock c s) h.sessions;
  relays = activate_relay-HasRelays clock c s h.sessions h.relays;
}
