-- ===== src/NatNeg/Relay.antt =====
-- Relays: their end, their expiry, the pings that make them ready and the forwarding of datagrams.
pub mod Links
pub mod Open
pub mod Finish
pub mod Ping
pub mod Ends
pub mod Charge
pub mod Forward
use fruitspy.Prelude.{
  Bytes, ℕ, ◌+◌, ◌-◌, Bool, true, false, ◌&&◌, ◌||◌, not, Option, none, some, List, [], ◌∷◌, ltb,
  leb, if◌then◌else◌, length, get_or, slice, Result, ok, err, key_error, ◌==◌, nat_eq, pair_eq,
}
use fruitspy.Clock.{seconds}
use fruitspy.Dict.{Dict, remove_if, get, put, remove, contains, keys, values}
use fruitspy.Metrics.{increment, set_gauge}
use fruitspy.State.{Address, address_eq, bytes_eq, NatSession}
use fruitspy.NatNeg.{
  NatNeg, RelaySession, RelayEndpoint, count_metric, send, store_session, store_relay, add, is_in,
  is_both, allow,
}
use fruitspy.NatNeg.Packet.{has_magic, nn_connect_ping}

-- the bindings of a relay's endpoints are dropped, where they still point to it
unfoldable pub unbind :
    Bytes → List RelayEndpoint → Dict Address (Bytes × ℕ) → Dict Address (Bytes × ℕ)
unbind cookie [] bindings = bindings
unbind cookie (endpoint ∷ rest) bindings =
    unbind cookie rest (remove_if endpoint.address (cookie, endpoint.index) bindings)

unfoldable pub is_empty {ℓ κ} : {K : Type ℓ} {V : Type κ} → Dict K V → Bool
is_empty [] = true
is_empty (_ ∷ _) = false

unfoldable pub finish_found : Bytes → Option RelaySession → NatNeg → NatNeg
unfolding is_empty
finish_found cookie none s = s
finish_found cookie (some relay) s =
    let relays = remove cookie s.relays in
    count_metric (increment "fruitspy_relay_events_total" (("event", "closed") ∷ [])) (
      count_metric (set_gauge "fruitspy_natneg_relays" (length relays)) (record s {
        relays = relays;
        relay_expirations = remove cookie s.relay_expirations;
        relay_by_address = unbind cookie (values relay.endpoints) s.relay_by_address;
        fallbacks = remove cookie s.fallbacks;
        relays_empty = is_empty relays || s.relays_empty;
      }))

-- _finish_relay(cookie, reason)
unfoldable pub finish_relay : Bytes → NatNeg → NatNeg
unfolding finish_found
finish_relay cookie s = finish_found cookie (get cookie s.relays) s

-- a loop of `_finish_relay` over a snapshot of cookies: close_relays(reason), connection_lost
unfoldable pub finish_all : List Bytes → NatNeg → NatNeg
finish_all [] s = s
finish_all (cookie ∷ rest) s = finish_all rest (finish_relay cookie s)

-- the relays of a snapshot that have been idle for their lifetime
unfoldable pub idle_cookies : ℕ → ℕ → Dict Bytes RelaySession → List Bytes
idle_cookies lifetime now [] = []
idle_cookies lifetime now ((cookie, relay) ∷ rest) =
    let others = idle_cookies lifetime now rest in
    if leb (relay.last_seen + seconds lifetime) now then cookie ∷ others else others

-- _expire_relays(now, force=...)
unfoldable pub expire_relays : ℕ → Bool → NatNeg → NatNeg
expire_relays now force s =
    if not force && ltb now s.next_relay_expiry
    then s
    else finish_all (idle_cookies s.config.session_seconds now s.relays)
        (record s { next_relay_expiry = now + seconds 1 })

-- close_relays(reason)
unfoldable pub close_relays : NatNeg → NatNeg
close_relays s = finish_all (keys s.relays) s

-- begin_drain(): every fallback is cancelled
unfoldable pub begin_drain : NatNeg → ℕ × NatNeg
unfolding is_empty
begin_drain s = (
  length s.relays,
  record s { fallbacks = []; relays_empty = is_empty s.relays || s.relays_empty },
)

-- session.last_seen = now, for the session of a relay, if it is still there
unfoldable pub touch_session : Bytes → ℕ → Option NatSession → NatNeg → NatNeg
touch_session cookie now none s = s
touch_session cookie now (some session) s =
    store_session cookie (record session { last_seen = now }) s

-- a ping of a bound endpoint of this relay
unfoldable pub ping_endpoint : Bytes → ℕ → ℕ → RelaySession → NatNeg → NatNeg
ping_endpoint cookie index now relay s =
    let pinged = record relay { ready = add index relay.ready; last_seen = now } in
    let seen =
      touch_session cookie now (get cookie s.state.nat_sessions) (store_relay cookie pinged s) in
    if not (is_both relay.ready) && is_both pinged.ready
    then count_metric (increment "fruitspy_relay_events_total" (("event", "ready") ∷ [])) seen
    else seen

unfoldable pub ping_at :
    Bytes → ℕ → Address → ℕ → RelaySession → Option RelayEndpoint → NatNeg → Result Bool × NatNeg
ping_at cookie index addr now relay none s = (err key_error, s)
ping_at cookie index addr now relay (some endpoint) s =
    if endpoint.address == addr
    then (ok true, ping_endpoint cookie index now relay s)
    else (ok false, s)

unfoldable pub ping_found :
    Bytes → Address → ℕ → Option RelaySession → Option (Bytes × ℕ) → NatNeg → Result Bool × NatNeg
unfolding ping_at
ping_found cookie addr now none binding s = (ok false, s)
ping_found cookie addr now (some relay) none s = (ok false, s)
ping_found cookie addr now (some relay) (some (bound, index)) s =
    if bound == cookie
    then ping_at cookie index addr now relay (get index relay.endpoints) s
    else (ok false, s)

-- _handle_relay_ping(data, addr, now)
unfoldable pub handle_relay_ping : Bytes → Address → ℕ → NatNeg → Result Bool × NatNeg
unfolding ping_found
handle_relay_ping packet addr now s =
    if ltb (length packet) 20
      || not (has_magic packet)
      || not (get_or packet 7 0 == nn_connect_ping)
    then (ok false, s)
    else (let cookie = slice packet 8 12 in
        ping_found cookie addr now (get cookie s.relays) (get addr s.relay_by_address) s)

-- relay.drops += 1 and its metric
unfoldable pub drop_packet : Bytes → RelaySession → NatNeg → NatNeg
drop_packet cookie relay s =
    count_metric (increment "fruitspy_relay_packets_total" (("result", "dropped") ∷ []))
      (store_relay cookie (record relay { drops = relay.drops + 1 }) s)

-- the counters of a forwarded datagram; `last_metrics_at` paces a log line
unfoldable pub count_packet : ℕ → ℕ → RelaySession → RelaySession
count_packet size now relay = record relay {
  packets = relay.packets + 1;
  byte_count = relay.byte_count + size;
  last_metrics_at =
      if relay.packets + 1 == 1
      then now
      else if leb (relay.last_metrics_at + seconds 30) now
      then now
      else relay.last_metrics_at;
}

-- the last statements: the datagram goes to the other endpoint
unfoldable pub pass_on :
    Bytes → Bytes → ℕ → Option RelayEndpoint → RelaySession → NatNeg → Result Bool × NatNeg
pass_on packet cookie now none relay s = (err key_error, store_relay cookie relay s)
pass_on packet cookie now (some other) relay s =
    if s.connected
    then (
      ok true,
      count_metric (increment "fruitspy_relay_packets_total" (("result", "forwarded") ∷ [])) (
          store_relay cookie (count_packet (length packet) now relay)
            (send packet other.address s)),
    )
    else (ok true, drop_packet cookie relay s)

-- the tests of size, readiness and rate, in this order
unfoldable pub forward_from :
    Bytes → Bytes → ℕ → ℕ → RelaySession → RelayEndpoint → NatNeg → Result Bool × NatNeg
forward_from packet cookie index now relay endpoint s =
    if ltb s.config.packet_bytes (length packet)
    then (ok true, drop_packet cookie relay s)
    else if not (is_both relay.ready)
    then (ok true, drop_packet cookie relay s)
    else (let (granted, paid) =
          allow (length packet) s.config.bytes_per_second s.config.byte_burst now endpoint in
        let charged = record relay { endpoints = put index paid relay.endpoints } in
        if granted
        then pass_on packet cookie now (get (1 - index) relay.endpoints) charged s
        else (ok true, drop_packet cookie charged s))

unfoldable pub forward_seen :
    Bytes → Bytes → ℕ → ℕ → RelaySession → Option RelayEndpoint → NatNeg → Result Bool × NatNeg
forward_seen packet cookie index now relay none s = (err key_error, s)
forward_seen packet cookie index now relay (some endpoint) s =
    forward_from packet cookie index now relay endpoint s

unfoldable pub forward_in :
    Bytes → Address → Bytes → ℕ → ℕ → Option RelaySession → NatNeg → Result Bool × NatNeg
unfolding forward_seen
forward_in packet addr cookie index now none s =
    (ok false, record s { relay_by_address = remove addr s.relay_by_address })
forward_in packet addr cookie index now (some relay) s =
    let active = record relay { last_seen = now } in
    let seen =
      touch_session cookie now (get cookie s.state.nat_sessions) (store_relay cookie active s) in
    forward_seen packet cookie index now active (get index relay.endpoints) seen

unfoldable pub forward_bound :
    Bytes → Address → ℕ → Option (Bytes × ℕ) → NatNeg → Result Bool × NatNeg
unfolding forward_in
forward_bound packet addr now none s = (ok false, s)
forward_bound packet addr now (some (cookie, index)) s =
    forward_in packet addr cookie index now (get cookie s.relays) s

-- _forward_relay(data, addr, now)
unfoldable pub forward_relay : Bytes → Address → ℕ → NatNeg → Result Bool × NatNeg
unfolding forward_bound
forward_relay packet addr now s = forward_bound packet addr now (get addr s.relay_by_address) s

-- _schedule_relay_idle_expiration(cookie, delay), with `loop_now` the loop's clock
unfoldable pub schedule_expiration : Bytes → ℕ → ℕ → NatNeg → NatNeg
schedule_expiration cookie loop_now delay s = record s {
  relay_expirations = put cookie (loop_now + delay) s.relay_expirations;
}

unfoldable pub expire_idle_found : ℕ → ℕ → Bytes → Option RelaySession → NatNeg → NatNeg
expire_idle_found now loop_now cookie none s = record s {
  relay_expirations = remove cookie s.relay_expirations;
}
expire_idle_found now loop_now cookie (some relay) s =
    let lifetime = seconds s.config.session_seconds in
    if ltb now (relay.last_seen + lifetime)
    then schedule_expiration cookie loop_now (relay.last_seen + lifetime - now) s
    else finish_relay cookie (record s { relay_expirations = remove cookie s.relay_expirations })

-- _expire_relay_after_idle(cookie): the timer of a relay fires
unfoldable pub expire_relay_after_idle : ℕ → ℕ → Bytes → NatNeg → NatNeg
unfolding expire_idle_found
expire_relay_after_idle now loop_now cookie s =
    expire_idle_found now loop_now cookie (get cookie s.relays) s
