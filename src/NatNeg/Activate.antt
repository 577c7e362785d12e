-- ===== src/NatNeg/Activate.antt =====
-- The fallback to a relay: `_schedule_fallback`, and `_activate_relay` when its timer fires.
pub mod Peers
pub mod Replaced
pub mod Opened
use fruitspy.Prelude.{
  Text, Bytes, ℕ, ◌+◌, ◌-◌, ◌*◌, Bool, true, false, ◌&&◌, ◌||◌, not, Option, none, some, List, [],
  ◌∷◌, ◌++◌, ltb, leb, if◌then◌else◌, ◌==◌, nat_eq, Result, ok, err, key_error, ◌>>=◌, or_raise,
  text, length, String,
}
use fruitspy.Clock.{second, seconds}
use fruitspy.Dict.{Dict, get, put, remove, contains, keys, values}
use fruitspy.Metrics.{increment, set_gauge}
use fruitspy.State.{Address, address_eq, bytes_eq, NatSession, NatPeer}
use fruitspy.UdpAdmission.{within_amplification_limit}
use fruitspy.Drain.{is_draining}
use fruitspy.NatNeg.{NatNeg, RelaySession, RelayEndpoint, count_metric, send, is_both, is_none}
use fruitspy.NatNeg.Packet.{connect_packet, relay_ping_packet, min_init_bytes, amplification_limit}
use fruitspy.NatNeg.Relay.{finish_all, expire_relays, schedule_expiration}

-- self.config.relay.policy == "auto"
unfoldable pub is_auto : Text → Bool
is_auto policy = policy == text "auto"

-- _schedule_fallback(cookie), with `loop_now` the loop's clock
unfoldable pub schedule_fallback : ℕ → Bytes → NatNeg → NatNeg
unfolding is_auto
schedule_fallback loop_now cookie s =
    if not (is_auto s.config.policy) || not s.connected || contains cookie s.fallbacks
    then s
    else record s { fallbacks = put cookie (loop_now + s.config.fallback) s.fallbacks }

-- an activation that is refused, with its second metric where there is one
unfoldable pub count_unavailable : NatNeg → NatNeg
count_unavailable =
    count_metric (increment "fruitspy_relay_events_total" (("event", "unavailable") ∷ []))

unfoldable pub count_rejection : String → NatNeg → NatNeg
count_rejection reason = count_metric (
    increment "fruitspy_protocol_rejections_total"
      (("service", "natneg") ∷ ("reason", reason) ∷ []))

seen_in : Address → List Address → Bool
seen_in a [] = false
seen_in a (b ∷ rest) = b == a || seen_in a rest

-- a set of addresses, as a list without repetitions
unfoldable pub add_address : Address → List Address → List Address
unfolding seen_in
add_address a s = if seen_in a s then s else a ∷ s

-- {peer.address for peer in session.peers.values()}
unfoldable pub address_set : List NatPeer → List Address
address_set [] = []
address_set (peer ∷ rest) = add_address peer.address (address_set rest)

cookie_in : Bytes → List Bytes → Bool
cookie_in c [] = false
cookie_in c (d ∷ rest) = d == c || cookie_in c rest

unfoldable pub add_cookie : Bytes → List Bytes → List Bytes
unfolding cookie_in
add_cookie c s = if cookie_in c s then s else c ∷ s

with_cookie : Option (Bytes × ℕ) → List Bytes → List Bytes
with_cookie none cookies = cookies
with_cookie (some (cookie, index)) cookies = add_cookie cookie cookies

-- the cookies of the relays that use one of the addresses now
unfoldable pub replaced : List Address → Dict Address (Bytes × ℕ) → List Bytes
unfolding with_cookie
replaced [] bindings = []
replaced (address ∷ rest) bindings = with_cookie (get address bindings) (replaced rest bindings)

unfoldable pub with_ping :
    ℕ → Bytes → Result (Option (Dict ℕ Bytes)) → Result (Option (Dict ℕ Bytes))
with_ping index ping (err e) = err e
with_ping index ping (ok none) = ok none
with_ping index ping (ok (some pings)) = ok (some ((index, ping) ∷ pings))

-- the pings of the two peers; `ok none` where one would exceed the amplification limit. The peers'
-- indices are 0 and 1, so 1 - index is the other one.
unfoldable pub relay_pings :
    Bytes → Dict ℕ NatPeer → Dict ℕ NatPeer → Result (Option (Dict ℕ Bytes))
relay_pings cookie peers [] = ok (some [])
relay_pings cookie peers ((index, peer) ∷ rest) = do
  other ← or_raise key_error (get (1 - index) peers)
  connect ← connect_packet peer.version cookie other.address
  let ping = relay_ping_packet peer.version cookie
  let cumulative = min_init_bytes + length connect + length ping
  let rest_pings = relay_pings cookie peers rest
  if within_amplification_limit min_init_bytes cumulative amplification_limit 1
      then with_ping index ping rest_pings
      else ok none

-- the endpoints of a new relay, each with a full bucket
unfoldable pub new_endpoints : ℕ → ℕ → Dict ℕ NatPeer → Dict ℕ RelayEndpoint
new_endpoints burst now [] = []
new_endpoints burst now ((index, peer) ∷ rest) =
    (
      index,
      record { index = index; address = peer.address; tokens = burst * second; last_refill = now },
    )
    ∷ new_endpoints burst now rest

-- the ping of an index: `pings` has the keys of the endpoints
ping_of : ℕ → Dict ℕ Bytes → Bytes
ping_of index pings = elim (get index pings) [ none ↦ [] | some ping ↦ ping ]

-- the loop that binds each endpoint's address and pings it
unfoldable pub bind_endpoints : Bytes → Dict ℕ Bytes → Dict ℕ RelayEndpoint → NatNeg → NatNeg
unfolding ping_of
bind_endpoints cookie pings [] s = s
bind_endpoints cookie pings ((index, endpoint) ∷ rest) s = bind_endpoints cookie pings rest (
    send (ping_of index pings) endpoint.address
      (record s { relay_by_address = put endpoint.address (cookie, index) s.relay_by_address }))

unfoldable pub new_relay : ℕ → ℕ → Bytes → NatSession → RelaySession
new_relay burst now cookie session = record {
  cookie = cookie;
  endpoints = new_endpoints burst now session.peers;
  started_at = now;
  last_seen = now;
  reports = [];
  last_metrics_at = 0;
  ready = [];
  packets = 0;
  byte_count = 0;
  drops = 0;
  established = false;
}

-- the relay is stored, its timer set, its endpoints bound and pinged
unfoldable pub open_relay : (ℕ → ℕ) → Bytes → NatSession → Dict ℕ Bytes → NatNeg → NatNeg
open_relay clock cookie session pings s =
    let relay = new_relay s.config.byte_burst (clock 0) cookie session in
    let stored = record s { relays = put cookie relay s.relays; relays_empty = false } in
    let timed = schedule_expiration cookie (clock 1) (seconds s.config.session_seconds) stored in
    let bound = bind_endpoints cookie pings relay.endpoints timed in
    count_metric (increment "fruitspy_relay_events_total" (("event", "activated") ∷ []))
      (count_metric (set_gauge "fruitspy_natneg_relays" (length bound.relays)) bound)

-- what the pings decide; an exception ends the callback, and the loop reports it
unfoldable pub activate_pinged :
    (ℕ → ℕ) → Bytes → NatSession → List Address → Result (Option (Dict ℕ Bytes)) → NatNeg → NatNeg
activate_pinged clock cookie session addresses (err e) s = s
activate_pinged clock cookie session addresses (ok none) s = count_rejection "amplification" s
activate_pinged clock cookie session addresses (ok (some pings)) s =
    open_relay clock cookie session pings (finish_all (replaced addresses s.relay_by_address) s)

-- the tests of capacity and of the endpoints, after the idle relays have been closed
unfoldable pub activate_checked : (ℕ → ℕ) → Bytes → NatSession → NatNeg → NatNeg
activate_checked clock cookie session s =
    if leb s.config.max_relays (length s.relays)
    then count_rejection "capacity" (count_unavailable s)
    else (let addresses = address_set (values session.peers) in
        if length addresses == 2
        then activate_pinged clock cookie session addresses
            (relay_pings cookie session.peers session.peers) s
        else count_unavailable s)

unfoldable pub activate_session : (ℕ → ℕ) → Bytes → Option NatSession → NatNeg → NatNeg
unfolding activate_checked
activate_session clock cookie none s = s
activate_session clock cookie (some session) s =
    if not (is_both (keys session.peers))
      || not (is_none session.successful_reports)
      || contains cookie s.relays
    then s
    else activate_checked clock cookie session (expire_relays (clock 0) true s)

-- _activate_relay(cookie); the clock's sites: 0 `now`, 1 the loop's clock
unfoldable pub activate_relay : (ℕ → ℕ) → Bytes → NatNeg → NatNeg
unfolding activate_session
activate_relay clock cookie s0 =
    let s = record s0 { fallbacks = remove cookie s0.fallbacks } in
    if is_draining s.drain
    then count_rejection "draining" (count_unavailable s)
    else if not s.connected || not (is_auto s.config.policy)
    then s
    else activate_session clock cookie (get cookie s.state.nat_sessions) s
