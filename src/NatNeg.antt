-- ===== src/NatNeg.antt =====
-- `NatNegProtocol` of server/fruitspy/natneg.py: the NAT negotiation service and its UDP relay.
-- This file holds its state and its smallest steps; Packet, Relay, Report, Activate, Handle and
-- Receive hold the methods. Datagrams are sent by appending to `sent`, metrics are the calls in
-- `state.metrics`, and a timer handle is the loop time at which it is due: to cancel a timer is to
-- drop its entry. The log lines are left out.
pub mod Packet
pub mod Relay
pub mod Report
pub mod Activate
pub mod Handle
pub mod Receive
pub mod Invariant
use fruitspy.Prelude.{
  Text, Bytes, ℕ, ◌+◌, ◌-◌, ◌*◌, min, Bool, true, false, ◌&&◌, ◌||◌, Option, none, some, List, [],
  ◌∷◌, ◌++◌, ltb, leb, ◌==◌, nat_eq, if◌then◌else◌,
}
use fruitspy.Clock.{second}
use fruitspy.Dict.{Dict, put}
use fruitspy.Metrics.{MetricCall, record_call}
use fruitspy.State.{Address, ServerState, NatSession, bytes_eq}
use fruitspy.UdpAdmission.{UdpAdmission}
use fruitspy.Drain.{DrainController}

-- `RelayConfig`, with `fallback` in nanoseconds, and the limit on datagrams
pub record NatNegConfig : Type 0 where
  pub natneg_packet_bytes : ℕ
  pub policy : Text
  pub fallback : ℕ
  pub session_seconds : ℕ
  pub packet_bytes : ℕ
  pub bytes_per_second : ℕ
  pub byte_burst : ℕ
  pub max_relays : ℕ

-- a balance in billionths of a byte
pub record RelayEndpoint : Type 0 where
  pub index : ℕ
  pub address : Address
  pub tokens : ℕ
  pub last_refill : ℕ

-- `reports` and `ready` are sets, as lists without repetitions
pub record RelaySession : Type 0 where
  pub cookie : Bytes
  pub endpoints : Dict ℕ RelayEndpoint
  pub started_at : ℕ
  pub last_seen : ℕ
  pub reports : List ℕ
  pub last_metrics_at : ℕ
  pub ready : List ℕ
  pub packets : ℕ
  pub byte_count : ℕ
  pub drops : ℕ
  pub established : Bool

-- `connected` is `transport is not None`; `relays_empty` is the event's flag.
pub record NatNeg : Type 0 where
  pub config : NatNegConfig
  pub state : ServerState
  pub udp_admission : UdpAdmission
  pub drain : DrainController
  pub connected : Bool
  pub relay_expirations : Dict Bytes ℕ
  pub fallbacks : Dict Bytes ℕ
  pub relays : Dict Bytes RelaySession
  pub relay_by_address : Dict Address (Bytes × ℕ)
  pub relays_empty : Bool
  pub next_relay_expiry : ℕ
  pub sent : List (Bytes × Address)

-- x in s, s.add(x), and s == {0, 1}, of a set of numbers
unfoldable pub is_in : ℕ → List ℕ → Bool
is_in x [] = false
is_in x (y ∷ s) = x == y || is_in x s

unfoldable pub add : ℕ → List ℕ → List ℕ
unfolding is_in
add x s = if is_in x s then s else s ++ x ∷ []

all_peers : List ℕ → Bool
all_peers [] = true
all_peers (x ∷ s) = (x == 0 || x == 1) && all_peers s

unfoldable pub is_both : List ℕ → Bool
unfolding is_in all_peers
is_both s = is_in 0 s && is_in 1 s && all_peers s

-- not s, of a set
unfoldable pub is_none : List ℕ → Bool
is_none [] = true
is_none (x ∷ s) = false

-- self.metrics.increment(...), set_gauge(...) and observe(...)
unfoldable pub count_metric : MetricCall → NatNeg → NatNeg
count_metric c s = record s { state = record s.state { metrics = record_call c s.state.metrics } }

-- self.transport.sendto(data, destination)
unfoldable pub send : Bytes → Address → NatNeg → NatNeg
send packet destination s = record s { sent = s.sent ++ (packet, destination) ∷ [] }

-- a change of the session object that `nat_sessions` holds under `cookie`
unfoldable pub store_session : Bytes → NatSession → NatNeg → NatNeg
store_session cookie session s = record s {
  state = record s.state { nat_sessions = put cookie session s.state.nat_sessions };
}

-- a change of the relay object that `_relays` holds under `cookie`
unfoldable pub store_relay : Bytes → RelaySession → NatNeg → NatNeg
store_relay cookie relay s = record s { relays = put cookie relay s.relays }

-- _RelayEndpoint.allow(size, rate, burst, now)
unfoldable pub allow : ℕ → ℕ → ℕ → ℕ → RelayEndpoint → Bool × RelayEndpoint
allow size rate burst now endpoint =
    let tokens = min (burst * second) (endpoint.tokens + (now - endpoint.last_refill) * rate) in
    if ltb tokens (size * second)
    then (false, record endpoint { tokens = tokens; last_refill = now })
    else (true, record endpoint { tokens = tokens - size * second; last_refill = now })

-- NatNegProtocol(...): no transport, no relay
unfoldable pub create : NatNegConfig → ServerState → UdpAdmission → DrainController → NatNeg
create config state udp_admission drain = record {
  config = config;
  state = state;
  udp_admission = udp_admission;
  drain = drain;
  connected = false;
  relay_expirations = [];
  fallbacks = [];
  relays = [];
  relay_by_address = [];
  relays_empty = true;
  next_relay_expiry = 0;
  sent = [];
}
