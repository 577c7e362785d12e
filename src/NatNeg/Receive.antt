-- ===== src/NatNeg/Receive.antt =====
-- `datagram_received`, and the transport's life. The clock's sites: 0 to 3 in `UdpAdmission.allow`,
-- 4 `now`, 5 and above in `handle_datagram`.
pub mod Stopped
use fruitspy.Prelude.{
  Bytes, ℕ, ◌+◌, Bool, true, false, [], ◌∷◌, if◌then◌else◌, String, Result, ok, err, value_error,
  os_error,
}
use fruitspy.Dict.{keys}
use fruitspy.Metrics.{increment}
use fruitspy.State.{Address}
use fruitspy.UdpAdmission
use fruitspy.UdpAdmission.{
  UdpAdmissionDecision, allowed, global_rate_limit, source_rate_limit, source_ban_started,
  source_banned, source_table_full,
}
use fruitspy.NatNeg.{NatNeg, count_metric, send}
use fruitspy.NatNeg.Packet.{has_magic}
use fruitspy.NatNeg.Relay.{expire_relays, handle_relay_ping, forward_relay, finish_all}
use fruitspy.NatNeg.Handle.{Responses, handle_datagram}

-- decision.value
unfoldable pub decision_value : UdpAdmissionDecision → String
decision_value allowed = "allowed"
decision_value global_rate_limit = "global_rate_limit"
decision_value source_rate_limit = "source_rate_limit"
decision_value source_ban_started = "source_ban_started"
decision_value source_banned = "source_banned"
decision_value source_table_full = "source_table_full"

-- for response, destination in responses: self.transport.sendto(response, destination)
unfoldable pub send_all : Responses → NatNeg → NatNeg
send_all [] s = s
send_all ((response, destination) ∷ rest) s = send_all rest (send response destination s)

unfoldable pub count_malformed : NatNeg → NatNeg
count_malformed = count_metric (
    increment "fruitspy_protocol_rejections_total"
      (("service", "natneg") ∷ ("reason", "malformed") ∷ []))

-- the `except` clause catches ValueError and OSError; any other exception leaves the callback
unfoldable pub deliver : Result Responses × NatNeg → NatNeg
unfolding count_malformed
deliver (ok responses, s) = if s.connected then send_all responses s else s
deliver (err value_error, s) = count_malformed s
deliver (err os_error, s) = count_malformed s
deliver (err _, s) = s

-- a datagram that is no ping of a relay
unfoldable pub receive_packet : (ℕ → ℕ) → Bytes → Address → Result Bool × NatNeg → NatNeg
receive_packet clock packet addr (err e, s) = s
receive_packet clock packet addr (ok true, s) = s
receive_packet clock packet addr (ok false, s) =
    if has_magic packet
    then deliver (handle_datagram (λ k. clock (5 + k)) packet addr s)
    else (forward_relay packet addr (clock 4) s).1

unfoldable pub receive_allowed : (ℕ → ℕ) → Bytes → Address → NatNeg → NatNeg
receive_allowed clock packet addr s =
    receive_packet clock packet addr
      (handle_relay_ping packet addr (clock 4) (expire_relays (clock 4) false s))

unfoldable pub receive_decided : (ℕ → ℕ) → Bytes → Address → UdpAdmissionDecision → NatNeg → NatNeg
receive_decided clock packet addr allowed s = receive_allowed clock packet addr s
receive_decided clock packet addr decision s =
    count_metric
      (increment "fruitspy_admission_rejections_total"
        (("service", "natneg") ∷ ("reason", decision_value decision) ∷ []))
      s

-- datagram_received(data, addr)
unfoldable pub datagram_received : (ℕ → ℕ) → Bytes → Address → NatNeg → NatNeg
datagram_received clock packet (host, port) s =
    let (decision, admission) = UdpAdmission.allow clock host s.udp_admission in
    receive_decided clock packet (host, port) decision (record s { udp_admission = admission })

-- connection_made(transport)
unfoldable pub connection_made : NatNeg → NatNeg
connection_made s = record s { connected = true }

-- connection_lost(exc): every timer is cancelled and every relay closed
unfoldable pub connection_lost : NatNeg → NatNeg
connection_lost s =
    record (finish_all (keys s.relays) (record s { fallbacks = []; relay_expirations = [] })) {
      connected = false;
    }
