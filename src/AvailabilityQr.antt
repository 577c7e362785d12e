-- ===== src/AvailabilityQr.antt =====
-- `AvailabilityQRProtocol` of server/fruitspy/availability_qr.py: availability checks, heartbeats of
-- game servers, their challenges and keepalives. `decode` stands for `bytes.decode("utf-8",
-- "replace")`, and `fresh` for the twenty random characters of a new challenge. The clock's sites: 0
-- to 2 in `report_server`, 3 in `register_server`, 4 and above in `UdpAdmission.allow`.
pub mod Keys
pub mod Amplification
use fruitspy.Prelude.{
  Text, Bytes, ℕ, zero, suc, ◌+◌, Bool, true, false, ◌&&◌, ◌||◌, not, Option, none, some, List, [],
  ◌∷◌, ◌++◌, String, text, length, get_or, slice, take, drop, ltb, leb, if◌then◌else◌, ◌==◌, nat_eq,
  list_eq, Result, ok, err, value_error, or_raise, ◌>>=◌,
}
use fruitspy.Dict.{Dict, get, put}
use fruitspy.Metrics.{MetricCall, increment, record_call}
use fruitspy.State.{Address, address_eq, bytes_eq, ServerState, ReportedServer}
use fruitspy.State.Servers.{report_server, register_server, remove_server, is_accepted_game}
use fruitspy.UdpAdmission
use fruitspy.UdpAdmission.{UdpAdmission, UdpAdmissionDecision, allowed, within_amplification_limit}
use fruitspy.Drain.{DrainController, is_draining}
use fruitspy.Crypto.SecKey.{gsseckey}
use fruitspy.NatNeg.Receive.{decision_value}
use fruitspy.AvailabilityQr.Keys.{read_cstring, parse_qr_server_keys}

abbrev pub qr_magic : Bytes
qr_magic = 0xfe ∷ 0xfd ∷ []

abbrev pub packet_challenge : ℕ
packet_challenge = 0x01

abbrev pub packet_heartbeat : ℕ
packet_heartbeat = 0x03

abbrev pub packet_keepalive : ℕ
packet_keepalive = 0x08

abbrev pub packet_available : ℕ
packet_available = 0x09

abbrev pub packet_client_registered : ℕ
packet_client_registered = 0x0a

abbrev pub qr_amplification_numerator : ℕ
qr_amplification_numerator = 2

abbrev pub qr_amplification_denominator : ℕ
qr_amplification_denominator = 1

-- the settings that the service reads, and its parts; `connected` is `transport is not None`
pub record AvailabilityQr : Type 0 where
  pub qr_packet_bytes : ℕ
  pub game_name : Text
  pub secret_key : Text
  pub state : ServerState
  pub udp_admission : UdpAdmission
  pub drain : DrainController
  pub connected : Bool
  pub sent : List (Bytes × Address)

-- what a handler gives, with the service after it
abbrev pub Outcome : Type 0
Outcome = Result (Option Bytes) × AvailabilityQr

unfoldable pub count_metric : MetricCall → AvailabilityQr → AvailabilityQr
count_metric c s = record s { state = record s.state { metrics = record_call c s.state.metrics } }

unfoldable pub count_event : String → AvailabilityQr → AvailabilityQr
count_event event = count_metric (increment "fruitspy_qr_events_total" (("event", event) ∷ []))

unfoldable pub count_rejection : String → AvailabilityQr → AvailabilityQr
count_rejection reason =
    count_metric
      (increment "fruitspy_protocol_rejections_total" (("service", "qr") ∷ ("reason", reason) ∷ []))

-- availability_response(status), for a status of one byte
unfoldable pub availability_response : ℕ → Bytes
availability_response status =
    qr_magic ++ packet_available ∷ 0 ∷ 0 ∷ 0 ∷ 0 ∷ 0 ∷ 0 ∷ 0 ∷ status ∷ []

-- _bounded_response(request, response, addr)
unfoldable pub bounded_response : Bytes → Option Bytes → AvailabilityQr → Outcome
bounded_response request none s = (ok none, s)
bounded_response request (some response) s =
    if within_amplification_limit (length request) (length response) qr_amplification_numerator
      qr_amplification_denominator
    then (ok (some response), s)
    else (ok none, count_rejection "amplification" s)

-- return self._bounded_response(data, <a handler's result>, addr), which may raise before
unfoldable pub bound_outcome : Bytes → Outcome → Outcome
bound_outcome request (err e, s) = (err e, s)
bound_outcome request (ok response, s) = bounded_response request response s

-- packet_type == PACKET_AVAILABLE, with the game's name read
unfoldable pub answer_availability : Bytes → Result (Text × ℕ) → AvailabilityQr → Outcome
answer_availability packet (err e) s = (err e, s)
answer_availability packet (ok (name, next)) s =
    if is_draining s.drain
    then bounded_response packet (some (availability_response 1))
        (count_event "availability_rejected" (count_rejection "draining" s))
    else if name == s.game_name
    then bounded_response packet (some (availability_response 0))
        (count_event "availability_accepted" s)
    else bounded_response packet (some (availability_response 1))
        (count_event "availability_rejected" s)

-- the end of `_heartbeat`, for a server that was reported: an unregistered one gets a challenge
unfoldable pub issue_challenge :
    Text → Bytes → Address → Result ReportedServer × ServerState → AvailabilityQr → Outcome
issue_challenge fresh instance_key addr (err e, state) s = (err e, record s { state = state })
issue_challenge fresh instance_key addr (ok server, state) s =
    if server.registered then (ok none, record s { state = state }) else (
      ok (some (qr_magic ++ packet_challenge ∷ instance_key ++ fresh ++ 0 ∷ [])),
      count_event "challenge_issued" (record s {
        state = record state {
          reported_servers = put addr (record server { challenge = fresh }) state.reported_servers;
        };
      }),
    )

is_removed : Dict Text Text → Bool
is_removed keys = elim (get (text "statechanged") keys) [ none ↦ false | some v ↦ v == text "2" ]

-- `_heartbeat` with the keys read
unfoldable pub heartbeat_keys :
    (ℕ → ℕ) → Text → Bytes → Address → Result (Dict Text Text) → AvailabilityQr → Outcome
unfolding is_removed
heartbeat_keys clock fresh instance_key addr (err e) s = (err e, s)
heartbeat_keys clock fresh instance_key addr (ok keys) s =
    if is_removed keys
    then (ok none, count_event "removed" (record s { state = remove_server addr s.state }))
    else if not (is_accepted_game s.game_name (get (text "gamename") keys))
    then (ok none, count_event "game_rejected" s)
    else issue_challenge fresh instance_key addr
        (report_server clock addr instance_key keys s.state) s

-- _heartbeat(data, addr)
unfoldable pub heartbeat :
    (Bytes → Text) → (ℕ → ℕ) → Text → Bytes → Address → AvailabilityQr → Outcome
heartbeat decode clock fresh packet addr s =
    if ltb (length packet) 7
    then (err value_error, s)
    else heartbeat_keys clock fresh (slice packet 1 5) addr (parse_qr_server_keys decode packet 5) s

-- `_challenge_response` with the proof read and the expected one computed
unfoldable pub check_proof : ℕ → Address → ReportedServer → Text → Text → AvailabilityQr → Outcome
check_proof now addr server response expected s =
    if not (response == expected)
    then (ok none, count_event "proof_rejected" s)
    else (let registered = record s { state = (register_server now addr s.state).1 } in
        (
          ok (some (qr_magic ++ packet_client_registered ∷ server.instance_key)),
          if server.registered then registered else count_event "registered" registered,
        ))

unfoldable pub check_result :
    ℕ → Address → ReportedServer → Result (Text × ℕ) → Result Text → AvailabilityQr → Outcome
check_result now addr server (err e) expected s = (err e, s)
check_result now addr server (ok response) (err e) s = (err e, s)
check_result now addr server (ok (response, next)) (ok expected) s =
    check_proof now addr server response expected s

unfoldable pub check_server :
    (Bytes → Text) → ℕ → Bytes → Address → Option ReportedServer → AvailabilityQr → Outcome
check_server decode now packet addr none s = (ok none, s)
check_server decode now packet addr (some server) s =
    if length server.challenge == 0
    then (ok none, s)
    else check_result now addr server (read_cstring decode packet 5)
        (gsseckey server.challenge s.secret_key 0) s

-- _challenge_response(data, addr)
unfoldable pub challenge_response : (Bytes → Text) → ℕ → Bytes → Address → AvailabilityQr → Outcome
challenge_response decode now packet addr s =
    if ltb (length packet) 6
    then (err value_error, s)
    else check_server decode now packet addr (get addr s.state.reported_servers) s

is_drained_type : ℕ → Bool
is_drained_type t = t == packet_heartbeat || t == packet_challenge || t == packet_keepalive

-- the branches of `handle_datagram` on the packet's type
unfoldable pub dispatch :
    (Bytes → Text) → (ℕ → ℕ) → Text → Bytes → Address → ℕ → AvailabilityQr → Outcome
unfolding is_drained_type
dispatch decode clock fresh packet addr packet_type s =
    if packet_type == packet_available
    then (if ltb (length packet) 6
        then (err value_error, s)
        else answer_availability packet (read_cstring decode packet 5) s)
    else if is_draining s.drain && is_drained_type packet_type
    then (ok none, count_rejection "draining" s)
    else if packet_type == packet_heartbeat
    then bound_outcome packet (heartbeat decode clock fresh packet addr s)
    else if packet_type == packet_challenge
    then bound_outcome packet (challenge_response decode (clock 3) packet addr s)
    else if packet_type == packet_keepalive
    then (if ltb (length packet) 5
        then (err value_error, s)
        else bounded_response packet (some (qr_magic ++ packet_keepalive ∷ slice packet 1 5)) s)
    else (ok none, s)

-- handle_datagram(data, addr)
unfoldable pub handle_datagram :
    (Bytes → Text) → (ℕ → ℕ) → Text → Bytes → Address → AvailabilityQr → Outcome
handle_datagram decode clock fresh packet addr s =
    if ltb s.qr_packet_bytes (length packet)
    then (err value_error, s)
    else if ltb (length packet) 1
    then (err value_error, s)
    else dispatch decode clock fresh packet addr (get_or packet 0 0) s

-- the rest of `datagram_received`: a ValueError is counted, a response is sent
unfoldable pub deliver : Address → Outcome → AvailabilityQr
deliver addr (ok none, s) = s
deliver addr (ok (some response), s) =
    if s.connected then record s { sent = s.sent ++ (response, addr) ∷ [] } else s
deliver addr (err value_error, s) = count_rejection "malformed" s
deliver addr (err _, s) = s

unfoldable pub receive_decided :
    (Bytes → Text)
    → (ℕ → ℕ)
    → Text
    → Bytes
    → Address
    → UdpAdmissionDecision
    → AvailabilityQr
    → AvailabilityQr
receive_decided decode clock fresh packet addr allowed s =
    deliver addr (handle_datagram decode clock fresh packet addr s)
receive_decided decode clock fresh packet addr decision s =
    count_metric
      (increment "fruitspy_admission_rejections_total"
        (("service", "qr") ∷ ("reason", decision_value decision) ∷ []))
      s

-- datagram_received(data, addr)
unfoldable pub datagram_received :
    (Bytes → Text) → (ℕ → ℕ) → Text → Bytes → Address → AvailabilityQr → AvailabilityQr
datagram_received decode clock fresh packet (host, port) s =
    let (decision, admission) = UdpAdmission.allow (λ k. clock (4 + k)) host s.udp_admission in
    receive_decided decode clock fresh packet (host, port) decision
      (record s { udp_admission = admission })
