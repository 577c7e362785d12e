-- ===== src/NatNeg/Handle.antt =====
-- `handle_datagram`: the negotiation packets, one function for each type. The clock's sites: 0 to 4
-- in `claim_nat_peer`, 5 a refreshed relay, 6 the pairing, 7 the loop's clock of the fallback, 8 and
-- 9 in `_record_report`.
pub mod Amplification
use fruitspy.Prelude.{
  Text, Bytes, ℕ, ◌+◌, ◌-◌, Bool, true, false, ◌&&◌, ◌||◌, not, Option, none, some, List, [], ◌∷◌,
  ◌++◌, ltb, leb, if◌then◌else◌, ◌==◌, nat_eq, Result, ok, err, value_error, os_error, key_error,
  session_full, index_claimed, endpoint_claimed, ◌>>=◌, or_raise, length, get_or, slice, replicate,
  set,
}
use fruitspy.Inet.{inet_aton, pack_u16_be}
use fruitspy.Dict.{Dict, get, put, contains}
use fruitspy.Metrics.{increment}
use fruitspy.State.{Address, address_eq, bytes_eq, NatSession, NatPeer, ServerState}
use fruitspy.State.Sessions.{Claim, session_created, claim_nat_peer}
use fruitspy.Drain.{is_draining}
use fruitspy.NatNeg.{NatNeg, RelaySession, RelayEndpoint, count_metric, store_session, store_relay}
use fruitspy.NatNeg.Packet.{
  has_magic, with_type, splice, connect_packet, bounded_responses, nn_init, nn_init_ack,
  nn_ert_test, nn_connect_ack, nn_address_check, nn_address_reply, nn_natify_request, nn_report,
  nn_report_ack, nn_preinit, nn_preinit_ack,
}
use fruitspy.NatNeg.Activate.{schedule_fallback}
use fruitspy.NatNeg.Report.{record_report}

-- the packets to send, with where each goes
abbrev pub Responses : Type 0
Responses = List (Bytes × Address)

-- a method that may raise, and changes the service also when it does
abbrev pub Outcome : Type 0
Outcome = Result Responses × NatNeg

-- return self._bounded_responses(...)
unfoldable pub respond : Bytes → Responses → NatNeg → Outcome
respond packet responses s =
    let (allowed, next) = bounded_responses packet responses s in (ok allowed, next)

-- an INIT while the session has a relay: only the bound endpoint of the index is answered
unfoldable pub init_relayed :
    ℕ → Bytes → Address → Bytes → RelaySession → Option RelayEndpoint → NatNeg → Outcome
init_relayed now packet addr cookie relay none s = (ok [], s)
init_relayed now packet addr cookie relay (some endpoint) s =
    if endpoint.address == addr
    then respond packet ((with_type packet nn_init_ack, addr) ∷ [])
        (store_relay cookie (record relay { last_seen = now }) s)
    else (ok [], s)

-- the CONNECT packets, for the peers in order; 1 - index is the other index
unfoldable pub connect_responses : Bytes → Dict ℕ NatPeer → Dict ℕ NatPeer → Result Responses
connect_responses cookie peers [] = ok []
connect_responses cookie peers ((index, peer) ∷ rest) = do
  other ← or_raise key_error (get (1 - index) peers)
  connect ← connect_packet peer.version cookie other.address
  others ← connect_responses cookie peers rest
  ok ((connect, peer.address) ∷ others)

unfoldable pub is_unpaired : NatSession → Bool
is_unpaired session = elim session.paired_at [ none ↦ true | some _ ↦ false ]

-- if session.paired_at is None: the pairing is noted
unfoldable pub note_pairing : ℕ → Bytes → NatSession → NatNeg → NatNeg
unfolding is_unpaired
note_pairing now cookie session s =
    if is_unpaired session
    then count_metric (increment "fruitspy_natneg_session_events_total" (("event", "paired") ∷ []))
        (store_session cookie (record session { paired_at = some now }) s)
    else s

-- the answer to an accepted claim of a session with both peers
unfoldable pub init_paired :
    (ℕ → ℕ) → Bytes → Address → Bytes → NatSession → Result Responses → NatNeg → Outcome
init_paired clock packet addr cookie session (err e) s = (err e, s)
init_paired clock packet addr cookie session (ok connects) s =
    let noted = note_pairing (clock 6) cookie session s in
    let (allowed, next) =
      bounded_responses packet ((with_type packet nn_init_ack, addr) ∷ connects) noted in
    (
      ok allowed,
      if is_unpaired session && not (length allowed == 0)
          then schedule_fallback (clock 7) cookie next
          else next,
    )

unfoldable pub init_claimed : (ℕ → ℕ) → Bytes → Address → Bytes → NatSession → NatNeg → Outcome
unfolding init_paired
init_claimed clock packet addr cookie session s =
    if contains 0 session.peers && contains 1 session.peers
    then init_paired clock packet addr cookie session
        (connect_responses cookie session.peers session.peers) s
    else respond packet ((with_type packet nn_init_ack, addr) ∷ []) s

unfoldable pub is_created : Claim → Bool
is_created session_created = true
is_created _ = false

-- the claim's result: a rejected claim is not answered, the ValueError of a full table is raised
unfoldable pub init_result :
    (ℕ → ℕ) → Bytes → Address → Bytes → Result (NatSession × Claim) → NatNeg → Outcome
unfolding is_created
init_result clock packet addr cookie (ok (session, event)) s =
    init_claimed clock packet addr cookie session (
      if is_created event
      then count_metric
          (increment "fruitspy_natneg_session_events_total" (("event", "created") ∷ [])) s
      else s)
init_result clock packet addr cookie (err session_full) s = (ok [], s)
init_result clock packet addr cookie (err index_claimed) s = (ok [], s)
init_result clock packet addr cookie (err endpoint_claimed) s = (ok [], s)
init_result clock packet addr cookie (err e) s = (err e, s)

unfoldable pub init_relay_or_claim :
    (ℕ → ℕ) → Bytes → Address → Bytes → ℕ → Option RelaySession → NatNeg → Outcome
init_relay_or_claim clock packet addr cookie client_index (some relay) s =
    init_relayed (clock 5) packet addr cookie relay (get client_index relay.endpoints) s
init_relay_or_claim clock packet addr cookie client_index none s =
    let (claimed, state) =
      claim_nat_peer clock cookie client_index addr (get_or packet 6 0) s.state in
    init_result clock packet addr cookie claimed (record s { state = state })

unfoldable pub is_peer_index : ℕ → Bool
is_peer_index i = i == 0 || i == 1

-- packet_type == NN_INIT
unfoldable pub handle_init : (ℕ → ℕ) → Bytes → Address → Bytes → NatNeg → Outcome
unfolding is_peer_index
handle_init clock packet addr cookie s =
    let client_index = get_or packet 13 0 in
    if ltb (length packet) 21
    then (err value_error, s)
    else if not (is_peer_index client_index)
    then (err value_error, s)
    else init_relay_or_claim clock packet addr cookie client_index (get cookie s.relays) s

-- packet_type == NN_ADDRESS_CHECK: the sender's address, in a reply of at least 21 bytes
unfoldable pub address_reply : Bytes → Address → Result Bytes
address_reply packet (host, port) = do
  let typed = with_type packet nn_address_reply
  let reply = typed ++ replicate (21 - length typed) 0
  quad ← or_raise os_error (inet_aton host)
  ok (splice (splice reply 15 quad) 19 (pack_u16_be port))

unfoldable pub respond_built : Bytes → Address → Result Bytes → NatNeg → Outcome
respond_built packet addr (ok reply) s = respond packet ((reply, addr) ∷ []) s
respond_built packet addr (err e) s = (err e, s)

unfoldable pub handle_address_check : Bytes → Address → NatNeg → Outcome
unfolding respond_built
handle_address_check packet addr s = respond_built packet addr (address_reply packet addr) s

-- packet_type == NN_REPORT
unfoldable pub handle_report : (ℕ → ℕ) → Bytes → Address → Bytes → NatNeg → Outcome
unfolding is_peer_index
handle_report clock packet addr cookie s =
    let client_index = get_or packet 13 0 in
    let result = get_or packet 14 0 in
    if ltb (length packet) 23
    then (err value_error, s)
    else if not (is_peer_index client_index)
    then (err value_error, s)
    else if not (is_peer_index result)
    then (err value_error, s)
    else respond packet ((with_type packet nn_report_ack, addr) ∷ [])
        (record_report (λ k. clock (8 + k)) cookie client_index (result == 1) addr s)

-- packet_type == NN_PREINIT
unfoldable pub preinit_reply : Bytes → Bytes
preinit_reply packet =
    let reply = with_type packet nn_preinit_ack in
    if ltb 13 (length reply) then set reply 13 2 else reply

-- the branches on the packet's type, after the test of draining
unfoldable pub dispatch : (ℕ → ℕ) → Bytes → Address → ℕ → Bytes → NatNeg → Outcome
dispatch clock packet addr packet_type cookie s =
    if packet_type == nn_init
    then handle_init clock packet addr cookie s
    else if packet_type == nn_address_check
    then handle_address_check packet addr s
    else if packet_type == nn_natify_request
    then respond packet ((with_type packet nn_ert_test, addr) ∷ []) s
    else if packet_type == nn_report
    then handle_report clock packet addr cookie s
    else if packet_type == nn_preinit
    then respond packet ((preinit_reply packet, addr) ∷ []) s
    else (ok [], s)

-- handle_datagram(data, addr)
unfoldable pub handle_datagram : (ℕ → ℕ) → Bytes → Address → NatNeg → Outcome
handle_datagram clock packet addr s =
    let packet_type = get_or packet 7 0 in
    let cookie = slice packet 8 12 in
    if ltb s.config.natneg_packet_bytes (length packet)
    then (err value_error, s)
    else if ltb (length packet) 12 || not (has_magic packet)
    then (err value_error, s)
    else if is_draining s.drain
        && packet_type == nn_init
        && not (contains cookie s.state.nat_sessions)
    then (
      ok [],
      count_metric
          (increment "fruitspy_protocol_rejections_total"
            (("service", "natneg") ∷ ("reason", "draining") ∷ []))
          s,
    )
    else dispatch clock packet addr packet_type cookie s
