-- ===== src/NatNeg/Handle/Amplification.antt =====
-- The service never answers with more than three times the bytes of the datagram it answers.
use fruitspy.Prelude.{
  Bytes, ℕ, ◌*◌, ◌≤◌, ◌≡◌, Bool, true, false, ◌&&◌, ◌||◌, not, Option, none, some, [], ltb,
  if◌then◌else◌, ◌==◌, nat_eq, Result, ok, err, session_full, index_claimed, endpoint_claimed,
  length, get_or, slice, Bool-cases, inl, inr, arith,
}
use fruitspy.Dict.{contains}
use fruitspy.State.{Address, address_eq, bytes_eq, NatSession}
use fruitspy.State.Sessions.{Claim}
use fruitspy.UdpAdmission.{within_amplification_limit}
use fruitspy.Drain.{is_draining}
use fruitspy.NatNeg.{NatNeg, RelaySession, RelayEndpoint}
use fruitspy.NatNeg.Packet.{
  has_magic, total_bytes, bounded_responses, amplification_limit, nn_init, nn_address_check,
  nn_natify_request, nn_report, nn_preinit,
}
use fruitspy.NatNeg.Handle.{
  Responses, Outcome, respond, init_relayed, connect_responses, init_paired, init_claimed,
  init_result, init_relay_or_claim, handle_init, address_reply, respond_built, handle_address_check,
  handle_report, dispatch, handle_datagram, is_peer_index,
}

-- The answers of an outcome, if there are any, keep to the limit.
abbrev pub IsWithin : Bytes → Result Responses → Type 0
IsWithin packet (ok responses) = total_bytes responses ≤ length packet * 3
IsWithin packet (err e) = Unit

IsWithin-none : (packet : Bytes) → IsWithin packet (ok [])
unfolding total_bytes
IsWithin-none packet = omega arith

within_limit :
    (request response : ℕ)
    → within_amplification_limit request response amplification_limit 1 ≡ true
    → response ≤ request * 3
unfolding within_amplification_limit
within_limit request response h = ground arith

bounded_responses_lem :
    (packet : Bytes) (responses : Responses) (s : NatNeg)
    → IsWithin packet (ok (bounded_responses packet responses s).0)
unfolding bounded_responses
bounded_responses_lem packet responses s =
    elim (Bool-cases
      (within_amplification_limit (length packet) (total_bytes responses) amplification_limit 1)) [
        | inl fits ↦ rw fits (within_limit _ _ fits)
        | inr over ↦ rw over (IsWithin-none packet)
      ]

module _ (packet : Bytes) (addr : Address) where
  respond-IsWithin :
      (responses : Responses) (s : NatNeg) → IsWithin packet (respond packet responses s).0
  unfolding respond
  respond-IsWithin responses s = bounded_responses_lem packet responses s

  init_relayed-IsWithin :
      (now : ℕ) (cookie : Bytes) (relay : RelaySession) (o : Option RelayEndpoint) (s : NatNeg)
      → IsWithin packet (init_relayed now packet addr cookie relay o s).0
  unfolding init_relayed
  init_relayed-IsWithin now cookie relay none s = IsWithin-none packet
  init_relayed-IsWithin now cookie relay (some endpoint) s =
      elim (Bool-cases (endpoint.address == addr)) [
        | inl same ↦ rw same (respond-IsWithin _ _)
        | inr other ↦ rw other (IsWithin-none packet)
      ]

  module _ (clock : ℕ → ℕ) (cookie : Bytes) where
    init_claimed-IsWithin :
        (session : NatSession) (s : NatNeg)
        → IsWithin packet (init_claimed clock packet addr cookie session s).0
    unfolding init_claimed init_paired
    init_claimed-IsWithin session s =
        elim (Bool-cases (contains 0 session.peers && contains 1 session.peers)) [
          | inl both ↦ rw both (paired (connect_responses cookie session.peers session.peers))
          | inr one ↦ rw one (respond-IsWithin _ s)
        ]
      where
        paired :
            (r : Result Responses)
            → IsWithin packet (init_paired clock packet addr cookie session r s).0
        paired (ok connects) = bounded_responses_lem packet _ _
        paired (err e) = tt

    init_result-IsWithin :
        (r : Result (NatSession × Claim)) (s : NatNeg)
        → IsWithin packet (init_result clock packet addr cookie r s).0
    unfolding init_result
    init_result-IsWithin (ok (session, event)) s = init_claimed-IsWithin session _
    init_result-IsWithin (err session_full) s = IsWithin-none packet
    init_result-IsWithin (err index_claimed) s = IsWithin-none packet
    init_result-IsWithin (err endpoint_claimed) s = IsWithin-none packet
    init_result-IsWithin (err e) s = tt

    init_relay_or_claim-IsWithin :
        (client_index : ℕ) (o : Option RelaySession) (s : NatNeg)
        → IsWithin packet (init_relay_or_claim clock packet addr cookie client_index o s).0
    unfolding init_relay_or_claim
    init_relay_or_claim-IsWithin client_index (some relay) s =
        init_relayed-IsWithin (clock 5) cookie relay _ s
    init_relay_or_claim-IsWithin client_index none s = init_result-IsWithin _ _

    handle_init-IsWithin : (s : NatNeg) → IsWithin packet (handle_init clock packet addr cookie s).0
    unfolding handle_init
    handle_init-IsWithin s = elim (Bool-cases (ltb (length packet) 21)) [
      | inl short ↦ rw short tt
      | inr long ↦ rw long (elim (Bool-cases (is_peer_index (get_or packet 13 0))) [
        | inl good ↦ rw good (init_relay_or_claim-IsWithin _ _ s)
        | inr bad ↦ rw bad tt
      ])
    ]

    handle_report-IsWithin :
        (s : NatNeg) → IsWithin packet (handle_report clock packet addr cookie s).0
    unfolding handle_report
    handle_report-IsWithin s = elim (Bool-cases (ltb (length packet) 23)) [
      | inl short ↦ rw short tt
      | inr long ↦ rw long (elim (Bool-cases (is_peer_index (get_or packet 13 0))) [
        | inl good ↦ rw good (elim (Bool-cases (is_peer_index (get_or packet 14 0))) [
          | inl fine ↦ rw fine (respond-IsWithin _ _)
          | inr odd ↦ rw odd tt
        ])
        | inr bad ↦ rw bad tt
      ])
    ]

    respond_built-IsWithin :
        (r : Result Bytes) (s : NatNeg) → IsWithin packet (respond_built packet addr r s).0
    unfolding respond_built
    respond_built-IsWithin (ok reply) s = respond-IsWithin _ s
    respond_built-IsWithin (err e) s = tt

    handle_address_check-IsWithin :
        (s : NatNeg) → IsWithin packet (handle_address_check packet addr s).0
    unfolding handle_address_check
    handle_address_check-IsWithin s = respond_built-IsWithin (address_reply packet addr) s

    -- A choice between outcomes that keep to the limit.
    if-IsWithin :
        (b : Bool) (x y : Outcome)
        → IsWithin packet x.0
        → IsWithin packet y.0
        → IsWithin packet (if b then x else y).0
    if-IsWithin true x y hx hy = hx
    if-IsWithin false x y hx hy = hy

    dispatch-IsWithin :
        (packet_type : ℕ) (s : NatNeg)
        → IsWithin packet (dispatch clock packet addr packet_type cookie s).0
    unfolding dispatch
    dispatch-IsWithin packet_type s =
        if-IsWithin (packet_type == nn_init) _ _ (handle_init-IsWithin s) (
          if-IsWithin (packet_type == nn_address_check) _ _ (handle_address_check-IsWithin s) (
            if-IsWithin (packet_type == nn_natify_request) _ _ (respond-IsWithin _ s) (
              if-IsWithin (packet_type == nn_report) _ _ (handle_report-IsWithin s) (
                if-IsWithin (packet_type == nn_preinit) _ _ (respond-IsWithin _ s)
                  (IsWithin-none packet)))))

-- Whatever the state of the service, the datagram, its sender and the readings of the clock: if
-- `handle_datagram` returns, the packets that it returns have together at most three times as many
-- bytes as the datagram.
pub handle_datagram-IsWithin :
    (clock : ℕ → ℕ) (packet : Bytes) (addr : Address) (s : NatNeg)
    → IsWithin packet (handle_datagram clock packet addr s).0
unfolding handle_datagram
handle_datagram-IsWithin clock packet addr s =
    elim (Bool-cases (ltb s.config.natneg_packet_bytes (length packet))) [
      | inl long ↦ rw long tt
      | inr fits ↦ rw fits (elim (Bool-cases (ltb (length packet) 12 || not (has_magic packet))) [
        | inl bad ↦ rw bad tt
        | inr good ↦ rw good (
            if-IsWithin packet addr clock (slice packet 8 12)
              (is_draining s.drain
                && get_or packet 7 0 == nn_init
                && not (contains (slice packet 8 12) s.state.nat_sessions))
              _ _ (IsWithin-none packet)
              (dispatch-IsWithin packet addr clock (slice packet 8 12) (get_or packet 7 0) s))
      ])
    ]
