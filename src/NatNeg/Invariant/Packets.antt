-- ===== src/NatNeg/Invariant/Packets.antt =====
-- A negotiation packet of any type leaves the service sound, also where its handler raises.
use fruitspy.Prelude.{
  Bytes, ℕ, ◌≡◌, refl, Bool, true, false, ◌&&◌, ◌||◌, not, Option, none, some, [], ◌∷◌, if-elim,
  ◌==◌, if◌then◌else◌, length, ltb, get_or, slice, Result, ok, err, value_error, os_error,
  key_error, struct_error, index_error, session_full, index_claimed, endpoint_claimed, nat_eq,
}
use fruitspy.Dict.{get, contains}
use fruitspy.Metrics.{MetricCall, increment}
use fruitspy.State.{Address, address_eq, bytes_eq, NatSession}
use fruitspy.State.Sessions.{Claim, claim_nat_peer}
use fruitspy.State.Sessions.Invariant.{claim-HasSessions}
use fruitspy.State.Sessions.Stored.{Stored, claim_nat_peer-Stored}
use fruitspy.UdpAdmission.{within_amplification_limit}
use fruitspy.Drain.{is_draining}
use fruitspy.NatNeg.{NatNeg, RelaySession, RelayEndpoint, count_metric}
use fruitspy.NatNeg.Packet.{
  has_magic, with_type, bounded_responses, total_bytes, amplification_limit, nn_init, nn_init_ack,
  nn_address_check, nn_natify_request, nn_report, nn_preinit,
}
use fruitspy.NatNeg.Activate.{schedule_fallback, is_auto}
use fruitspy.NatNeg.Relay.Links.{SameEnds-refl}
use fruitspy.NatNeg.Relay.Finish.{SameRelays-HasRelays}
use fruitspy.NatNeg.Handle.{
  Responses, Outcome, respond, init_relayed, is_unpaired, note_pairing, init_paired, init_claimed,
  init_result, is_created, init_relay_or_claim, is_peer_index, handle_init, address_reply,
  respond_built, handle_address_check, handle_report, dispatch, handle_datagram,
}
use fruitspy.NatNeg.Invariant.{
  IsSound, count_metric-IsSound, store_session-IsSound, store_relay-IsSound, same-IsSound,
}
use fruitspy.NatNeg.Invariant.Reports.{record_report-IsSound}

-- The service that a handler leaves is sound.
abbrev pub Keeps : Outcome → Type 0
Keeps o = IsSound o.1

bounded-IsSound :
    (packet : Bytes) (responses : Responses) (s : NatNeg)
    → IsSound s
    → IsSound (bounded_responses packet responses s).1
unfolding bounded_responses
bounded-IsSound packet responses s h =
    if-elim (λ (o : Responses × NatNeg). IsSound o.1)
      (within_amplification_limit (length packet) (total_bytes responses) amplification_limit 1)
      (λ small. h) (λ large. count_metric-IsSound _ s h)

respond-Keeps :
    (packet : Bytes) (responses : Responses) (s : NatNeg)
    → IsSound s
    → Keeps (respond packet responses s)
unfolding respond
respond-Keeps packet responses s h = bounded-IsSound packet responses s h

schedule_fallback-IsSound :
    (now : ℕ) (c : Bytes) (s : NatNeg) → IsSound s → IsSound (schedule_fallback now c s)
unfolding schedule_fallback
schedule_fallback-IsSound now c s h =
    if-elim IsSound (not (is_auto s.config.policy) || not s.connected || contains c s.fallbacks)
      (λ idle. h)
      (λ set.
        same-IsSound s _ (record { sessions = refl; limit = refl })
          (record { relays = refl; bindings = refl; config = refl; flag = refl }) h)

relayed-Keeps :
    (now : ℕ) (packet : Bytes) (addr : Address) (c : Bytes) (r : RelaySession)
    (o : Option RelayEndpoint) (s : NatNeg)
    → get c s.relays ≡ some r
    → IsSound s
    → Keeps (init_relayed now packet addr c r o s)
unfolding init_relayed
relayed-Keeps now packet addr c r none s g h = h
relayed-Keeps now packet addr c r (some e) s g h =
    if-elim Keeps (e.address == addr)
      (λ same.
        respond-Keeps packet _ _
          (store_relay-IsSound c r (record r { last_seen = now }) s g (SameEnds-refl r _ refl) h))
      (λ other. h)

note_pairing-IsSound :
    (now : ℕ) (c : Bytes) (session : NatSession) (s : NatNeg)
    → get c s.state.nat_sessions ≡ some session
    → IsSound s
    → IsSound (note_pairing now c session s)
unfolding note_pairing
note_pairing-IsSound now c session s g h =
    if-elim IsSound (is_unpaired session)
      (λ first.
        count_metric-IsSound _ _ (
          store_session-IsSound c session (record session { paired_at = some now }) s g refl refl
            h))
      (λ again. h)

paired-Keeps :
    (clock : ℕ → ℕ) (packet : Bytes) (addr : Address) (c : Bytes) (session : NatSession)
    (o : Result Responses) (s : NatNeg)
    → get c s.state.nat_sessions ≡ some session
    → IsSound s
    → Keeps (init_paired clock packet addr c session o s)
unfolding init_paired
paired-Keeps clock packet addr c session (err e) s g h = h
paired-Keeps clock packet addr c session (ok connects) s g h =
    let noted = note_pairing (clock 6) c session s in
    let bounded =
      bounded_responses packet ((with_type packet nn_init_ack, addr) ∷ connects) noted in
    let kept = bounded-IsSound packet _ noted (note_pairing-IsSound (clock 6) c session s g h) in
    if-elim IsSound (is_unpaired session && not (length bounded.0 == 0))
      (λ first. schedule_fallback-IsSound (clock 7) c bounded.1 kept) (λ again. kept)

claimed-Keeps :
    (clock : ℕ → ℕ) (packet : Bytes) (addr : Address) (c : Bytes) (session : NatSession)
    (s : NatNeg)
    → get c s.state.nat_sessions ≡ some session
    → IsSound s
    → Keeps (init_claimed clock packet addr c session s)
unfolding init_claimed
claimed-Keeps clock packet addr c session s g h =
    if-elim Keeps (contains 0 session.peers && contains 1 session.peers)
      (λ both. paired-Keeps clock packet addr c session _ s g h) (λ one. respond-Keeps packet _ s h)

abbrev created_call : MetricCall
created_call = increment "fruitspy_natneg_session_events_total" (("event", "created") ∷ [])

counted-session :
    (b : Bool) (c : Bytes) (session : NatSession) (s : NatNeg)
    → get c s.state.nat_sessions ≡ some session
    → IsSound s
    → IsSound (if b then count_metric created_call s else s)
      × (get c (if b then count_metric created_call s else s).state.nat_sessions ≡ some session)
unfolding count_metric
counted-session true c session s g h = (count_metric-IsSound created_call s h, g)
counted-session false c session s g h = (h, g)

result-Keeps :
    (clock : ℕ → ℕ) (packet : Bytes) (addr : Address) (c : Bytes) (o : Result (NatSession × Claim))
    (s : NatNeg)
    → Stored c (o, s.state)
    → IsSound s
    → Keeps (init_result clock packet addr c o s)
unfolding init_result
result-Keeps clock packet addr c (ok (session, event)) s g h =
    let counted = counted-session (is_created event) c session s g h in
    claimed-Keeps clock packet addr c session _ counted.1 counted.0
result-Keeps clock packet addr c (err session_full) s g h = h
result-Keeps clock packet addr c (err index_claimed) s g h = h
result-Keeps clock packet addr c (err endpoint_claimed) s g h = h
result-Keeps clock packet addr c (err value_error) s g h = h
result-Keeps clock packet addr c (err os_error) s g h = h
result-Keeps clock packet addr c (err key_error) s g h = h
result-Keeps clock packet addr c (err struct_error) s g h = h
result-Keeps clock packet addr c (err index_error) s g h = h

relay_or_claim-Keeps :
    (clock : ℕ → ℕ) (packet : Bytes) (addr : Address) (c : Bytes) (i : ℕ) (o : Option RelaySession)
    (s : NatNeg)
    → get c s.relays ≡ o
    → IsSound s
    → Keeps (init_relay_or_claim clock packet addr c i o s)
unfolding init_relay_or_claim
relay_or_claim-Keeps clock packet addr c i (some r) s g h =
    relayed-Keeps (clock 5) packet addr c r (get i r.endpoints) s g h
relay_or_claim-Keeps clock packet addr c i none s g h =
    let claim = claim_nat_peer clock c i addr (get_or packet 6 0) s.state in
    result-Keeps clock packet addr c claim.0 (record s { state = claim.1 })
      (claim_nat_peer-Stored clock c i addr (get_or packet 6 0) s.state)
      (record {
        sessions = claim-HasSessions clock c i addr (get_or packet 6 0) s.state h.sessions;
        relays =
            SameRelays-HasRelays s _
              (record { relays = refl; bindings = refl; config = refl; flag = refl }) h.relays;
      })

module _ (clock : ℕ → ℕ) (packet : Bytes) (addr : Address) (c : Bytes) (s : NatNeg)
    (h : IsSound s) where
  init-Keeps : Keeps (handle_init clock packet addr c s)
  unfolding handle_init
  init-Keeps =
      if-elim Keeps (ltb (length packet) 21) (λ short. h)
        (λ long.
          if-elim Keeps (not (is_peer_index (get_or packet 13 0))) (λ bad. h)
            (λ good. relay_or_claim-Keeps clock packet addr c (get_or packet 13 0) _ s refl h))

  built-Keeps : (o : Result Bytes) → Keeps (respond_built packet addr o s)
  unfolding respond_built
  built-Keeps (ok reply) = respond-Keeps packet _ s h
  built-Keeps (err e) = h

  check-Keeps : Keeps (handle_address_check packet addr s)
  unfolding handle_address_check
  check-Keeps = built-Keeps (address_reply packet addr)

  report-Keeps : Keeps (handle_report clock packet addr c s)
  unfolding handle_report
  report-Keeps =
      if-elim Keeps (ltb (length packet) 23) (λ short. h)
        (λ long.
          if-elim Keeps (not (is_peer_index (get_or packet 13 0))) (λ bad. h)
            (λ good.
              if-elim Keeps (not (is_peer_index (get_or packet 14 0))) (λ odd. h)
                (λ even. respond-Keeps packet _ _ (record_report-IsSound _ c _ _ addr s h))))

  dispatch-Keeps : (t : ℕ) → Keeps (dispatch clock packet addr t c s)
  unfolding dispatch
  dispatch-Keeps t =
      if-elim Keeps (t == nn_init) (λ _. init-Keeps)
        (λ _.
          if-elim Keeps (t == nn_address_check) (λ _. check-Keeps)
            (λ _.
              if-elim Keeps (t == nn_natify_request) (λ _. respond-Keeps packet _ s h)
                (λ _.
                  if-elim Keeps (t == nn_report) (λ _. report-Keeps)
                    (λ _.
                      if-elim Keeps (t == nn_preinit) (λ _. respond-Keeps packet _ s h) (λ _. h)))))

pub handle_datagram-Keeps :
    (clock : ℕ → ℕ) (packet : Bytes) (addr : Address) (s : NatNeg)
    → IsSound s
    → Keeps (handle_datagram clock packet addr s)
unfolding handle_datagram
handle_datagram-Keeps clock packet addr s h =
    if-elim Keeps (ltb s.config.natneg_packet_bytes (length packet)) (λ long. h)
      (λ fits.
        if-elim Keeps (ltb (length packet) 12 || not (has_magic packet)) (λ bad. h)
          (λ good.
            if-elim Keeps
              (is_draining s.drain
                && get_or packet 7 0 == nn_init
                && not (contains (slice packet 8 12) s.state.nat_sessions))
              (λ draining. count_metric-IsSound _ s h)
              (λ up. dispatch-Keeps clock packet addr (slice packet 8 12) s h (get_or packet 7 0))))
