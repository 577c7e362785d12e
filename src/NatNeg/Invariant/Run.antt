-- ===== src/NatNeg/Invariant/Run.antt =====
-- The service over any sequence of events: datagrams, timers, expiry of the shared state, draining and
-- the transport's life.
use fruitspy.Prelude.{
  Bytes, ℕ, ◌+◌, ◌≡◌, refl, Bool, true, false, some, [], ◌∷◌, if-elim, Result, ok, err, value_error,
  os_error, key_error, struct_error, index_error, session_full, index_claimed, endpoint_claimed,
  sym, subst,
}
use fruitspy.Dict.{get, keys}
use fruitspy.State
use fruitspy.State.{Address, ServerState, bytes_eq}
use fruitspy.State.Expiry.{expire}
use fruitspy.State.Sessions.Invariant.{expire-HasSessions, create-HasSessions}
use fruitspy.UdpAdmission
use fruitspy.UdpAdmission.{
  UdpAdmission, UdpAdmissionDecision, allowed, global_rate_limit, source_rate_limit,
  source_ban_started, source_banned, source_table_full,
}
use fruitspy.Drain.{DrainController}
use fruitspy.NatNeg.{NatNeg, NatNegConfig, create, send}
use fruitspy.NatNeg.Packet.{has_magic}
use fruitspy.NatNeg.Relay.{forward_relay, begin_drain, close_relays, expire_relay_after_idle}
use fruitspy.NatNeg.Relay.Finish.{SameRelays, SameRelays-HasRelays, create-HasRelays}
use fruitspy.NatNeg.Relay.Charge.{Forwarded}
use fruitspy.NatNeg.Relay.Forward.{IsPeer, forward_relay_lem}
use fruitspy.NatNeg.Activate.{activate_relay}
use fruitspy.NatNeg.Handle.{Responses, Outcome}
use fruitspy.NatNeg.Receive.{
  send_all, deliver, receive_packet, receive_allowed, receive_decided, datagram_received,
  connection_made, connection_lost, count_malformed,
}
use fruitspy.NatNeg.Invariant.{
  IsSound, SameSessions, same-IsSound, count_metric-IsSound, send-IsSound,
}
use fruitspy.NatNeg.Invariant.Relays.{
  finish_all-IsSound, expire_relays-IsSound, begin_drain-IsSound, expire_relay_after_idle-IsSound,
  handle_relay_ping-IsSound,
}
use fruitspy.NatNeg.Invariant.Forwarding.{forward_relay-IsSound, activate_relay-IsSound}
use fruitspy.NatNeg.Invariant.Packets.{Keeps, handle_datagram-Keeps}

send_all-IsSound : (responses : Responses) (s : NatNeg) → IsSound s → IsSound (send_all responses s)
unfolding send_all
send_all-IsSound [] s h = h
send_all-IsSound ((r, a) ∷ rest) s h = send_all-IsSound rest (send r a s) (send-IsSound r a s h)

deliver-IsSound : (o : Outcome) → Keeps o → IsSound (deliver o)
unfolding deliver count_malformed
deliver-IsSound (ok responses, s) h =
    if-elim IsSound s.connected (λ up. send_all-IsSound responses s h) (λ down. h)
deliver-IsSound (err value_error, s) h = count_metric-IsSound _ s h
deliver-IsSound (err os_error, s) h = count_metric-IsSound _ s h
deliver-IsSound (err key_error, s) h = h
deliver-IsSound (err struct_error, s) h = h
deliver-IsSound (err index_error, s) h = h
deliver-IsSound (err session_full, s) h = h
deliver-IsSound (err index_claimed, s) h = h
deliver-IsSound (err endpoint_claimed, s) h = h

receive_packet-IsSound :
    (clock : ℕ → ℕ) (packet : Bytes) (addr : Address) (o : Result Bool × NatNeg)
    → IsSound o.1
    → IsSound (receive_packet clock packet addr o)
unfolding receive_packet
receive_packet-IsSound clock packet addr (err e, s) h = h
receive_packet-IsSound clock packet addr (ok true, s) h = h
receive_packet-IsSound clock packet addr (ok false, s) h =
    if-elim IsSound (has_magic packet)
      (λ magic. deliver-IsSound _ (handle_datagram-Keeps (λ k. clock (5 + k)) packet addr s h))
      (λ data_packet. forward_relay-IsSound packet addr (clock 4) s h)

receive_allowed-IsSound :
    (clock : ℕ → ℕ) (packet : Bytes) (addr : Address) (s : NatNeg)
    → IsSound s
    → IsSound (receive_allowed clock packet addr s)
unfolding receive_allowed
receive_allowed-IsSound clock packet addr s h =
    receive_packet-IsSound clock packet addr _ (
      handle_relay_ping-IsSound packet addr (clock 4) _ (expire_relays-IsSound (clock 4) false s h))

receive_decided-IsSound :
    (clock : ℕ → ℕ) (packet : Bytes) (addr : Address) (d : UdpAdmissionDecision) (s : NatNeg)
    → IsSound s
    → IsSound (receive_decided clock packet addr d s)
unfolding receive_decided
receive_decided-IsSound clock packet addr allowed s h =
    receive_allowed-IsSound clock packet addr s h
receive_decided-IsSound clock packet addr global_rate_limit s h = count_metric-IsSound _ s h
receive_decided-IsSound clock packet addr source_rate_limit s h = count_metric-IsSound _ s h
receive_decided-IsSound clock packet addr source_ban_started s h = count_metric-IsSound _ s h
receive_decided-IsSound clock packet addr source_banned s h = count_metric-IsSound _ s h
receive_decided-IsSound clock packet addr source_table_full s h = count_metric-IsSound _ s h

-- A record of the same sessions and relay tables.
untouched : (s t : NatNeg) → SameSessions s t → SameRelays s t → IsSound s → IsSound t
untouched = same-IsSound

datagram_received-IsSound :
    (clock : ℕ → ℕ) (packet : Bytes) (addr : Address) (s : NatNeg)
    → IsSound s
    → IsSound (datagram_received clock packet addr s)
unfolding datagram_received
datagram_received-IsSound clock packet (host, port) s h =
    let admitted = UdpAdmission.allow clock host s.udp_admission in
    let t = record s { udp_admission = admitted.1 } in
    receive_decided-IsSound clock packet (host, port) admitted.0 t
      (same-IsSound s t (record { sessions = refl; limit = refl })
        (record { relays = refl; bindings = refl; config = refl; flag = refl }) h)

connection_lost-IsSound : (s : NatNeg) → IsSound s → IsSound (connection_lost s)
unfolding connection_lost
connection_lost-IsSound s h =
    let t = record s { fallbacks = []; relay_expirations = [] } in
    let h' = finish_all-IsSound (keys s.relays) t (
      same-IsSound s t (record { sessions = refl; limit = refl })
        (record { relays = refl; bindings = refl; config = refl; flag = refl }) h) in
    same-IsSound _ _ (record { sessions = refl; limit = refl })
      (record { relays = refl; bindings = refl; config = refl; flag = refl }) h'

-- One event of the service. A timer fires only where it is set; `server_state` is a change of the
-- shared state by another service, which leaves the sessions alone; `state_expired` is the periodic
-- expiry of the shared state.
pub data Step (s t : NatNeg) : Type 0 where
  datagram :
      (clock : ℕ → ℕ) (packet : Bytes) (addr : Address)
      → t ≡ datagram_received clock packet addr s
      → Step s t
  fallback_due :
      (clock : ℕ → ℕ) (cookie : Bytes) (due : ℕ)
      → get cookie s.fallbacks ≡ some due
      → t ≡ activate_relay clock cookie s
      → Step s t
  idle_due :
      (now loop_now : ℕ) (cookie : Bytes) (due : ℕ)
      → get cookie s.relay_expirations ≡ some due
      → t ≡ expire_relay_after_idle now loop_now cookie s
      → Step s t
  state_expired : (now : ℕ) → t ≡ record s { state = (expire now s.state).1 } → Step s t
  server_state :
      (state : ServerState)
      → state.nat_sessions ≡ s.state.nat_sessions
      → state.max_nat_sessions ≡ s.state.max_nat_sessions
      → t ≡ record s { state = state }
      → Step s t
  drain_requested : (drain : DrainController) → t ≡ record s { drain = drain } → Step s t
  drain_begun : t ≡ (begin_drain s).1 → Step s t
  relays_closed : t ≡ close_relays s → Step s t
  transport_made : t ≡ connection_made s → Step s t
  transport_lost : t ≡ connection_lost s → Step s t

pub data Reaches (s : NatNeg) : NatNeg → Type 0 where
  here : Reaches s s
  next : {t u : NatNeg} → Reaches s t → Step t u → Reaches s u

shift : (t u : NatNeg) → t ≡ u → IsSound u → IsSound t
shift t u e h = subst IsSound (sym e) h

Step-IsSound : (s t : NatNeg) → Step s t → IsSound s → IsSound t
unfolding close_relays connection_made
Step-IsSound s t (datagram clock packet addr e) h =
    shift t _ e (datagram_received-IsSound clock packet addr s h)
Step-IsSound s t (fallback_due clock c due set e) h =
    shift t _ e (activate_relay-IsSound clock c s h)
Step-IsSound s t (idle_due now loop_now c due set e) h =
    shift t _ e (expire_relay_after_idle-IsSound now loop_now c s h)
Step-IsSound s t (state_expired now e) h = shift t _ e (record {
  sessions = expire-HasSessions now s.state h.sessions;
  relays =
      SameRelays-HasRelays s _
        (record { relays = refl; bindings = refl; config = refl; flag = refl }) h.relays;
})
Step-IsSound s t (server_state state same limit e) h = shift t _ e (
    same-IsSound s _ (record { sessions = same; limit = limit })
      (record { relays = refl; bindings = refl; config = refl; flag = refl }) h)
Step-IsSound s t (drain_requested drain e) h = shift t _ e (
    same-IsSound s _ (record { sessions = refl; limit = refl })
      (record { relays = refl; bindings = refl; config = refl; flag = refl }) h)
Step-IsSound s t (drain_begun e) h = shift t _ e (begin_drain-IsSound s h)
Step-IsSound s t (relays_closed e) h = shift t _ e (finish_all-IsSound (keys s.relays) s h)
Step-IsSound s t (transport_made e) h = shift t _ e (
    same-IsSound s _ (record { sessions = refl; limit = refl })
      (record { relays = refl; bindings = refl; config = refl; flag = refl }) h)
Step-IsSound s t (transport_lost e) h = shift t _ e (connection_lost-IsSound s h)

Reaches-IsSound : {s t : NatNeg} → IsSound s → Reaches s t → IsSound t
Reaches-IsSound h here = h
Reaches-IsSound h (next r st) = Step-IsSound _ _ st (Reaches-IsSound h r)

module _ (config : NatNegConfig) (ttl session_ttl servers sessions : ℕ) (a : UdpAdmission)
    (d : DrainController) where
  -- The service at its start, over an empty shared state.
  abbrev pub started : NatNeg
  started = create config (fruitspy.State.create ttl session_ttl servers sessions) a d

  started-IsSound : IsSound started
  unfolding create
  started-IsSound = record {
    sessions = create-HasSessions ttl session_ttl servers sessions;
    relays = create-HasRelays config (fruitspy.State.create ttl session_ttl servers sessions) a d;
  }

  -- Whatever sequence of datagrams, timers, expiries, changes of the shared servers, drains and changes
  -- of the transport the service goes through from its start, its sessions and its relay tables stay
  -- sound.
  pub reached-IsSound : (s : NatNeg) → Reaches started s → IsSound s
  reached-IsSound s r = Reaches-IsSound started-IsSound r

  -- In every state that the service reaches from its start, forwarding a datagram raises no KeyError
  -- and sends nothing or just that datagram, unchanged, to the other endpoint of the sender's relay.
  pub reached_forward_lem :
      (s : NatNeg)
      → Reaches started s
      → (packet : Bytes) (addr : Address) (now : ℕ)
      → Forwarded packet (IsPeer s packet addr) s (forward_relay packet addr now s)
  reached_forward_lem s r packet addr now =
      forward_relay_lem packet addr now s (reached-IsSound s r).relays
