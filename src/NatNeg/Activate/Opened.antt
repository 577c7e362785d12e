-- ===== src/NatNeg/Activate/Opened.antt =====
-- `_activate_relay` keeps the relay tables linked: the relays that used one of the two addresses end
-- first, so the new relay's endpoints are bound to it alone.
use fruitspy.Prelude.{
  Bytes, ℕ, ◌<◌, ◌≤◌, ◌≡◌, ◌≢◌, refl, sym, true, false, ◌||◌, not, Option, none, some, [], ◌∷◌,
  arith, ◌==◌, nat_eq, pair_eq, if-elim, length, leb, Result, ok, err,
}
use fruitspy.Clock.{seconds}
use fruitspy.Dict.{Dict, get, put, remove, contains, keys, values}
use fruitspy.Dict.Laws.{get-put, length-put-le, put-Unique, beq_refl, beq_false, All-get}
use fruitspy.State.{address_eq, bytes_eq, NatSession}
use fruitspy.State.Sessions.Invariant.{HasSessions, SessionEntry}
use fruitspy.Drain.{is_draining}
use fruitspy.NatNeg.{NatNeg, RelayEndpoint, RelaySession, count_metric, send, is_both, is_none}
use fruitspy.NatNeg.Relay.{expire_relays, finish_all, schedule_expiration}
use fruitspy.NatNeg.Relay.Open.{IsPair, bind_both, open-Linked}
use fruitspy.NatNeg.Relay.Finish.{
  HasRelays, SameRelays-HasRelays, finish_all-HasRelays, expire_relays-HasRelays, not_empty,
}
use fruitspy.NatNeg.Relay.Ends.{finish_all-Shrunk, expire_relays-Shrunk, freed}
use fruitspy.NatNeg.Activate.{
  is_auto, count_unavailable, count_rejection, replaced, relay_pings, address_set, seen_in,
  add_address, bind_endpoints, new_relay, open_relay, activate_pinged, activate_checked,
  activate_session, activate_relay,
}
use fruitspy.NatNeg.Activate.Replaced.{replaced_head, replaced_tail}
use fruitspy.NatNeg.Activate.Peers.{IsTwo, both-IsTwo, apart, end_of, new_relay-IsPair}

-- The relay tables after the endpoints are bound.
bind-tables :
    (c : Bytes) (pings : Dict ℕ Bytes) (r : RelaySession) (e f : RelayEndpoint) (s : NatNeg)
    → (pair : IsPair r e f)
    → ((bind_endpoints c pings r.endpoints s).relays ≡ s.relays)
      × ((bind_endpoints c pings r.endpoints s).relay_by_address
          ≡ bind_both c r e f pair s.relay_by_address)
      × ((bind_endpoints c pings r.endpoints s).config ≡ s.config)
      × ((bind_endpoints c pings r.endpoints s).relays_empty ≡ s.relays_empty)
unfolding bind_endpoints send
bind-tables c pings r e f s pair = rw pair.shape (refl, refl, refl, refl)

module _ (clock : ℕ → ℕ) (c : Bytes) (session : NatSession) (two : IsTwo session.peers)
    (n : two.p.address ≢ two.q.address) where
  open_relay-HasRelays :
      (pings : Dict ℕ Bytes) (s : NatNeg)
      → HasRelays s
      → get c s.relays ≡ none
      → length s.relays < s.config.max_relays
      → get two.p.address s.relay_by_address ≡ none
      → get two.q.address s.relay_by_address ≡ none
      → HasRelays (open_relay clock c session pings s)
  unfolding open_relay count_metric schedule_expiration
  open_relay-HasRelays pings s h absent room free_p free_q =
      let burst = s.config.byte_burst in
      let e = end_of burst (clock 0) two.i two.p in
      let f = end_of burst (clock 0) two.j two.q in
      let r = new_relay burst (clock 0) c session in
      let pair = new_relay-IsPair burst (clock 0) c session two n in
      let stored = record s { relays = put c r s.relays; relays_empty = false } in
      let timed = schedule_expiration c (clock 1) (seconds s.config.session_seconds) stored in
      let tables = bind-tables c pings r e f timed pair in
      SameRelays-HasRelays
        (record stored { relay_by_address = bind_both c r e f pair s.relay_by_address }) _
        (record { relays = tables.0; bindings = tables.1; config = tables.2; flag = tables.3 })
        (record {
          linked =
              open-Linked c r e f pair s.relays s.relay_by_address h.linked absent free_p free_q;
          within = omega (arith, length-put-le c r s.relays, room);
          one_each = put-Unique c r s.relays h.one_each;
          flagged = sym (not_empty c (put c r s.relays) {r = r} (rw (get-put, beq_refl c)));
        })

  -- The addresses of two peers that are apart.
  addresses : address_set (values session.peers) ≡ two.p.address ∷ two.q.address ∷ []
  unfolding address_set values add_address seen_in
  addresses = rw (two.shape, beq_false two.q.address two.p.address n)

  -- After the replaced relays have ended, both addresses are free.
  replaced-free :
      (s : NatNeg)
      → HasRelays s
      → let t = finish_all (replaced (address_set (values session.peers)) s.relay_by_address) s in
        (get two.p.address t.relay_by_address ≡ none)
        × (get two.q.address t.relay_by_address ≡ none)
  replaced-free s h = rw addresses (
    freed _ s two.p.address h (λ d i at. replaced_head two.p.address _ s.relay_by_address d i at),
    freed _ s two.q.address h (λ d i at.
        replaced_tail two.p.address _ s.relay_by_address d
          (replaced_head two.q.address [] s.relay_by_address d i at)),
  )

  activate_pinged-HasRelays :
      (o : Result (Option (Dict ℕ Bytes))) (s : NatNeg)
      → HasRelays s
      → get c s.relays ≡ none
      → length s.relays < s.config.max_relays
      → HasRelays (activate_pinged clock c session (address_set (values session.peers)) o s)
  unfolding activate_pinged count_rejection count_metric
  activate_pinged-HasRelays (err e) s h absent room = h
  activate_pinged-HasRelays (ok none) s h absent room =
      SameRelays-HasRelays s _
        (record { relays = refl; bindings = refl; config = refl; flag = refl }) h
  activate_pinged-HasRelays (ok (some pings)) s h absent room =
      let cs = replaced (address_set (values session.peers)) s.relay_by_address in
      let f = finish_all-Shrunk cs s in
      let free = replaced-free s h in
      open_relay-HasRelays pings (finish_all cs s) (finish_all-HasRelays cs s h) (f.absent c absent)
        (rw f.config (omega (arith, f.fewer, room))) free.0 free.1

activate_checked-HasRelays :
    (clock : ℕ → ℕ) (c : Bytes) (session : NatSession) (s : NatNeg)
    → IsTwo session.peers
    → HasRelays s
    → get c s.relays ≡ none
    → HasRelays (activate_checked clock c session s)
unfolding activate_checked count_rejection count_unavailable count_metric
activate_checked-HasRelays clock c session s two h absent =
    let same = SameRelays-HasRelays s in
    if-elim HasRelays (leb s.config.max_relays (length s.relays))
      (λ full. same _ (record { relays = refl; bindings = refl; config = refl; flag = refl }) h)
      (λ roomy.
        if-elim HasRelays (length (address_set (values session.peers)) == 2)
          (λ separate.
            activate_pinged-HasRelays clock c session two (apart _ two separate)
              (relay_pings c session.peers session.peers) s h absent (ground arith))
          (λ one. same _ (record { relays = refl; bindings = refl; config = refl; flag = refl }) h))

absent_of : (c : Bytes) (d : Dict Bytes RelaySession) → contains c d ≡ false → get c d ≡ none
unfolding contains
absent_of c d e = ground (arith, e)

activate_session-HasRelays :
    (clock : ℕ → ℕ) (c : Bytes) (o : Option NatSession) (s : NatNeg)
    → ((session : NatSession) → o ≡ some session → length session.peers ≤ 2)
    → HasRelays s
    → HasRelays (activate_session clock c o s)
unfolding activate_session
activate_session-HasRelays clock c none s small h = h
activate_session-HasRelays clock c (some session) s small h =
    if-elim HasRelays
      (not (is_both (keys session.peers))
        || not (is_none session.successful_reports)
        || contains c s.relays)
      (λ idle. h)
      (λ due.
        activate_checked-HasRelays clock c session (expire_relays (clock 0) true s)
          (both-IsTwo session.peers (small session refl) (ground arith))
          (expire_relays-HasRelays (clock 0) true s h)
          ((expire_relays-Shrunk (clock 0) true s).absent c (absent_of c s.relays (ground arith))))

-- Where the sessions are well-formed, with at most two peers each, and the relay tables are
-- linked, `_activate_relay` leaves the tables linked and the relays within the configured number,
-- for any cookie and at any readings of the clock.
pub activate_relay-HasRelays :
    (clock : ℕ → ℕ) (c : Bytes) (s : NatNeg)
    → HasSessions s.state
    → HasRelays s
    → HasRelays (activate_relay clock c s)
unfolding activate_relay count_rejection count_unavailable count_metric
activate_relay-HasRelays clock c s sessions h =
    let same = SameRelays-HasRelays s in
    let t = record s { fallbacks = remove c s.fallbacks } in
    let h' = same t (record { relays = refl; bindings = refl; config = refl; flag = refl }) h in
    if-elim HasRelays (is_draining s.drain)
      (λ draining. same _ (record { relays = refl; bindings = refl; config = refl; flag = refl }) h)
      (λ up.
        if-elim HasRelays (not s.connected || not (is_auto s.config.policy)) (λ off. h')
          (λ on.
            activate_session-HasRelays clock c (get c s.state.nat_sessions) t
              (λ session at.
                (All-get SessionEntry c s.state.nat_sessions sessions.sessions at).at_most_two)
              h'))
