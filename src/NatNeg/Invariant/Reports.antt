-- ===== src/NatNeg/Invariant/Reports.antt =====
-- A report of a peer leaves the service sound.
use fruitspy.Prelude.{
  Bytes, ℕ, ◌≡◌, refl, Bool, true, ◌&&◌, not, Option, none, some, if-elim, nat_eq, ◌==◌,
}
use fruitspy.Dict.{get, remove}
use fruitspy.Dict.Laws.{get-put, beq_refl}
use fruitspy.State.{Address, address_eq, bytes_eq, NatSession, NatPeer}
use fruitspy.NatNeg.{
  NatNeg, RelaySession, count_metric, store_session, add, is_in, is_both, is_none,
}
use fruitspy.NatNeg.Relay.{finish_relay}
use fruitspy.NatNeg.Relay.Links.{SameEnds-refl}
use fruitspy.NatNeg.Report.{
  report_relay_success, report_direct, report_outcome, report_race, report_peer, report_session,
  record_report,
}
use fruitspy.NatNeg.Invariant.{
  IsSound, count_metric-IsSound, store_session-IsSound, store_relay-IsSound, same-IsSound,
}
use fruitspy.NatNeg.Invariant.Relays.{finish_relay-IsSound, finish_relay-SameSessions}

relay_success-IsSound :
    (now : ℕ) (c : Bytes) (i : ℕ) (session : NatSession) (r : RelaySession) (s : NatNeg)
    → get c s.relays ≡ some r
    → IsSound s
    → IsSound (report_relay_success now c i session r s)
unfolding report_relay_success
relay_success-IsSound now c i session r s g h =
    let reported = record r { reports = add i r.reports } in
    if-elim IsSound (is_both reported.reports && not r.established)
      (λ both. count_metric-IsSound _ _ (
        count_metric-IsSound _ _ (
          count_metric-IsSound _ _ (
            store_relay-IsSound c r (record reported { established = true }) s g
              (SameEnds-refl r _ refl) h))))
      (λ one. store_relay-IsSound c r reported s g (SameEnds-refl r reported refl) h)

direct-IsSound :
    (now : ℕ) (c : Bytes) (i : ℕ) (session : NatSession) (s : NatNeg)
    → get c s.state.nat_sessions ≡ some session
    → IsSound s
    → IsSound (report_direct now c i session s)
unfolding report_direct
direct-IsSound now c i session s g h =
    let t = record s { fallbacks = remove c s.fallbacks } in
    let h' : IsSound t =
      same-IsSound s t (record { sessions = refl; limit = refl })
        (record { relays = refl; bindings = refl; config = refl; flag = refl }) h in
    let new = record session { successful_reports = add i session.successful_reports } in
    let stored = store_session-IsSound c session new t g refl refl h' in
    if-elim IsSound (is_none session.successful_reports)
      (λ first. count_metric-IsSound _ _ (count_metric-IsSound _ _ stored)) (λ again. stored)

outcome-IsSound :
    (clock : ℕ → ℕ) (c : Bytes) (i : ℕ) (success : Bool) (session : NatSession)
    (o : Option RelaySession) (s : NatNeg)
    → ((r : RelaySession) → o ≡ some r → get c s.relays ≡ some r)
    → get c s.state.nat_sessions ≡ some session
    → IsSound s
    → IsSound (report_outcome clock c i success session o s)
unfolding report_outcome
outcome-IsSound clock c i success session (some r) s there g h =
    if-elim IsSound success
      (λ yes. relay_success-IsSound (clock 0) c i session r s (there r refl) h) (λ no. h)
outcome-IsSound clock c i success session none s there g h =
    if-elim IsSound (not success) (λ no. h)
      (λ yes.
        if-elim IsSound (is_in i session.successful_reports) (λ again. h)
          (λ first. direct-IsSound (clock 1) c i session s g h))

race-IsSound :
    (clock : ℕ → ℕ) (c : Bytes) (i : ℕ) (success : Bool) (session : NatSession)
    (o : Option RelaySession) (s : NatNeg)
    → get c s.relays ≡ o
    → get c s.state.nat_sessions ≡ some session
    → IsSound s
    → IsSound (report_race clock c i success session o s)
unfolding report_race
race-IsSound clock c i success session none s found g h =
    outcome-IsSound clock c i success session none s (λ r p. cc) g h
race-IsSound clock c i success session (some r) s found g h =
    if-elim IsSound (success && is_none r.ready)
      (λ direct.
        outcome-IsSound clock c i success session none (finish_relay c s) (λ x p. cc)
          (rw (finish_relay-SameSessions c s).sessions g) (finish_relay-IsSound c s h))
      (λ other. outcome-IsSound clock c i success session (some r) s (λ x p. cc) g h)

there_after :
    (c : Bytes) (session : NatSession) (s : NatNeg)
    → get c (store_session c session s).state.nat_sessions ≡ some session
unfolding store_session
there_after c session s = rw (get-put, beq_refl c) refl

relays_after :
    (c : Bytes) (session : NatSession) (s : NatNeg)
    → get c (store_session c session s).relays ≡ get c s.relays
unfolding store_session
relays_after c session s = refl

peer-IsSound :
    (clock : ℕ → ℕ) (c : Bytes) (i : ℕ) (success : Bool) (a : Address) (session : NatSession)
    (o : Option NatPeer) (s : NatNeg)
    → get c s.state.nat_sessions ≡ some session
    → IsSound s
    → IsSound (report_peer clock c i success a session o s)
unfolding report_peer count_metric
peer-IsSound clock c i success a session none s g h = h
peer-IsSound clock c i success a session (some peer) s g h =
    if-elim IsSound (peer.address == a)
      (λ same.
        let seen = record session { last_seen = clock 0 } in
        let counted = count_metric _ s in
        let stored =
          store_session-IsSound c session seen counted g refl refl (count_metric-IsSound _ s h) in
        race-IsSound clock c i success seen (get c s.relays) (store_session c seen counted)
          (relays_after c seen counted) (there_after c seen counted) stored)
      (λ other. h)

session-IsSound :
    (clock : ℕ → ℕ) (c : Bytes) (i : ℕ) (success : Bool) (a : Address) (o : Option NatSession)
    (s : NatNeg)
    → get c s.state.nat_sessions ≡ o
    → IsSound s
    → IsSound (report_session clock c i success a o s)
unfolding report_session
session-IsSound clock c i success a none s g h = h
session-IsSound clock c i success a (some session) s g h =
    peer-IsSound clock c i success a session (get i session.peers) s g h

pub record_report-IsSound :
    (clock : ℕ → ℕ) (c : Bytes) (i : ℕ) (success : Bool) (a : Address) (s : NatNeg)
    → IsSound s
    → IsSound (record_report clock c i success a s)
unfolding record_report
record_report-IsSound clock c i success a s h =
    session-IsSound clock c i success a (get c s.state.nat_sessions) s refl h
