-- ===== src/NatNeg/Report.antt =====
-- `_record_report`: what a client says of its attempt to connect. The clock's sites: 0 the report's
-- `now`, 1 the reading of a direct success.
use fruitspy.Prelude.{
  Bytes, ℕ, ◌+◌, ◌-◌, ◌*◌, ◌/◌, ◌%◌, Bool, true, ◌&&◌, not, Option, none, some, [], ◌∷◌, ltb,
  if◌then◌else◌, ◌==◌, nat_eq,
}
use fruitspy.Dict.{get, remove}
use fruitspy.Metrics.{increment, observe}
use fruitspy.State.{Address, address_eq, bytes_eq, NatSession, NatPeer}
use fruitspy.NatNeg.{
  NatNeg, RelaySession, count_metric, store_session, store_relay, add, is_in, is_both, is_none,
}
use fruitspy.NatNeg.Relay.{finish_relay}

-- round(n / d): to the nearest, and a half to the even one
unfoldable pub round_div : ℕ → ℕ → ℕ
round_div n d =
    if ltb (2 * (n % d)) d
    then n / d
    else if ltb d (2 * (n % d))
    then n / d + 1
    else n / d + n / d % 2

-- (session.paired_at if session.paired_at is not None else other)
unfoldable pub paired_or : ℕ → Option ℕ → ℕ
paired_or other none = other
paired_or other (some t) = t

-- a success while the relay is there: it counts as a success of the relay
unfoldable pub report_relay_success : ℕ → Bytes → ℕ → NatSession → RelaySession → NatNeg → NatNeg
unfolding paired_or
report_relay_success now cookie client_index session relay s =
    let reported = record relay { reports = add client_index relay.reports } in
    if is_both reported.reports && not relay.established
    then count_metric
        (observe "fruitspy_natneg_setup_seconds"
          (now - paired_or relay.started_at session.paired_at) (("path", "relay") ∷ []))
        (count_metric (increment "fruitspy_relay_events_total" (("event", "established") ∷ [])) (
          count_metric (increment "fruitspy_natneg_outcomes_total" (("outcome", "relay") ∷ []))
            (store_relay cookie (record reported { established = true }) s)))
    else store_relay cookie reported s

-- the milliseconds of a direct success since the pairing, in nanoseconds
unfoldable pub setup_time : ℕ → Option ℕ → ℕ
unfolding round_div
setup_time now none = 0
setup_time now (some paired_at) = round_div (now - paired_at) 1_000_000 * 1_000_000

-- a success with no relay, the first one of this peer
unfoldable pub report_direct : ℕ → Bytes → ℕ → NatSession → NatNeg → NatNeg
report_direct now cookie client_index session s =
    let stored =
      store_session cookie
        (record session { successful_reports = add client_index session.successful_reports })
        (record s { fallbacks = remove cookie s.fallbacks }) in
    if is_none session.successful_reports
    then count_metric
        (observe "fruitspy_natneg_setup_seconds" (setup_time now session.paired_at)
          (("path", "direct") ∷ []))
        (count_metric (increment "fruitspy_natneg_outcomes_total" (("outcome", "direct") ∷ []))
          stored)
    else stored

-- the end of the method, with the relay that is still there
unfoldable pub report_outcome :
    (ℕ → ℕ) → Bytes → ℕ → Bool → NatSession → Option RelaySession → NatNeg → NatNeg
report_outcome clock cookie client_index success session (some relay) s =
    if success then report_relay_success (clock 0) cookie client_index session relay s else s
report_outcome clock cookie client_index success session none s =
    if not success
    then s
    else if is_in client_index session.successful_reports
    then s
    else report_direct (clock 1) cookie client_index session s

-- a direct success before any peer used the relay ends the relay
unfoldable pub report_race :
    (ℕ → ℕ) → Bytes → ℕ → Bool → NatSession → Option RelaySession → NatNeg → NatNeg
unfolding report_outcome
report_race clock cookie client_index success session none s =
    report_outcome clock cookie client_index success session none s
report_race clock cookie client_index success session (some relay) s =
    if success && is_none relay.ready
    then report_outcome clock cookie client_index success session none (finish_relay cookie s)
    else report_outcome clock cookie client_index success session (some relay) s

unfoldable pub report_peer :
    (ℕ → ℕ) → Bytes → ℕ → Bool → Address → NatSession → Option NatPeer → NatNeg → NatNeg
unfolding report_race
report_peer clock cookie client_index success addr session none s = s
report_peer clock cookie client_index success addr session (some peer) s =
    if peer.address == addr
    then (let seen = record session { last_seen = clock 0 } in
        report_race clock cookie client_index success seen (get cookie s.relays) (
          store_session cookie seen (
            count_metric
              (increment "fruitspy_natneg_reports_total"
                (("result", if success then "success" else "failure") ∷ []))
              s)))
    else s

unfoldable pub report_session :
    (ℕ → ℕ) → Bytes → ℕ → Bool → Address → Option NatSession → NatNeg → NatNeg
unfolding report_peer
report_session clock cookie client_index success addr none s = s
report_session clock cookie client_index success addr (some session) s =
    report_peer clock cookie client_index success addr session (get client_index session.peers) s

-- _record_report(cookie, client_index, success, addr)
unfoldable pub record_report : (ℕ → ℕ) → Bytes → ℕ → Bool → Address → NatNeg → NatNeg
unfolding report_session
record_report clock cookie client_index success addr s =
    report_session clock cookie client_index success addr (get cookie s.state.nat_sessions) s
