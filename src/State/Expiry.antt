-- ===== src/State/Expiry.antt =====
-- `ServerState.expire`: what has not been seen for longer than its time to live is dropped.
pub mod Kept
use fruitspy.Prelude.{
  ℕ, ◌-◌, Bool, true, false, ◌&&◌, ◌||◌, not, [], ◌∷◌, length, if◌then◌else◌, Option, none, some,
}
use fruitspy.Clock.{is_fresh}
use fruitspy.Dict.{Dict, retain, contains}
use fruitspy.State.{
  Address, address_eq, ReportedServer, NatSession, ServerState, notify_server_change,
  update_metrics,
}

unfoldable pub keeps_server : ℕ → ℕ → ReportedServer → Bool
keeps_server ttl now server = is_fresh ttl now server.last_seen

unfoldable pub keeps_session : ℕ → ℕ → NatSession → Bool
keeps_session ttl now session = is_fresh ttl now session.last_seen

-- any(server.registered and address not in retained for ...)
unfoldable pub any_dropped : Dict Address ReportedServer → Dict Address ReportedServer → Bool
any_dropped retained [] = false
any_dropped retained ((address, server) ∷ rest) =
    (server.registered && not (contains address retained)) || any_dropped retained rest

pub is_empty {ℓ κ} : {K : Type ℓ} {V : Type κ} → Dict K V → Bool
is_empty [] = true
is_empty (_ ∷ _) = false

-- the two comprehensions
unfoldable pub drop_stale : ℕ → ServerState → ServerState
drop_stale now st = record st {
  reported_servers = retain (keeps_server st.reported_server_ttl now) st.reported_servers;
  nat_sessions = retain (keeps_session st.nat_session_ttl now) st.nat_sessions;
}

-- expire(): `now` is its one reading of the clock; the result counts what was dropped
unfoldable pub expire : ℕ → ServerState → (ℕ × ℕ) × ServerState
unfolding is_empty drop_stale
expire now st =
    if is_empty st.reported_servers && is_empty st.nat_sessions
    then ((0, 0), st)
    else (let kept = drop_stale now st in
        let notified =
          if any_dropped kept.reported_servers st.reported_servers
          then notify_server_change kept
          else kept in
        (
          (
            length st.reported_servers - length kept.reported_servers,
            length st.nat_sessions - length kept.nat_sessions,
          ),
          update_metrics notified,
        ))
