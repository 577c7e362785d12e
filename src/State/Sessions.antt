-- ===== src/State/Sessions.antt =====
-- The NAT sessions: `claim_nat_peer`. Its sites that read the clock: 0 in `expire`, 1 a new
-- session's default, 2 a new peer's, 3 the session's `last_seen`, 4 a refreshed peer's.
pub mod Claims
pub mod Stored
pub mod Invariant
use fruitspy.Prelude.{
  Bytes, ℕ, Bool, true, false, ◌||◌, Option, none, some, List, [], ◌∷◌, ◌==◌, length, leb, nat_eq,
  Result, ok, err, value_error, session_full, index_claimed, endpoint_claimed, if◌then◌else◌,
}
use fruitspy.Dict.{Dict, get, put, values}
use fruitspy.State.{Address, address_eq, bytes_eq, NatPeer, NatSession, ServerState, update_metrics}
use fruitspy.State.Expiry.{expire}

pub data Claim : Type 0 where
  session_created peer_refreshed peer_added : Claim

unfoldable pub any_at : Address → List NatPeer → Bool
any_at address [] = false
any_at address (peer ∷ rest) = peer.address == address || any_at address rest

-- the statements after the branches: the new peer is stored
unfoldable pub add_peer :
    (ℕ → ℕ)
    → Bytes
    → ℕ
    → Address
    → ℕ
    → Claim
    → NatSession
    → ServerState
    → Result (NatSession × Claim) × ServerState
add_peer clock cookie client_index address version event session st =
    let peer : NatPeer = record {
      address = address;
      version = version;
      cookie = cookie;
      client_index = client_index;
      last_seen = clock 2;
    } in
    let joined = record session {
      peers = put client_index peer session.peers;
      last_seen = clock 3;
    } in
    (
      ok (joined, event),
      update_metrics (record st { nat_sessions = put cookie joined st.nat_sessions }),
    )

unfoldable pub refresh_peer :
    (ℕ → ℕ)
    → Bytes
    → ℕ
    → ℕ
    → NatPeer
    → NatSession
    → ServerState
    → Result (NatSession × Claim) × ServerState
refresh_peer clock cookie client_index version peer session st =
    let seen = record peer { version = version; last_seen = clock 4 } in
    let joined = record session {
      peers = put client_index seen session.peers;
      last_seen = clock 4;
    } in
    (ok (joined, peer_refreshed), record st { nat_sessions = put cookie joined st.nat_sessions })

-- a session that is there, with the peer under the claimed index
unfoldable pub join_session :
    (ℕ → ℕ)
    → Bytes
    → ℕ
    → Address
    → ℕ
    → Option NatPeer
    → NatSession
    → ServerState
    → Result (NatSession × Claim) × ServerState
join_session clock cookie client_index address version none session st =
    if length session.peers == 2
    then (err session_full, st)
    else if any_at address (values session.peers)
    then (err endpoint_claimed, st)
    else add_peer clock cookie client_index address version peer_added session st
join_session clock cookie client_index address version (some peer) session st =
    if peer.address == address
    then refresh_peer clock cookie client_index version peer session st
    else if length session.peers == 2
    then (err session_full, st)
    else (err index_claimed, st)

unfoldable pub claim_session :
    (ℕ → ℕ)
    → Bytes
    → ℕ
    → Address
    → ℕ
    → Option NatSession
    → ServerState
    → Result (NatSession × Claim) × ServerState
claim_session clock cookie client_index address version none st =
    if leb st.max_nat_sessions (length st.nat_sessions)
    then (err value_error, st)
    else add_peer clock cookie client_index address version session_created
        (record {
          cookie = cookie;
          peers = [];
          last_seen = clock 1;
          paired_at = none;
          successful_reports = [];
        })
        st
claim_session clock cookie client_index address version (some session) st =
    join_session clock cookie client_index address version (get client_index session.peers) session
      st

-- claim_nat_peer(cookie, client_index, address, version)
unfoldable pub claim_nat_peer :
    (ℕ → ℕ) → Bytes → ℕ → Address → ℕ → ServerState → Result (NatSession × Claim) × ServerState
claim_nat_peer clock cookie client_index address version st =
    let expired = (expire (clock 0) st).1 in
    claim_session clock cookie client_index address version (get cookie expired.nat_sessions)
      expired
