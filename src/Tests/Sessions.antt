-- ===== src/Tests/Sessions.antt =====
-- A session with two peers, claimed one after the other.
use fruitspy.Prelude.{
  Bytes, ℕ, ◌*◌, ◌≡◌, ◌≢◌, refl, true, none, some, [], ◌∷◌, text, arith, err, index_claimed, nat_eq,
}
use fruitspy.Clock.{second}
use fruitspy.Dict.{get, put, values, retain}
use fruitspy.State.{Address, ServerState, NatSession, NatPeer, create, address_eq, bytes_eq}
use fruitspy.State.Expiry.{expire, keeps_session, drop_stale, any_dropped}
use fruitspy.State.{update_metrics, count_registered}
use fruitspy.State.Sessions.{claim_nat_peer, claim_session, join_session, add_peer, any_at}
use fruitspy.State.Sessions.Claims.{claim_keeps_endpoint, claim_conflict, Holds}
use fruitspy.State.Sessions.Invariant.{HasSessions, claim-HasSessions, create-HasSessions}

abbrev pub first_address : Address
first_address = (text "192.0.2.1", 5000)

abbrev pub second_address : Address
second_address = (text "192.0.2.2", 6000)

abbrev pub third_address : Address
third_address = (text "192.0.2.3", 7000)

abbrev pub cookie : Bytes
cookie = 1 ∷ 2 ∷ 3 ∷ 4 ∷ []

abbrev pub at_second : ℕ → ℕ → ℕ
at_second n k = n * second

abbrev pub empty_state : ServerState
empty_state = create 60 30 10 10

abbrev pub one_peer : ServerState
one_peer = (claim_nat_peer (at_second 1) cookie 0 first_address 3 empty_state).1

abbrev pub two_peers : ServerState
two_peers = (claim_nat_peer (at_second 2) cookie 1 second_address 3 one_peer).1

pub one_peer-HasSessions : HasSessions one_peer
one_peer-HasSessions =
    claim-HasSessions (at_second 1) cookie 0 first_address 3 empty_state
      (create-HasSessions 60 30 10 10)

pub two_peers-HasSessions : HasSessions two_peers
two_peers-HasSessions =
    claim-HasSessions (at_second 2) cookie 1 second_address 3 one_peer one_peer-HasSessions

claim-HasSessions_example :
    HasSessions (claim_nat_peer (at_second 2) cookie 1 second_address 3 one_peer).1
claim-HasSessions_example =
    claim-HasSessions (at_second 2) cookie 1 second_address 3 one_peer one_peer-HasSessions

pub no_servers : two_peers.reported_servers ≡ []
unfolding create claim_nat_peer claim_session join_session add_peer expire drop_stale any_dropped
    update_metrics count_registered get put values retain any_at keeps_session
no_servers = refl

abbrev first_peer : NatPeer
first_peer = record {
  address = first_address;
  version = 3;
  cookie = cookie;
  client_index = 0;
  last_seen = second;
}

abbrev first_session : NatSession
first_session = record {
  cookie = cookie;
  peers = (0, first_peer) ∷ [];
  last_seen = second;
  paired_at = none;
  successful_reports = [];
}

one_peer_there : get cookie one_peer.nat_sessions ≡ some first_session
unfolding create claim_nat_peer claim_session join_session add_peer expire drop_stale any_dropped
    update_metrics count_registered get put values retain
one_peer_there = refl

first_peer_there : get 0 first_session.peers ≡ some first_peer
unfolding get
first_peer_there = refl

is_fresh_now : keeps_session one_peer.nat_session_ttl (at_second 3 0) first_session ≡ true
unfolding create claim_nat_peer claim_session join_session add_peer expire drop_stale any_dropped
    update_metrics count_registered get put values retain keeps_session
is_fresh_now = refl

claim_keeps_endpoint_example :
    Holds cookie 0 first_address (claim_nat_peer (at_second 3) cookie 0 third_address 3 one_peer).1
claim_keeps_endpoint_example =
    claim_keeps_endpoint (at_second 3) one_peer cookie 0 one_peer_there first_peer_there
      is_fresh_now cookie 0 third_address 3

claim_conflict_example :
    claim_nat_peer (at_second 3) cookie 0 third_address 3 one_peer
    ≡ (err index_claimed, (expire (at_second 3 0) one_peer).1)
claim_conflict_example =
    claim_conflict (at_second 3) one_peer cookie 0 one_peer_there first_peer_there is_fresh_now
      third_address 3 apart
  where
    apart : first_address ≢ third_address
    apart p = ground (arith, p)
