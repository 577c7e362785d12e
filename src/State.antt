-- ===== src/State.antt =====
-- `ServerState` of server/fruitspy/state.py: the reported game servers and the NAT sessions, which
-- the QR, NatNeg and Server Browser services share. Its operations are in the modules below.
pub mod Expiry
pub mod Servers
pub mod Sessions
use fruitspy.Prelude.{
  Text, Bytes, ℕ, ◌+◌, Bool, true, false, Option, none, some, List, [], ◌∷◌, Eq, list_eq, nat_eq,
  pair_eq, length, map, if◌then◌else◌, text,
}
use fruitspy.Metrics.{Metrics, MetricCall, set_gauge, record_call}
use fruitspy.Dict.{Dict, get, put, retain, values}

abbrev pub Address : Type 0
Address = Text × ℕ

instance abbrev pub address_eq : Eq Address
address_eq = pair_eq

instance abbrev pub bytes_eq : Eq (List ℕ)
bytes_eq = list_eq

pub record ReportedServer : Type 0 where
  pub source : Address
  pub instance_key : Bytes
  pub keys : Dict Text Text
  pub challenge : Text
  pub registered : Bool
  pub last_seen : ℕ
  pub registered_at : Option ℕ

-- browser_endpoint()
unfoldable pub browser_endpoint : ReportedServer → Address
browser_endpoint server = server.source

pub record NatPeer : Type 0 where
  pub address : Address
  pub version : ℕ
  pub cookie : Bytes
  pub client_index : ℕ
  pub last_seen : ℕ

-- `successful_reports` is a set, as a list without repetitions
pub record NatSession : Type 0 where
  pub cookie : Bytes
  pub peers : Dict ℕ NatPeer
  pub last_seen : ℕ
  pub paired_at : Option ℕ
  pub successful_reports : List ℕ

-- `server_change_events` holds each subscribed event by a number, with its flag; `next_event` is
-- the number of the next one.
pub record ServerState : Type 0 where
  pub reported_server_ttl : ℕ
  pub nat_session_ttl : ℕ
  pub max_reported_servers : ℕ
  pub max_nat_sessions : ℕ
  pub metrics : Metrics
  pub reported_servers : Dict Address ReportedServer
  pub nat_sessions : Dict Bytes NatSession
  pub server_change_events : Dict ℕ Bool
  pub next_event : ℕ

-- ServerState(reported_server_ttl, nat_session_ttl, max_reported_servers, max_nat_sessions)
unfoldable pub create : ℕ → ℕ → ℕ → ℕ → ServerState
create server_ttl session_ttl max_servers max_sessions = record {
  reported_server_ttl = server_ttl;
  nat_session_ttl = session_ttl;
  max_reported_servers = max_servers;
  max_nat_sessions = max_sessions;
  metrics = [];
  reported_servers = [];
  nat_sessions = [];
  server_change_events = [];
  next_event = 0;
}

-- subscribe_server_changes(): a new event, not set
unfoldable pub subscribe_server_changes : ServerState → ℕ × ServerState
subscribe_server_changes st = (
  st.next_event,
  record st {
    server_change_events = put st.next_event false st.server_change_events;
    next_event = st.next_event + 1;
  },
)

-- unsubscribe_server_changes(event)
unfoldable pub unsubscribe_server_changes : ℕ → ServerState → ServerState
unsubscribe_server_changes event st = record st {
  server_change_events = fruitspy.Dict.remove event st.server_change_events;
}

unfoldable set_all : Dict ℕ Bool → Dict ℕ Bool
set_all [] = []
set_all ((event, flag) ∷ d) = (event, true) ∷ set_all d

-- _notify_server_change()
unfoldable pub notify_server_change : ServerState → ServerState
unfolding set_all
notify_server_change st = record st { server_change_events = set_all st.server_change_events }

-- sum(server.registered for server in ...)
unfoldable pub count_registered : List ReportedServer → ℕ
count_registered [] = 0
count_registered (server ∷ rest) = (if server.registered then 1 else 0) + count_registered rest

-- _update_metrics()
unfoldable pub update_metrics : ServerState → ServerState
update_metrics st = record st {
  metrics = record_call (set_gauge "fruitspy_natneg_sessions" (length st.nat_sessions)) (
      record_call
        (set_gauge "fruitspy_qr_registered_servers" (count_registered (values st.reported_servers)))
        (record_call (set_gauge "fruitspy_qr_reported_servers" (length st.reported_servers))
          st.metrics));
}
