-- ===== src/Metrics/Specs.antt =====
-- The metrics that the registry knows, `_METRICS` of server/fruitspy/metrics.py. The bounds of a
-- histogram are in nanoseconds.
use fruitspy.Prelude.{Text, ℕ, List, [], ◌∷◌, String, text}

pub data MetricKind : Type 0 where
  counter gauge histogram : MetricKind

pub record MetricSpec : Type 0 where
  pub name : Text
  pub help : Text
  pub kind : MetricKind
  pub labels : List (Text × List Text)
  pub buckets : List ℕ

spec : String → String → MetricKind → List (Text × List Text) → MetricSpec
spec name help kind labels = record {
  name = text name;
  help = text help;
  kind = kind;
  labels = labels;
  buckets = [];
}

histogram_spec : String → String → List (Text × List Text) → List ℕ → MetricSpec
histogram_spec name help labels buckets = record {
  name = text name;
  help = text help;
  kind = histogram;
  labels = labels;
  buckets = buckets;
}

unfoldable pub metric_specs : List MetricSpec
unfolding spec histogram_spec
metric_specs =
    spec "fruitspy_server_draining" "Whether the process is draining and refusing new matchmaking."
      gauge []
    ∷ spec "fruitspy_drain_events_total" "Graceful drain lifecycle events." counter
        ((text "event", text "started" ∷ text "completed" ∷ text "timed_out" ∷ []) ∷ [])
    ∷ spec "fruitspy_peerchat_clients" "Current admitted PeerChat connections." gauge []
    ∷ spec "fruitspy_peerchat_rooms" "Current PeerChat rooms." gauge []
    ∷ spec "fruitspy_peerchat_events_total" "Successful PeerChat lifecycle events." counter (
        (
          text "event",
          text "connected" ∷ text "registered" ∷ text "joined" ∷ text "disconnected" ∷ [],
        )
        ∷ [])
    ∷ spec "fruitspy_qr_reported_servers"
        "Current QR2 server records, including pending challenges." gauge []
    ∷ spec "fruitspy_qr_registered_servers" "Current registered QR2 servers." gauge []
    ∷ spec "fruitspy_qr_events_total" "QR2 availability and host-registration lifecycle events."
        counter
        ((
          text "event",
          text "availability_accepted"
              ∷ text "availability_rejected"
              ∷ text "challenge_issued"
              ∷ text "registered"
              ∷ text "removed"
              ∷ text "game_rejected"
              ∷ text "proof_rejected"
              ∷ [],
        )
          ∷ [])
    ∷ spec "fruitspy_server_browser_connections" "Current admitted Server Browser connections."
        gauge []
    ∷ spec "fruitspy_natneg_sessions" "Current NatNeg setup sessions." gauge []
    ∷ spec "fruitspy_natneg_session_events_total" "NatNeg setup-session lifecycle events." counter
        ((text "event", text "created" ∷ text "paired" ∷ []) ∷ [])
    ∷ spec "fruitspy_natneg_relays" "Current gameplay relay allocations." gauge []
    ∷ spec "fruitspy_discovery_requests_total" "Server Browser requests by fixed request kind."
        counter ((text "kind", text "list" ∷ text "info" ∷ text "relay" ∷ []) ∷ [])
    ∷ spec "fruitspy_discovery_results_total"
        "Server Browser list results by empty, nonempty, or rejected result." counter
        ((text "result", text "empty" ∷ text "nonempty" ∷ text "rejected" ∷ []) ∷ [])
    ∷ spec "fruitspy_natneg_outcomes_total" "Established NatNeg paths by direct or relay outcome."
        counter ((text "outcome", text "direct" ∷ text "relay" ∷ []) ∷ [])
    ∷ spec "fruitspy_natneg_reports_total" "Validated NatNeg client reports by result." counter
        ((text "result", text "success" ∷ text "failure" ∷ []) ∷ [])
    ∷ spec "fruitspy_relay_events_total" "Gameplay relay lifecycle events." counter (
        (
          text "event",
          text "activated"
              ∷ text "ready"
              ∷ text "established"
              ∷ text "closed"
              ∷ text "unavailable"
              ∷ [],
        )
        ∷ [])
    ∷ spec "fruitspy_relay_packets_total" "Gameplay relay packets by forwarding result." counter
        ((text "result", text "forwarded" ∷ text "dropped" ∷ []) ∷ [])
    ∷ spec "fruitspy_admission_rejections_total" "Admission rejections by fixed service and reason."
        counter
        ((text "service", text "qr" ∷ text "natneg" ∷ text "peerchat" ∷ text "server_browser" ∷ [])
          ∷ (
            text "reason",
            text "connection_limit"
                ∷ text "global_rate_limit"
                ∷ text "source_rate_limit"
                ∷ text "source_ban_started"
                ∷ text "source_banned"
                ∷ text "source_table_full"
                ∷ [],
          )
          ∷ [])
    ∷ spec "fruitspy_protocol_rejections_total" "Protocol rejections by fixed service and reason."
        counter
        ((text "service", text "qr" ∷ text "natneg" ∷ text "peerchat" ∷ text "server_browser" ∷ [])
          ∷ (
            text "reason",
            text "malformed"
                ∷ text "amplification"
                ∷ text "capacity"
                ∷ text "budget"
                ∷ text "draining"
                ∷ [],
          )
          ∷ [])
    ∷ histogram_spec "fruitspy_natneg_setup_seconds" "NatNeg setup latency by established path."
        ((text "path", text "direct" ∷ text "relay" ∷ []) ∷ [])
        (10000000 ∷ 25000000 ∷ 50000000 ∷ 100000000 ∷ 250000000 ∷ 500000000 ∷ 1000000000
          ∷ 2000000000 ∷ 3000000000 ∷ 5000000000 ∷ 10000000000 ∷ 30000000000 ∷ [])
    ∷ []
