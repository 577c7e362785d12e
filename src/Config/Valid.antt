-- ===== src/Config/Valid.antt =====
-- The tests accept the configurations whose values are in their ranges, and no other.
use fruitspy.Prelude.{
  Text, ℕ, ◌≡◌, ◌≢◌, ◌↔◌, ◌⊎◌, refl, min, max, Bool, true, false, ◌||◌, not, Option, none, some,
  List, [], ◌∷◌, ◌++◌, length, text, ◌==◌, nat_eq, list_eq, ok, arith, All, All-append, nat_beq_iff,
}
use fruitspy.Config.{
  GameConfig, PortConfig, LimitConfig, TimeoutConfig, RelayConfig, MetricsConfig, ServerConfig,
  between, is_port, is_duration, is_loopback_host, port_tests, connection_tests, udp_tests,
  relay_tests, require_all, load_config,
}
use fruitspy.Config.Ranges.{Within, ValidConnections, ValidUdp, ValidRelay, ValidPorts, IsValid}

abbrev Passes : Bool → Type 0
Passes b = b ≡ true

require_all_lem :
    (tests : List Bool) (config : ServerConfig)
    → (require_all tests config ≡ ok config) ↔ All Passes tests
unfolding require_all
require_all_lem [] config = (λ _. tt, λ _. refl)
require_all_lem (true ∷ rest) config =
    let later = require_all_lem rest config in (λ h. (refl, later.0 h), λ h. later.1 h.1)
require_all_lem (false ∷ rest) config = (λ h. absurd (cc), λ h. absurd (ground (arith, h.0)))

infixr 4 ◌&◌
◌&◌ {ℓ κ} : {A : Type ℓ} {B : Type κ} → A → B → A × B
a & b = (a, b)

between_lem : (low value high : ℕ) → Passes (between low value high) ↔ Within low value high
unfolding between
between_lem low value high = ground arith

ValidConnections-connection_tests :
    (limits : LimitConfig) → All Passes (connection_tests limits) ↔ ValidConnections limits
unfolding connection_tests is_duration is_port
ValidConnections-connection_tests limits = (
  λ h. record {
    line_bytes = (between_lem 512 limits.peerchat_line_bytes 65535).0 h.0;
    frame_bytes = (between_lem 3 limits.server_browser_frame_bytes 65535).0 h.1.0;
    qr_bytes = (between_lem 64 limits.qr_packet_bytes 65507).0 h.1.1.0;
    natneg_bytes = (between_lem 21 limits.natneg_packet_bytes 65507).0 h.1.1.1.0;
    chat_connections = (between_lem 1 limits.peerchat_connections 65535).0 h.1.1.1.1.0;
    browser_connections = (between_lem 1 limits.server_browser_connections 65535).0 h.1.1.1.1.1.0;
    source_connections =
        (between_lem 1 limits.connections_per_source
            (min limits.peerchat_connections limits.server_browser_connections)).0
          h.1.1.1.1.1.1.0;
    channels = (between_lem 1 limits.peerchat_channels 1000000).0 h.1.1.1.1.1.1.1.0;
    client_channels =
        (between_lem 1 limits.peerchat_channels_per_client limits.peerchat_channels).0
          h.1.1.1.1.1.1.1.1.0;
    keys = (between_lem 1 limits.peerchat_keys_per_collection 65535).0 h.1.1.1.1.1.1.1.1.1.0;
    commands = (between_lem 1 limits.peerchat_commands_per_second 65535).0 h.1.1.1.1.1.1.1.1.1.1.0;
    command_burst =
        (between_lem limits.peerchat_commands_per_second limits.peerchat_command_burst 65535).0
          h.1.1.1.1.1.1.1.1.1.1.1.0;
    creations =
        (between_lem 1 limits.peerchat_state_creations_per_second 65535).0
          h.1.1.1.1.1.1.1.1.1.1.1.1.0;
    creation_burst =
        (between_lem limits.peerchat_state_creations_per_second limits.peerchat_state_creation_burst
            65535).0
          h.1.1.1.1.1.1.1.1.1.1.1.1.1.0;
  },
  λ v.
      (between_lem 512 limits.peerchat_line_bytes 65535).1 v.line_bytes
      & (between_lem 3 limits.server_browser_frame_bytes 65535).1 v.frame_bytes
      & (between_lem 64 limits.qr_packet_bytes 65507).1 v.qr_bytes
      & (between_lem 21 limits.natneg_packet_bytes 65507).1 v.natneg_bytes
      & (between_lem 1 limits.peerchat_connections 65535).1 v.chat_connections
      & (between_lem 1 limits.server_browser_connections 65535).1 v.browser_connections
      & (between_lem 1 limits.connections_per_source
            (min limits.peerchat_connections limits.server_browser_connections)).1
          v.source_connections
      & (between_lem 1 limits.peerchat_channels 1000000).1 v.channels
      & (between_lem 1 limits.peerchat_channels_per_client limits.peerchat_channels).1
          v.client_channels
      & (between_lem 1 limits.peerchat_keys_per_collection 65535).1 v.keys
      & (between_lem 1 limits.peerchat_commands_per_second 65535).1 v.commands
      & (between_lem limits.peerchat_commands_per_second limits.peerchat_command_burst 65535).1
          v.command_burst
      & (between_lem 1 limits.peerchat_state_creations_per_second 65535).1 v.creations
      & (between_lem limits.peerchat_state_creations_per_second limits.peerchat_state_creation_burst
            65535).1
          v.creation_burst
      & tt,
)

ValidUdp-udp_tests : (limits : LimitConfig) → All Passes (udp_tests limits) ↔ ValidUdp limits
unfolding udp_tests is_duration is_port
ValidUdp-udp_tests limits = (
  λ h. record {
    packets = (between_lem 1 limits.udp_packets_per_second 65535).0 h.0;
    burst = (between_lem limits.udp_packets_per_second limits.udp_burst 65535).0 h.1.0;
    global_packets =
        (between_lem limits.udp_packets_per_second limits.udp_global_packets_per_second 1000000).0
          h.1.1.0;
    global_burst =
        (between_lem (max limits.udp_burst limits.udp_global_packets_per_second)
            limits.udp_global_burst 1000000).0
          h.1.1.1.0;
    violations = (between_lem 1 limits.udp_source_violation_burst 65535).0 h.1.1.1.1.0;
    sources = (between_lem 1 limits.udp_tracked_sources 1000000).0 h.1.1.1.1.1.0;
    servers = (between_lem 1 limits.reported_servers 1000000).0 h.1.1.1.1.1.1.0;
    nat_sessions = (between_lem 1 limits.nat_sessions 1000000).0 h.1.1.1.1.1.1.1.0;
  },
  λ v.
      (between_lem 1 limits.udp_packets_per_second 65535).1 v.packets
      & (between_lem limits.udp_packets_per_second limits.udp_burst 65535).1 v.burst
      & (between_lem limits.udp_packets_per_second limits.udp_global_packets_per_second 1000000).1
          v.global_packets
      & (between_lem (max limits.udp_burst limits.udp_global_packets_per_second)
            limits.udp_global_burst 1000000).1
          v.global_burst
      & (between_lem 1 limits.udp_source_violation_burst 65535).1 v.violations
      & (between_lem 1 limits.udp_tracked_sources 1000000).1 v.sources
      & (between_lem 1 limits.reported_servers 1000000).1 v.servers
      & (between_lem 1 limits.nat_sessions 1000000).1 v.nat_sessions
      & tt,
)

policy_lem :
    (policy : Text)
    → Passes (policy == text "direct" || policy == text "auto")
      ↔ ((policy ≡ text "direct") ⊎ (policy ≡ text "auto"))
policy_lem policy =
    let eq = list_eq {A = ℕ} in
    ground (arith, eq.beq_iff policy (text "direct"), eq.beq_iff policy (text "auto"))

ValidRelay-relay_tests :
    (relay : RelayConfig) (timeouts : TimeoutConfig)
    → All Passes (relay_tests relay timeouts) ↔ ValidRelay relay timeouts
unfolding relay_tests is_duration is_port
ValidRelay-relay_tests relay timeouts = (
  λ h. record {
    policy = (policy_lem relay.policy).0 h.0;
    fallback = (between_lem 100000000 relay.fallback_seconds 30000000000).0 h.1.0;
    session = (between_lem 10 relay.session_seconds 86400).0 h.1.1.0;
    packet = (between_lem 64 relay.packet_bytes 65507).0 h.1.1.1.0;
    rate = (between_lem 1024 relay.bytes_per_second 100000000).0 h.1.1.1.1.0;
    byte_burst = (between_lem relay.bytes_per_second relay.byte_burst 100000000).0 h.1.1.1.1.1.0;
    relays = (between_lem 1 relay.sessions 100000).0 h.1.1.1.1.1.1.0;
    drain = (between_lem 1 timeouts.drain_seconds 30).0 h.1.1.1.1.1.1.1.0;
    server_ttl = (between_lem 1 timeouts.reported_server_seconds 86400).0 h.1.1.1.1.1.1.1.1.0;
    session_ttl = (between_lem 1 timeouts.nat_session_seconds 86400).0 h.1.1.1.1.1.1.1.1.1.0;
    handshake = (between_lem 1 timeouts.peerchat_handshake_seconds 86400).0 h.1.1.1.1.1.1.1.1.1.1.0;
    expiry =
        (between_lem 1 timeouts.state_expiry_interval_seconds 86400).0 h.1.1.1.1.1.1.1.1.1.1.1.0;
    idle = (between_lem 1 timeouts.server_browser_idle_seconds 86400).0 h.1.1.1.1.1.1.1.1.1.1.1.1.0;
    entry = (between_lem 1 timeouts.rate_limit_entry_seconds 86400).0 h.1.1.1.1.1.1.1.1.1.1.1.1.1.0;
    ban = (between_lem 1 timeouts.udp_source_ban_seconds 86400).0 h.1.1.1.1.1.1.1.1.1.1.1.1.1.1.0;
  },
  λ v.
      (policy_lem relay.policy).1 v.policy
      & (between_lem 100000000 relay.fallback_seconds 30000000000).1 v.fallback
      & (between_lem 10 relay.session_seconds 86400).1 v.session
      & (between_lem 64 relay.packet_bytes 65507).1 v.packet
      & (between_lem 1024 relay.bytes_per_second 100000000).1 v.rate
      & (between_lem relay.bytes_per_second relay.byte_burst 100000000).1 v.byte_burst
      & (between_lem 1 relay.sessions 100000).1 v.relays
      & (between_lem 1 timeouts.drain_seconds 30).1 v.drain
      & (between_lem 1 timeouts.reported_server_seconds 86400).1 v.server_ttl
      & (between_lem 1 timeouts.nat_session_seconds 86400).1 v.session_ttl
      & (between_lem 1 timeouts.peerchat_handshake_seconds 86400).1 v.handshake
      & (between_lem 1 timeouts.state_expiry_interval_seconds 86400).1 v.expiry
      & (between_lem 1 timeouts.server_browser_idle_seconds 86400).1 v.idle
      & (between_lem 1 timeouts.rate_limit_entry_seconds 86400).1 v.entry
      & (between_lem 1 timeouts.udp_source_ban_seconds 86400).1 v.ban
      & tt,
)

ports_lem :
    (ports : PortConfig) (metrics : MetricsConfig)
    → Passes (
        not (
          metrics.port == ports.availability_qr_udp
          || metrics.port == ports.peerchat_tcp
          || metrics.port == ports.server_browser_tcp
          || metrics.port == ports.natneg_udp))
      ↔ (metrics.port ≢ ports.availability_qr_udp)
        × (metrics.port ≢ ports.peerchat_tcp)
        × (metrics.port ≢ ports.server_browser_tcp)
        × (metrics.port ≢ ports.natneg_udp)
ports_lem ports metrics = ground arith

loopback_lem : (o : Option Bool) → Passes (is_loopback_host o) ↔ (o ≡ some true)
unfolding is_loopback_host
loopback_lem none = ground arith
loopback_lem (some b) = ground arith

ValidPorts-port_tests :
    (loopback : Text → Option Bool) (game : GameConfig) (ports : PortConfig)
    (metrics : MetricsConfig)
    → All Passes (port_tests loopback game ports metrics) ↔ ValidPorts loopback game ports metrics
unfolding port_tests is_port
ValidPorts-port_tests loopback game ports metrics =
    let eq = list_eq {A = ℕ} in
    (
      λ h. record {
        name = (eq.beq_iff game.name (text "FruitNinjaand")).0 h.0;
        key_length = (nat_beq_iff (length game.secret_key) 6).0 h.1.0;
        qr_port = (between_lem 1 ports.availability_qr_udp 65535).0 h.1.1.0;
        chat_port = (between_lem 1 ports.peerchat_tcp 65535).0 h.1.1.1.0;
        browser_port = (between_lem 1 ports.server_browser_tcp 65535).0 h.1.1.1.1.0;
        natneg_port = (between_lem 1 ports.natneg_udp 65535).0 h.1.1.1.1.1.0;
        local = (loopback_lem (loopback metrics.bind_host)).0 h.1.1.1.1.1.1.0;
        metrics_port = (between_lem 1 metrics.port 65535).0 h.1.1.1.1.1.1.1.0;
        apart = (ports_lem ports metrics).0 h.1.1.1.1.1.1.1.1.0;
      },
      λ v.
          (eq.beq_iff game.name (text "FruitNinjaand")).1 v.name
          & (nat_beq_iff (length game.secret_key) 6).1 v.key_length
          & (between_lem 1 ports.availability_qr_udp 65535).1 v.qr_port
          & (between_lem 1 ports.peerchat_tcp 65535).1 v.chat_port
          & (between_lem 1 ports.server_browser_tcp 65535).1 v.browser_port
          & (between_lem 1 ports.natneg_udp 65535).1 v.natneg_port
          & (loopback_lem (loopback metrics.bind_host)).1 v.local
          & (between_lem 1 metrics.port 65535).1 v.metrics_port
          & (ports_lem ports metrics).1 v.apart
          & tt,
    )

split_append : (xs ys : List Bool) → All Passes (xs ++ ys) → All Passes xs × All Passes ys
split_append [] ys h = (tt, h)
split_append (x ∷ xs) ys h = let rest = split_append xs ys h.1 in ((h.0, rest.0), rest.1)

-- A configuration of natural numbers is accepted, as it is, exactly when every value is in its range:
-- the game's name and key length, the five ports, where the metrics' port is none of the other four,
-- which may coincide, and the metrics' address is a loopback one, the limits among each other, the
-- relay's and the timeouts.
pub load_config-IsValid :
    (loopback : Text → Option Bool) (raw : ServerConfig)
    → (load_config loopback raw ≡ ok raw) ↔ IsValid loopback raw
unfolding load_config
load_config-IsValid loopback raw =
    let first = port_tests loopback raw.game raw.ports raw.metrics in
    let second = connection_tests raw.limits in
    let third = udp_tests raw.limits in
    let last = relay_tests raw.relay raw.timeouts in
    let all = require_all_lem (first ++ (second ++ (third ++ last))) raw in
    (
      λ accepted.
          let apart = split_append first (second ++ (third ++ last)) (all.0 accepted) in
          let others = split_append second (third ++ last) apart.1 in
          let ends = split_append third last others.1 in
          record {
            ports = (ValidPorts-port_tests loopback raw.game raw.ports raw.metrics).0 apart.0;
            connections = (ValidConnections-connection_tests raw.limits).0 others.0;
            udp = (ValidUdp-udp_tests raw.limits).0 ends.0;
            relay = (ValidRelay-relay_tests raw.relay raw.timeouts).0 ends.1;
          },
      λ v. all.1 (
          All-append Passes first _
            ((ValidPorts-port_tests loopback raw.game raw.ports raw.metrics).1 v.ports)
            (All-append Passes second _
              ((ValidConnections-connection_tests raw.limits).1 v.connections)
              (All-append Passes third last ((ValidUdp-udp_tests raw.limits).1 v.udp)
                ((ValidRelay-relay_tests raw.relay raw.timeouts).1 v.relay)))),
    )
