-- ===== src/Config.antt =====
-- `load_config` of server/fruitspy/config.py, from the parsed file on: the tests of its values. The
-- numbers of a file are naturals here, and `fallback_seconds` is in nanoseconds. Reading the file,
-- `json` and the fields' names are left out.
pub mod Ranges
pub mod Valid
use fruitspy.Prelude.{
  Text, ℕ, ◌+◌, ◌*◌, min, max, Bool, true, false, ◌&&◌, ◌||◌, not, Option, none, some, List, [],
  ◌∷◌, ◌++◌, length, text, leb, if◌then◌else◌, ◌==◌, nat_eq, list_eq, Result, ok, err, value_error,
}

pub record GameConfig : Type 0 where
  pub name : Text
  pub secret_key : Text
  pub default_query_port : ℕ
  pub server_browser_version : ℕ
  pub max_players : ℕ

pub record PortConfig : Type 0 where
  pub availability_qr_udp : ℕ
  pub peerchat_tcp : ℕ
  pub server_browser_tcp : ℕ
  pub natneg_udp : ℕ

pub record LimitConfig : Type 0 where
  pub peerchat_line_bytes : ℕ
  pub server_browser_frame_bytes : ℕ
  pub qr_packet_bytes : ℕ
  pub natneg_packet_bytes : ℕ
  pub peerchat_connections : ℕ
  pub peerchat_channels : ℕ
  pub peerchat_channels_per_client : ℕ
  pub peerchat_keys_per_collection : ℕ
  pub peerchat_commands_per_second : ℕ
  pub peerchat_command_burst : ℕ
  pub peerchat_state_creations_per_second : ℕ
  pub peerchat_state_creation_burst : ℕ
  pub server_browser_connections : ℕ
  pub connections_per_source : ℕ
  pub udp_packets_per_second : ℕ
  pub udp_burst : ℕ
  pub udp_global_packets_per_second : ℕ
  pub udp_global_burst : ℕ
  pub udp_source_violation_burst : ℕ
  pub udp_tracked_sources : ℕ
  pub reported_servers : ℕ
  pub nat_sessions : ℕ

pub record TimeoutConfig : Type 0 where
  pub reported_server_seconds : ℕ
  pub nat_session_seconds : ℕ
  pub peerchat_handshake_seconds : ℕ
  pub state_expiry_interval_seconds : ℕ
  pub server_browser_idle_seconds : ℕ
  pub rate_limit_entry_seconds : ℕ
  pub udp_source_ban_seconds : ℕ
  pub drain_seconds : ℕ

pub record RelayConfig : Type 0 where
  pub policy : Text
  pub fallback_seconds : ℕ
  pub session_seconds : ℕ
  pub packet_bytes : ℕ
  pub bytes_per_second : ℕ
  pub byte_burst : ℕ
  pub sessions : ℕ

pub record MetricsConfig : Type 0 where
  pub bind_host : Text
  pub port : ℕ

pub record ServerConfig : Type 0 where
  pub bind_host : Text
  pub game : GameConfig
  pub ports : PortConfig
  pub timeouts : TimeoutConfig
  pub limits : LimitConfig
  pub relay : RelayConfig
  pub metrics : MetricsConfig

-- low <= value <= high
unfoldable pub between : ℕ → ℕ → ℕ → Bool
between low value high = leb low value && leb value high

unfoldable pub is_port : ℕ → Bool
unfolding between
is_port value = between 1 value 65535

unfoldable pub is_duration : ℕ → Bool
unfolding between
is_duration value = between 1 value 86400

-- is_loopback of ipaddress.ip_address(host), where that is an address
is_loopback_host : Option Bool → Bool
is_loopback_host none = false
is_loopback_host (some loopback) = loopback

-- The tests, in the order of the code: the first that is false raises a ValueError. `loopback` is
-- `ipaddress.ip_address(host).is_loopback`, `none` for its ValueError.
unfoldable pub port_tests :
    (Text → Option Bool) → GameConfig → PortConfig → MetricsConfig → List Bool
unfolding is_loopback_host
port_tests loopback game ports metrics =
    (game.name == text "FruitNinjaand")
    ∷ (length game.secret_key == 6)
    ∷ is_port ports.availability_qr_udp
    ∷ is_port ports.peerchat_tcp
    ∷ is_port ports.server_browser_tcp
    ∷ is_port ports.natneg_udp
    ∷ is_loopback_host (loopback metrics.bind_host)
    ∷ is_port metrics.port
    ∷ not (
        metrics.port == ports.availability_qr_udp
        || metrics.port == ports.peerchat_tcp
        || metrics.port == ports.server_browser_tcp
        || metrics.port == ports.natneg_udp)
    ∷ []

unfoldable pub connection_tests : LimitConfig → List Bool
connection_tests limits =
    between 512 limits.peerchat_line_bytes 65535
    ∷ between 3 limits.server_browser_frame_bytes 65535
    ∷ between 64 limits.qr_packet_bytes 65507
    ∷ between 21 limits.natneg_packet_bytes 65507
    ∷ between 1 limits.peerchat_connections 65535
    ∷ between 1 limits.server_browser_connections 65535
    ∷ between 1 limits.connections_per_source
        (min limits.peerchat_connections limits.server_browser_connections)
    ∷ between 1 limits.peerchat_channels 1000000
    ∷ between 1 limits.peerchat_channels_per_client limits.peerchat_channels
    ∷ between 1 limits.peerchat_keys_per_collection 65535
    ∷ between 1 limits.peerchat_commands_per_second 65535
    ∷ between limits.peerchat_commands_per_second limits.peerchat_command_burst 65535
    ∷ between 1 limits.peerchat_state_creations_per_second 65535
    ∷ between limits.peerchat_state_creations_per_second limits.peerchat_state_creation_burst 65535
    ∷ []

unfoldable pub udp_tests : LimitConfig → List Bool
udp_tests limits =
    between 1 limits.udp_packets_per_second 65535
    ∷ between limits.udp_packets_per_second limits.udp_burst 65535
    ∷ between limits.udp_packets_per_second limits.udp_global_packets_per_second 1000000
    ∷ between (max limits.udp_burst limits.udp_global_packets_per_second) limits.udp_global_burst
        1000000
    ∷ between 1 limits.udp_source_violation_burst 65535
    ∷ between 1 limits.udp_tracked_sources 1000000
    ∷ between 1 limits.reported_servers 1000000
    ∷ between 1 limits.nat_sessions 1000000
    ∷ []

unfoldable pub relay_tests : RelayConfig → TimeoutConfig → List Bool
relay_tests relay timeouts =
    (relay.policy == text "direct" || relay.policy == text "auto")
    ∷ between 100000000 relay.fallback_seconds 30000000000
    ∷ between 10 relay.session_seconds 86400
    ∷ between 64 relay.packet_bytes 65507
    ∷ between 1024 relay.bytes_per_second 100000000
    ∷ between relay.bytes_per_second relay.byte_burst 100000000
    ∷ between 1 relay.sessions 100000
    ∷ between 1 timeouts.drain_seconds 30
    ∷ is_duration timeouts.reported_server_seconds
    ∷ is_duration timeouts.nat_session_seconds
    ∷ is_duration timeouts.peerchat_handshake_seconds
    ∷ is_duration timeouts.state_expiry_interval_seconds
    ∷ is_duration timeouts.server_browser_idle_seconds
    ∷ is_duration timeouts.rate_limit_entry_seconds
    ∷ is_duration timeouts.udp_source_ban_seconds
    ∷ []

unfoldable pub require_all : List Bool → ServerConfig → Result ServerConfig
require_all [] config = ok config
require_all (test ∷ rest) config =
    let later = require_all rest config in if test then later else err value_error

-- load_config(path), of the file's values
unfoldable pub load_config : (Text → Option Bool) → ServerConfig → Result ServerConfig
load_config loopback raw =
    require_all
      (port_tests loopback raw.game raw.ports raw.metrics
        ++ (connection_tests raw.limits
            ++ (udp_tests raw.limits ++ relay_tests raw.relay raw.timeouts)))
      raw
