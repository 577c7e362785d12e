-- ===== src/Config/Ranges.antt =====
-- The ranges of the values of a configuration, and how they depend on each other.
use fruitspy.Prelude.{
  Text, ℕ, ◌≤◌, ◌≡◌, ◌≢◌, ◌⊎◌, min, max, Bool, true, Option, some, length, text, nat_eq, list_eq,
}
use fruitspy.Config.{
  GameConfig, PortConfig, LimitConfig, TimeoutConfig, RelayConfig, MetricsConfig, ServerConfig,
}

-- A number within two bounds.
abbrev pub Within : ℕ → ℕ → ℕ → Type 0
Within low value high = (low ≤ value) × (value ≤ high)

-- The limits on connections and on what clients say.
pub record ValidConnections (limits : LimitConfig) : Type 0 where
  pub line_bytes : Within 512 limits.peerchat_line_bytes 65535
  pub frame_bytes : Within 3 limits.server_browser_frame_bytes 65535
  pub qr_bytes : Within 64 limits.qr_packet_bytes 65507
  pub natneg_bytes : Within 21 limits.natneg_packet_bytes 65507
  pub chat_connections : Within 1 limits.peerchat_connections 65535
  pub browser_connections : Within 1 limits.server_browser_connections 65535
  pub source_connections :
      Within 1 limits.connections_per_source
        (min limits.peerchat_connections limits.server_browser_connections)
  pub channels : Within 1 limits.peerchat_channels 1000000
  pub client_channels : Within 1 limits.peerchat_channels_per_client limits.peerchat_channels
  pub keys : Within 1 limits.peerchat_keys_per_collection 65535
  pub commands : Within 1 limits.peerchat_commands_per_second 65535
  pub command_burst : Within limits.peerchat_commands_per_second limits.peerchat_command_burst 65535
  pub creations : Within 1 limits.peerchat_state_creations_per_second 65535
  pub creation_burst :
      Within limits.peerchat_state_creations_per_second limits.peerchat_state_creation_burst 65535

-- The limits on datagrams and on the shared state.
pub record ValidUdp (limits : LimitConfig) : Type 0 where
  pub packets : Within 1 limits.udp_packets_per_second 65535
  pub burst : Within limits.udp_packets_per_second limits.udp_burst 65535
  pub global_packets :
      Within limits.udp_packets_per_second limits.udp_global_packets_per_second 1000000
  pub global_burst :
      Within
        (max limits.udp_burst limits.udp_global_packets_per_second)
        limits.udp_global_burst
        1000000
  pub violations : Within 1 limits.udp_source_violation_burst 65535
  pub sources : Within 1 limits.udp_tracked_sources 1000000
  pub servers : Within 1 limits.reported_servers 1000000
  pub nat_sessions : Within 1 limits.nat_sessions 1000000

-- The relay, and the times.
pub record ValidRelay (relay : RelayConfig) (timeouts : TimeoutConfig) : Type 0 where
  pub policy : (relay.policy ≡ text "direct") ⊎ (relay.policy ≡ text "auto")
  pub fallback : Within 100000000 relay.fallback_seconds 30000000000
  pub session : Within 10 relay.session_seconds 86400
  pub packet : Within 64 relay.packet_bytes 65507
  pub rate : Within 1024 relay.bytes_per_second 100000000
  pub byte_burst : Within relay.bytes_per_second relay.byte_burst 100000000
  pub relays : Within 1 relay.sessions 100000
  pub drain : Within 1 timeouts.drain_seconds 30
  pub server_ttl : Within 1 timeouts.reported_server_seconds 86400
  pub session_ttl : Within 1 timeouts.nat_session_seconds 86400
  pub handshake : Within 1 timeouts.peerchat_handshake_seconds 86400
  pub expiry : Within 1 timeouts.state_expiry_interval_seconds 86400
  pub idle : Within 1 timeouts.server_browser_idle_seconds 86400
  pub entry : Within 1 timeouts.rate_limit_entry_seconds 86400
  pub ban : Within 1 timeouts.udp_source_ban_seconds 86400

-- The game, the ports, and the address of the metrics.
pub record ValidPorts (loopback : Text → Option Bool) (game : GameConfig) (ports : PortConfig)
    (metrics : MetricsConfig) : Type 0 where
  pub name : game.name ≡ text "FruitNinjaand"
  pub key_length : length game.secret_key ≡ 6
  pub local : loopback metrics.bind_host ≡ some true
  pub apart :
      (metrics.port ≢ ports.availability_qr_udp)
      × (metrics.port ≢ ports.peerchat_tcp)
      × (metrics.port ≢ ports.server_browser_tcp)
      × (metrics.port ≢ ports.natneg_udp)
  pub qr_port : Within 1 ports.availability_qr_udp 65535
  pub chat_port : Within 1 ports.peerchat_tcp 65535
  pub browser_port : Within 1 ports.server_browser_tcp 65535
  pub natneg_port : Within 1 ports.natneg_udp 65535
  pub metrics_port : Within 1 metrics.port 65535

-- Every part of a configuration within its ranges.
pub record IsValid (loopback : Text → Option Bool) (config : ServerConfig) : Type 0 where
  pub ports : ValidPorts loopback config.game config.ports config.metrics
  pub connections : ValidConnections config.limits
  pub udp : ValidUdp config.limits
  pub relay : ValidRelay config.relay config.timeouts
