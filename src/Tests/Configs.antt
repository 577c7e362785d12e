-- ===== src/Tests/Configs.antt =====
-- The configuration that the repository ships.
use fruitspy.Prelude.{refl, Text, ◌*◌, ◌≡◌, ◌↔◌, Bool, true, some, Option, text, ok}
use fruitspy.Clock.{second}
use fruitspy.Config.{ServerConfig, load_config}
use fruitspy.Config.Ranges.{IsValid}
use fruitspy.UdpAdmission.{allow, allowed}
use fruitspy.UdpAdmission.Configured.{create_udp_admission, first_allowed}
use fruitspy.Tests.Sessions.{at_second}
use fruitspy.Config.Valid.{load_config-IsValid}

abbrev shipped : ServerConfig
shipped = record {
  bind_host = text "0.0.0.0";
  game = record {
    name = text "FruitNinjaand";
    secret_key = text "nNfhSl";
    default_query_port = 6500;
    server_browser_version = 1;
    max_players = 2;
  };
  ports = record {
    availability_qr_udp = 27900;
    peerchat_tcp = 6667;
    server_browser_tcp = 28910;
    natneg_udp = 27901;
  };
  timeouts = record {
    reported_server_seconds = 120;
    nat_session_seconds = 60;
    state_expiry_interval_seconds = 5;
    peerchat_handshake_seconds = 15;
    server_browser_idle_seconds = 30;
    rate_limit_entry_seconds = 120;
    udp_source_ban_seconds = 60;
    drain_seconds = 30;
  };
  limits = record {
    peerchat_line_bytes = 4096;
    server_browser_frame_bytes = 4096;
    qr_packet_bytes = 4096;
    natneg_packet_bytes = 512;
    peerchat_connections = 256;
    peerchat_channels = 1024;
    peerchat_channels_per_client = 16;
    peerchat_keys_per_collection = 64;
    peerchat_commands_per_second = 30;
    peerchat_command_burst = 60;
    peerchat_state_creations_per_second = 8;
    peerchat_state_creation_burst = 32;
    server_browser_connections = 128;
    connections_per_source = 16;
    udp_packets_per_second = 120;
    udp_burst = 240;
    udp_global_packets_per_second = 4096;
    udp_global_burst = 8192;
    udp_source_violation_burst = 30;
    udp_tracked_sources = 4096;
    reported_servers = 2048;
    nat_sessions = 4096;
  };
  relay = record {
    policy = text "auto";
    fallback_seconds = 3 * second;
    session_seconds = 900;
    packet_bytes = 4096;
    bytes_per_second = 262144;
    byte_burst = 524288;
    sessions = 1024;
  };
  metrics = record { bind_host = text "127.0.0.1"; port = 9108 };
}

abbrev every_loopback : Text → Option Bool
every_loopback host = some true

load_config-IsValid_example :
    (load_config every_loopback shipped ≡ ok shipped) ↔ IsValid every_loopback shipped
load_config-IsValid_example = load_config-IsValid every_loopback shipped

shipped_accepted : load_config every_loopback shipped ≡ ok shipped
unfolding load_config fruitspy.Config.require_all fruitspy.Config.port_tests fruitspy.Config.is_port
    fruitspy.Config.connection_tests fruitspy.Config.udp_tests fruitspy.Config.relay_tests
    fruitspy.Config.is_duration
shipped_accepted = refl

first_allowed_example :
    (allow (at_second 9) (text "192.0.2.1") (create_udp_admission (at_second 1) shipped)).0
    ≡ allowed
first_allowed_example =
    first_allowed every_loopback shipped (at_second 1) (at_second 9) (text "192.0.2.1")
      shipped_accepted
