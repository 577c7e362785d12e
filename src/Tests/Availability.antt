-- ===== src/Tests/Availability.antt =====
-- Runs of the availability service.
use fruitspy.Prelude.{Text, Bytes, suc, ◌≡◌, true, some, [], ◌∷◌, ◌++◌, text, length}
use fruitspy.Drain
use fruitspy.UdpAdmission.{create_admission}
use fruitspy.AvailabilityQr.{AvailabilityQr, handle_datagram, packet_heartbeat}
use fruitspy.AvailabilityQr.Keys.{
  go_on, parse_loop, parse_qr_server_keys, parse_qr_server_keys-total,
}
use fruitspy.AvailabilityQr.Amplification.{IsWithin, qr_datagram-IsWithin}
use fruitspy.Tests.Sessions.{at_second, empty_state, first_address}

-- a decoding that is right for ASCII
abbrev ascii : Bytes → Text
ascii packet = packet

-- a heartbeat with one key
abbrev packet : Bytes
packet =
    packet_heartbeat ∷ 9 ∷ 9 ∷ 9 ∷ 9 ∷ text "gamename" ++ 0 ∷ text "wormsarmageddon" ++ 0 ∷ 0 ∷ []

abbrev service : AvailabilityQr
service = record {
  qr_packet_bytes = 512;
  game_name = text "wormsarmageddon";
  secret_key = text "secret";
  state = empty_state;
  udp_admission = create_admission (at_second 0) 50 100 500 1000 100 60 20 30;
  drain = fruitspy.Drain.create;
  connected = true;
  sent = [];
}

qr_datagram-IsWithin_example :
    IsWithin packet
      (handle_datagram ascii
        (at_second 3)
        (text "aaaaabbbbbcccccddddd")
        packet
        first_address
        service).0
qr_datagram-IsWithin_example =
    qr_datagram-IsWithin ascii (at_second 3) (text "aaaaabbbbbcccccddddd") packet first_address
      service

parse_qr_server_keys-total_example :
    parse_loop (suc (suc (length packet))) ascii packet (go_on [] 5)
    ≡ some (parse_qr_server_keys ascii packet 5)
parse_qr_server_keys-total_example = parse_qr_server_keys-total ascii packet 5
