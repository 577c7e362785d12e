-- ===== src/Tests/Relay.antt =====
-- A relay from its activation to a forwarded datagram.
use fruitspy.Prelude.{◌≡◌, none, false, [], Bytes, ◌*◌, refl, text, nat_eq, replicate}
use fruitspy.Clock.{second, seconds}
use fruitspy.UdpAdmission.{create_admission}
use fruitspy.Drain
use fruitspy.NatNeg.{NatNeg, NatNegConfig, create}
use fruitspy.NatNeg.Packet.{relay_ping_packet, with_type, nn_address_check}
use fruitspy.NatNeg.Activate.{activate_relay}
use fruitspy.NatNeg.Activate.Opened.{activate_relay-HasRelays}
use fruitspy.NatNeg.Receive.{connection_made, connection_lost}
use fruitspy.NatNeg.Receive.Stopped.{connection_lost_lem}
use fruitspy.Dict.{get}
use fruitspy.State.{Address, address_eq}
use fruitspy.NatNeg.Relay.{handle_relay_ping, forward_relay}
use fruitspy.NatNeg.Relay.Finish.{
  HasRelays, create-HasRelays, SameRelays-HasRelays, handle_relay_ping-HasRelays,
}
use fruitspy.NatNeg.Relay.Ping.{Pinged, handle_relay_ping-Pinged}
use fruitspy.NatNeg.Relay.Charge.{Forwarded}
use fruitspy.NatNeg.Relay.Forward.{IsPeer, forward_relay_lem}
use fruitspy.NatNeg.Handle.{handle_datagram}
use fruitspy.NatNeg.Handle.Amplification.{IsWithin, handle_datagram-IsWithin}
use fruitspy.State.Sessions.Invariant.{HasSessions}
use fruitspy.Tests.Sessions.{
  at_second, cookie, two_peers, two_peers-HasSessions, first_address, second_address, third_address,
}

abbrev pub config : NatNegConfig
config = record {
  natneg_packet_bytes = 512;
  policy = text "auto";
  fallback = 3 * second;
  session_seconds = 300;
  packet_bytes = 1400;
  bytes_per_second = 1000;
  byte_burst = 2000;
  max_relays = 8;
}

abbrev started : NatNeg
started =
    create config two_peers (create_admission (at_second 0) 50 100 500 1000 100 60 20 30)
      fruitspy.Drain.create

abbrev connected : NatNeg
connected = connection_made started

abbrev relayed : NatNeg
relayed = activate_relay (at_second 5) cookie connected

connected-HasRelays : HasRelays connected
unfolding connection_made
connected-HasRelays =
    SameRelays-HasRelays started _
      (record { relays = refl; bindings = refl; config = refl; flag = refl })
      (create-HasRelays config two_peers _ _)

connected_sessions : HasSessions connected.state
unfolding connection_made create
connected_sessions = two_peers-HasSessions

activate_relay-HasRelays_example : HasRelays (activate_relay (at_second 5) cookie connected)
activate_relay-HasRelays_example =
    activate_relay-HasRelays (at_second 5) cookie connected connected_sessions connected-HasRelays

relayed-HasRelays : HasRelays relayed
relayed-HasRelays =
    activate_relay-HasRelays (at_second 5) cookie connected connected_sessions connected-HasRelays

abbrev ping : Bytes
ping = relay_ping_packet 3 cookie

abbrev half_ready : NatNeg
half_ready = (handle_relay_ping ping first_address (seconds 6) relayed).1

abbrev ready : NatNeg
ready = (handle_relay_ping ping second_address (seconds 7) half_ready).1

half_ready-HasRelays : HasRelays half_ready
half_ready-HasRelays =
    handle_relay_ping-HasRelays ping first_address (seconds 6) relayed relayed-HasRelays

handle_relay_ping-Pinged_example :
    Pinged ping second_address
      (seconds 7)
      half_ready
      (handle_relay_ping ping second_address (seconds 7) half_ready)
handle_relay_ping-Pinged_example =
    handle_relay_ping-Pinged ping second_address (seconds 7) half_ready

ready-HasRelays : HasRelays ready
ready-HasRelays =
    handle_relay_ping-HasRelays ping second_address (seconds 7) half_ready half_ready-HasRelays

abbrev game_packet : Bytes
game_packet = replicate 40 7

forward_relay_example :
    Forwarded game_packet
      (IsPeer ready game_packet first_address)
      ready
      (forward_relay game_packet first_address (seconds 8) ready)
forward_relay_example =
    forward_relay_lem game_packet first_address (seconds 8) ready ready-HasRelays

abbrev check_packet : Bytes
check_packet = with_type ping nn_address_check

handle_datagram-IsWithin_example :
    IsWithin check_packet (handle_datagram (at_second 9) check_packet third_address ready).0
handle_datagram-IsWithin_example =
    handle_datagram-IsWithin (at_second 9) check_packet third_address ready

connection_lost_example :
    ((connection_lost ready).relays ≡ [])
    × ((a : Address) → get a (connection_lost ready).relay_by_address ≡ none)
    × ((connection_lost ready).connected ≡ false)
connection_lost_example = connection_lost_lem ready ready-HasRelays
