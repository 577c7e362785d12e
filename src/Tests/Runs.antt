-- ===== src/Tests/Runs.antt =====
-- Runs of the NAT negotiation service from its start.
use fruitspy.Prelude.{Bytes, ℕ, refl, [], ◌∷◌, ◌++◌, replicate}
use fruitspy.Clock.{seconds}
use fruitspy.UdpAdmission.{UdpAdmission, create_admission}
use fruitspy.Drain
use fruitspy.NatNeg.{NatNeg}
use fruitspy.NatNeg.Receive.{connection_made, datagram_received}
use fruitspy.NatNeg.Relay.{forward_relay}
use fruitspy.NatNeg.Relay.Charge.{Forwarded}
use fruitspy.NatNeg.Relay.Forward.{IsPeer}
use fruitspy.NatNeg.Invariant.{IsSound}
use fruitspy.NatNeg.Invariant.Run.{
  datagram, transport_made, Reaches, here, next, started, reached-IsSound, reached_forward_lem,
}
use fruitspy.Tests.Sessions.{at_second, cookie, first_address, second_address}
use fruitspy.Tests.Relay.{config}

abbrev admission : UdpAdmission
admission = create_admission (at_second 0) 50 100 500 1000 100 60 20 30

abbrev start : NatNeg
start = started config 60 30 10 10 admission fruitspy.Drain.create

abbrev init_packet : ℕ → Bytes
init_packet index =
    0xfd ∷ 0xfc ∷ 0x1e ∷ 0x66 ∷ 0x6a ∷ 0xb2 ∷ 3 ∷ 0 ∷ cookie
    ++ 1 ∷ index ∷ 1 ∷ 10 ∷ 0 ∷ 0 ∷ 1 ∷ 19 ∷ 136 ∷ []

abbrev connected : NatNeg
connected = connection_made start

abbrev one_known : NatNeg
one_known = datagram_received (at_second 1) (init_packet 0) first_address connected

abbrev both_known : NatNeg
both_known = datagram_received (at_second 2) (init_packet 1) second_address one_known

paired : Reaches start both_known
paired =
    next
      (next (next here (transport_made refl))
        (datagram (at_second 1) (init_packet 0) first_address refl))
      (datagram (at_second 2) (init_packet 1) second_address refl)

reached-IsSound_example : IsSound both_known
reached-IsSound_example =
    reached-IsSound config 60 30 10 10 admission fruitspy.Drain.create both_known paired

abbrev game_packet : Bytes
game_packet = replicate 40 7

reached_forward_example :
    Forwarded game_packet
      (IsPeer both_known game_packet first_address)
      both_known
      (forward_relay game_packet first_address (seconds 8) both_known)
reached_forward_example =
    reached_forward_lem config 60 30 10 10 admission fruitspy.Drain.create both_known paired
      game_packet first_address (seconds 8)
