-- ===== src/NatNeg/Packet.antt =====
-- The packets that NatNeg builds, and its bound on the size of answers.
use fruitspy.Prelude.{
  Bytes, ℕ, ◌+◌, Bool, List, [], ◌∷◌, ◌++◌, if◌then◌else◌, length, take, drop, set, replicate,
  Result, ok, os_error, ◌>>=◌, or_raise, ◌==◌,
}
use fruitspy.Inet.{inet_aton, pack_u16_be}
use fruitspy.Metrics.{increment}
use fruitspy.State.{Address, bytes_eq}
use fruitspy.UdpAdmission.{within_amplification_limit}
use fruitspy.NatNeg.{NatNeg, count_metric}

abbrev pub magic : Bytes
magic = 0xfd ∷ 0xfc ∷ 0x1e ∷ 0x66 ∷ 0x6a ∷ 0xb2 ∷ []

abbrev pub nn_init : ℕ
nn_init = 0

abbrev pub nn_init_ack : ℕ
nn_init_ack = 1

abbrev pub nn_ert_test : ℕ
nn_ert_test = 2

abbrev pub nn_connect : ℕ
nn_connect = 5

abbrev pub nn_connect_ack : ℕ
nn_connect_ack = 6

abbrev pub nn_connect_ping : ℕ
nn_connect_ping = 7

abbrev pub nn_address_check : ℕ
nn_address_check = 10

abbrev pub nn_address_reply : ℕ
nn_address_reply = 11

abbrev pub nn_natify_request : ℕ
nn_natify_request = 12

abbrev pub nn_report : ℕ
nn_report = 13

abbrev pub nn_report_ack : ℕ
nn_report_ack = 14

abbrev pub nn_preinit : ℕ
nn_preinit = 15

abbrev pub nn_preinit_ack : ℕ
nn_preinit_ack = 16

abbrev pub amplification_limit : ℕ
amplification_limit = 3

abbrev pub min_init_bytes : ℕ
min_init_bytes = 21

-- data.startswith(MAGIC), and data[:6] == MAGIC
unfoldable pub has_magic : Bytes → Bool
has_magic packet = take 6 packet == magic

-- _with_type(data, packet_type)
unfoldable pub with_type : Bytes → ℕ → Bytes
with_type packet packet_type = set packet 7 packet_type

-- reply[i:i + 4] = part, for a part of the slice's length
unfoldable pub splice : Bytes → ℕ → Bytes → Bytes
splice reply i part = take i reply ++ part ++ drop (i + length part) reply

-- _connect_packet(version, cookie, remote); an OSError is that of `inet_aton`
unfoldable pub connect_packet : ℕ → Bytes → Address → Result Bytes
connect_packet version cookie (host, port) = do
  quad ← or_raise os_error (inet_aton host)
  ok (magic ++ (version ∷ nn_connect ∷ []) ++ cookie ++ quad ++ pack_u16_be port ++ 0 ∷ 0 ∷ [])

-- _relay_ping_packet(version, cookie)
unfoldable pub relay_ping_packet : ℕ → Bytes → Bytes
relay_ping_packet version cookie =
    magic ++ (version ∷ nn_connect_ping ∷ []) ++ cookie ++ replicate 6 0 ++ 1 ∷ 0 ∷ []

-- sum(len(response) for response, _ in responses)
unfoldable pub total_bytes : List (Bytes × Address) → ℕ
total_bytes [] = 0
total_bytes ((response, destination) ∷ rest) = length response + total_bytes rest

-- _bounded_responses(request, responses, source)
unfoldable pub bounded_responses :
    Bytes → List (Bytes × Address) → NatNeg → List (Bytes × Address) × NatNeg
bounded_responses request responses s =
    if within_amplification_limit (length request) (total_bytes responses) amplification_limit 1
    then (responses, s)
    else (
      [],
      count_metric
          (increment "fruitspy_protocol_rejections_total"
            (("service", "natneg") ∷ ("reason", "amplification") ∷ []))
          s,
    )
