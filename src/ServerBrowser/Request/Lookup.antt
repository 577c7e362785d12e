-- ===== src/ServerBrowser/Request/Lookup.antt =====
-- The requests about one server: its entry, for a client that has a cipher, and a message to it. The
-- message is noted in `relayed`; a failure of the socket is left out.
use fruitspy.Prelude.{
  Bytes, ℕ, Bool, true, not, Option, none, some, List, [], ◌∷◌, ◌++◌, length, take, drop, keep, leb,
  if◌then◌else◌, ◌==◌, nat_eq, list_eq, Result, ok, err, value_error, ◌>>=◌,
}
use fruitspy.Inet.{inet_ntoa, unpack_u16_be}
use fruitspy.Metrics.{increment}
use fruitspy.State.{Address, address_eq, ReportedServer, browser_endpoint}
use fruitspy.State.Servers.{active_servers}
use fruitspy.Crypto.EnctypeX.Stream.{encrypt}
use fruitspy.ServerBrowser.{TextOps, ServerBrowser, count_metric}
use fruitspy.ServerBrowser.Entry.{server_entry}
use fruitspy.ServerBrowser.Subscription.{frame, push_server_message}

has_endpoint : Address → ReportedServer → Bool
has_endpoint endpoint server = browser_endpoint server == endpoint

first_of : List ReportedServer → Option ReportedServer
first_of [] = none
first_of (server ∷ rest) = some server

-- the address that a packet names
unfoldable pub named_endpoint : Bytes → Address
named_endpoint packet = (inet_ntoa (take 4 (drop 3 packet)), unpack_u16_be packet 7)

-- the first active server with an endpoint, and the state that `active_servers` leaves
unfoldable pub find_server : ℕ → Address → ServerBrowser → Option ReportedServer × ServerBrowser
unfolding has_endpoint first_of
find_server now endpoint s =
    let (active, state) = active_servers now s.game_name s.state in
    (first_of (keep (has_endpoint endpoint) active), record s { state = state })

unfoldable pub info_answer :
    TextOps → ℕ → List ℕ → Option ReportedServer → Result (Option (Bytes × List ℕ))
info_answer ops port deck none = ok none
info_answer ops port deck (some server) = do
  entry ← server_entry ops port [] true server
  whole ← frame (push_server_message ∷ entry)
  ok (some (encrypt deck whole))

-- _handle_info_request(packet, cipher): what is sent, with the deck after it
unfoldable pub handle_info_request :
    TextOps → ℕ → Bytes → List ℕ → ServerBrowser → Result (Option (Bytes × List ℕ)) × ServerBrowser
handle_info_request ops now packet deck s =
    if not (length packet == 9)
    then (err value_error, s)
    else (let (server, next) = find_server now (named_endpoint packet) (
          count_metric (increment "fruitspy_discovery_requests_total" (("kind", "info") ∷ [])) s) in
        (info_answer ops s.default_query_port deck server, next))

-- the datagram to the server, or the ValueError of a target that is not registered
unfoldable pub relay_message :
    Bytes → Option ReportedServer → ServerBrowser → Result {0} Unit × ServerBrowser
relay_message payload none s = (err value_error, s)
relay_message payload (some server) s =
    (ok tt, record s { relayed = s.relayed ++ (payload, server.source) ∷ [] })

-- _handle_send_message_request(packet)
unfoldable pub handle_send_message_request :
    ℕ → Bytes → ServerBrowser → Result {0} Unit × ServerBrowser
handle_send_message_request now packet s =
    if leb (length packet) 9
    then (err value_error, s)
    else (let (server, next) = find_server now (named_endpoint packet) (
          count_metric (increment "fruitspy_discovery_requests_total" (("kind", "relay") ∷ []))
            s) in
        relay_message (drop 9 packet) server next)
