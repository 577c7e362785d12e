-- ===== src/Tests/Servers.antt =====
-- A server that is reported and registered.
use fruitspy.Prelude.{Text, [], ◌∷◌, text}
use fruitspy.Dict.{Dict, get}
use fruitspy.State.{ServerState, address_eq}
use fruitspy.State.Servers.{report_server, register_server}
use fruitspy.State.Servers.Invariant.{HasServers, create-HasServers, report_server-HasServers}
use fruitspy.State.Servers.Registered.{Registered, register_server-Registered}
use fruitspy.Tests.Sessions.{at_second, empty_state, first_address, second_address}

abbrev server_keys : Dict Text Text
server_keys = (text "gamename", text "worms") ∷ []

abbrev reported : ServerState
reported =
    (report_server (at_second 1) first_address (1 ∷ 2 ∷ 3 ∷ 4 ∷ []) server_keys empty_state).1

reported-HasServers : HasServers reported
reported-HasServers =
    report_server-HasServers (at_second 1) first_address (1 ∷ 2 ∷ 3 ∷ 4 ∷ []) server_keys
      empty_state (create-HasServers 60 30 10 10)

report_server-HasServers_example :
    HasServers
      (report_server (at_second 2) second_address (5 ∷ 6 ∷ 7 ∷ 8 ∷ []) server_keys reported).1
report_server-HasServers_example =
    report_server-HasServers (at_second 2) second_address (5 ∷ 6 ∷ 7 ∷ 8 ∷ []) server_keys reported
      reported-HasServers

register_server-Registered_example :
    Registered
      (at_second 3 0)
      (at_second 4 0)
      first_address
      (get first_address reported.reported_servers)
      reported
      (register_server (at_second 3 0) first_address reported)
register_server-Registered_example =
    register_server-Registered (at_second 3 0) (at_second 4 0) first_address reported
