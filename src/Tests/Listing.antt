-- ===== src/Tests/Listing.antt =====
-- A server that is listed, and an automatch host with a free place.
use mathlib.Core.List.{Memᴰ}
use fruitspy.Prelude.{◌≡◌, true, refl, some, [], ◌∷◌, ◌++◌, length, text, arith}
use fruitspy.Inet.{read_digits, digit_in, digit_value}
use fruitspy.Dict.{get}
use fruitspy.State.{create, address_eq, ReportedServer}
use fruitspy.ServerBrowser.{key_or, ServerBrowser, listed_servers}
use fruitspy.ServerBrowser.Offered.{IsOffered, HasRoom}
use fruitspy.ServerBrowser.Complete.{listed_servers-Mem, length-listed_servers}
use fruitspy.Tests.Browser.{ops, browser}
use fruitspy.Tests.Sessions.{at_second, first_address}

abbrev listed : ReportedServer
listed = record {
  source = first_address;
  instance_key = 1 ∷ 2 ∷ 3 ∷ 4 ∷ [];
  keys = (text "gamename", text "fruit") ∷ [];
  challenge = [];
  registered = true;
  last_seen = at_second 2 0;
  registered_at = some (at_second 2 0);
}

listed-IsOffered : IsOffered ops browser.state (at_second 3 0) (text "fruit") [] listed
unfolding create get
listed-IsOffered = record { seen = omega arith; registered = refl; game = refl; accepted = tt }

listed_servers-Mem_example :
    Memᴰ listed (listed_servers ops (at_second 3 0) (text "fruit") [] browser).0
unfolding get
listed_servers-Mem_example =
    listed_servers-Mem ops (at_second 3 0) first_address [] browser listed refl listed-IsOffered

abbrev host : ReportedServer
host = record listed {
  keys =
      (text "gamename", text "fruitam")
      ∷ (text "maxplayers", text "2")
      ∷ (text "numplayers", text "1")
      ∷ [];
}

abbrev with_host : ServerBrowser
with_host = record browser {
  state = record browser.state { reported_servers = (first_address, host) ∷ [] };
}

host-IsOffered : IsOffered ops with_host.state (at_second 3 0) (text "fruit" ++ text "am") [] host
unfolding create get
host-IsOffered = record { seen = omega arith; registered = refl; game = refl; accepted = tt }

host-HasRoom : HasRoom ops with_host.max_players host
unfolding key_or get read_digits digit_in digit_value
host-HasRoom = record { size = refl; players = 1; counted = refl; free = omega arith }

length-listed_servers_example :
    length (listed_servers ops (at_second 3 0) (text "fruit" ++ text "am") [] with_host).0 ≡ 1
unfolding get
length-listed_servers_example =
    length-listed_servers ops (at_second 3 0) first_address [] with_host host refl host-IsOffered
      host-HasRoom
