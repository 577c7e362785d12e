-- ===== src/ServerBrowser.antt =====
-- `ServerBrowserServer` of server/fruitspy/server_browser.py: the TCP service that lists the game's
-- servers. This file holds its state and the choice of the servers to list; Entry, Request,
-- Subscription and Connection hold the rest. What the code takes from `str`, `bytes` and `re` in
-- ways that depend on Unicode is a `TextOps`.
pub mod Entry
pub mod Subscription
pub mod Request
pub mod Connection
pub mod Offered
pub mod Listed
pub mod Complete
use fruitspy.Prelude.{
  Text, Bytes, ℕ, ◌+◌, ◌<◌, Bool, true, false, ◌&&◌, ◌||◌, not, Option, none, some, List, [], ◌∷◌,
  ◌++◌, String, text, length, take, keep, ltb, leb, if◌then◌else◌, ◌==◌, nat_eq, list_eq,
}
use fruitspy.Dict.{Dict, get}
use fruitspy.Metrics.{MetricCall, increment, set_gauge, record_call}
use fruitspy.State.{Address, address_eq, ReportedServer, ServerState}
use fruitspy.State.Servers.{active_servers}
use fruitspy.Drain.{DrainController}
use fruitspy.ConnectionAdmission.{ConnectionAdmission}

-- The operations on texts: `bytes.decode("utf-8", "replace")` and `str.encode("utf-8")`; `decimal`
-- is `int(text)` where `text.isdecimal()`; `clauses` is `re.split(r"\s+(?:and|AND)\s+", ...)` of the
-- stripped filter, `none` where that is empty; `match_clause` is the full match of a clause, its two
-- groups with the second one stripped.
pub record TextOps : Type 0 where
  pub decode : Bytes → Text
  pub encode : Text → Bytes
  pub decimal : Text → Option ℕ
  pub clauses : Text → Option (List Text)
  pub match_clause : Text → Option (Text × Text)

-- the settings that the service reads, and its parts; `relayed` are the datagrams sent on behalf of
-- clients. The secret key is an ASCII text, so that its characters are the bytes of its encoding.
pub record ServerBrowser : Type 0 where
  pub game_name : Text
  pub secret_key : Text
  pub default_query_port : ℕ
  pub max_players : ℕ
  pub frame_bytes : ℕ
  pub state : ServerState
  pub drain : DrainController
  pub admission : ConnectionAdmission
  pub relayed : List (Bytes × Address)

unfoldable pub count_metric : MetricCall → ServerBrowser → ServerBrowser
count_metric c s = record s { state = record s.state { metrics = record_call c s.state.metrics } }

-- server.keys.get(key, default)
unfoldable pub key_or : Text → Text → ReportedServer → Text
key_or key default server = elim (get key server.keys) [ none ↦ default | some value ↦ value ]

-- the test of one clause: a clause that is not understood is passed over
unfoldable pub holds_clause : Option (Text × Text) → ReportedServer → Bool
holds_clause none server = true
holds_clause (some (key, expected)) server = key_or key [] server == expected

unfoldable pub hold_clauses : TextOps → List Text → ReportedServer → Bool
unfolding holds_clause
hold_clauses ops [] server = true
hold_clauses ops (clause ∷ rest) server =
    holds_clause (ops.match_clause clause) server && hold_clauses ops rest server

filter_clauses : TextOps → Option (List Text) → ReportedServer → Bool
filter_clauses ops none server = true
filter_clauses ops (some clauses) server = hold_clauses ops clauses server

-- _matches_filter(server, expression)
unfoldable pub matches_filter : TextOps → Text → ReportedServer → Bool
unfolding filter_clauses
matches_filter ops expression server = filter_clauses ops (ops.clauses expression) server

has_game : Text → Option Text → Bool
has_game query_game none = false
has_game query_game (some game) = game == query_game

-- the comprehension's test
unfoldable pub is_listed : TextOps → Text → Text → ReportedServer → Bool
unfolding has_game
is_listed ops query_game filter_text server =
    has_game query_game (get (text "gamename") server.keys) && matches_filter ops filter_text server

unfoldable pub has_room_for : ℕ → Option ℕ → Option ℕ → Bool
has_room_for limit none players = false
has_room_for limit (some max_players) none = false
has_room_for limit (some max_players) (some players) =
    max_players == limit && ltb players max_players

-- an automatch host of the game's size that is not full
unfoldable pub is_open : TextOps → ℕ → ReportedServer → Bool
unfolding has_room_for
is_open ops limit server =
    has_room_for limit (ops.decimal (key_or (text "maxplayers") [] server))
      (ops.decimal (key_or (text "numplayers") (text "0") server))

-- the end of `_listed_servers`: of automatch hosts, the first that is open
unfoldable pub for_query : TextOps → Text → Text → ℕ → List ReportedServer → List ReportedServer
for_query ops game_name query_game limit servers =
    if query_game == (game_name ++ text "am")
    then take 1 (keep (is_open ops limit) servers)
    else servers

-- _listed_servers(query_game, filter_text), with `now` the reading of `active_servers`
unfoldable pub listed_servers :
    TextOps → ℕ → Text → Text → ServerBrowser → List ReportedServer × ServerBrowser
listed_servers ops now query_game filter_text s =
    let (active, state) = active_servers now s.game_name s.state in
    (
      for_query ops s.game_name query_game s.max_players
          (keep (is_listed ops query_game filter_text) active),
      record s { state = state },
    )
