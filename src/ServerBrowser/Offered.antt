-- ===== src/ServerBrowser/Offered.antt =====
-- What the tests of a listing ask of a server, in terms of its keys, its registration and its age.
use fruitspy.Prelude.{
  Text, ℕ, ◌+◌, ◌≤◌, ◌<◌, ◌≡◌, refl, ap, ◌∙◌, true, List, [], ◌∷◌, text, All, if-elim, nat_eq,
  list_eq, arith, Option, none, some,
}
use fruitspy.Clock.{seconds}
use fruitspy.Dict.{Dict, get, values, retain}
use fruitspy.State.{Address, address_eq, ReportedServer, ServerState}
use fruitspy.State.Expiry.{keeps_server}
use fruitspy.State.Expiry.Kept.{keeps_server_lem}
use fruitspy.State.Servers.{is_active}
use fruitspy.ServerBrowser.{
  TextOps, is_listed, is_open, key_or, holds_clause, hold_clauses, filter_clauses, matches_filter,
  has_game, has_room_for,
}

-- A server that has been seen within the time to live, which is what `expire` keeps.
abbrev pub Fresh : ServerState → ℕ → ReportedServer → Type 0
Fresh st now server = now ≤ server.last_seen + seconds st.reported_server_ttl

pub retained-Fresh :
    (st : ServerState) (now : ℕ) (d : Dict Address ReportedServer)
    → All (Fresh st now) (values (retain (keeps_server st.reported_server_ttl now) d))
unfolding values retain
retained-Fresh st now [] = tt
retained-Fresh st now ((a, server) ∷ d) =
    if-elim (λ (kept : Dict Address ReportedServer). All (Fresh st now) (values kept))
      (keeps_server st.reported_server_ttl now server)
      (λ fresh. (keeps_server_lem st.reported_server_ttl now server fresh, retained-Fresh st now d))
      (λ stale. retained-Fresh st now d)

-- What a filter asks of a server: each clause that is understood names a key and its value.
abbrev pub MeetsClause : Option (Text × Text) → ReportedServer → Type 0
MeetsClause none server = Unit
MeetsClause (some (key, expected)) server = key_or key [] server ≡ expected

abbrev pub MeetsFilter : TextOps → Option (List Text) → ReportedServer → Type 0
MeetsFilter ops none server = Unit
MeetsFilter ops (some clauses) server =
    All (λ clause. MeetsClause (ops.match_clause clause) server) clauses

holds_clause-MeetsClause :
    (clause : Option (Text × Text)) (server : ReportedServer)
    → holds_clause clause server ≡ true
    → MeetsClause clause server
unfolding holds_clause
holds_clause-MeetsClause none server h = tt
holds_clause-MeetsClause (some (key, expected)) server h =
    ((list_eq {A = ℕ}).beq_iff (key_or key [] server) expected).0 h

hold_clauses-MeetsClause :
    (ops : TextOps) (clauses : List Text) (server : ReportedServer)
    → hold_clauses ops clauses server ≡ true
    → All (λ clause. MeetsClause (ops.match_clause clause) server) clauses
unfolding hold_clauses
hold_clauses-MeetsClause ops [] server h = tt
hold_clauses-MeetsClause ops (clause ∷ rest) server h = (
  holds_clause-MeetsClause (ops.match_clause clause) server (ground (arith, h)),
  hold_clauses-MeetsClause ops rest server (ground (arith, h)),
)

filter_clauses-MeetsFilter :
    (ops : TextOps) (clauses : Option (List Text)) (server : ReportedServer)
    → filter_clauses ops clauses server ≡ true
    → MeetsFilter ops clauses server
unfolding filter_clauses
filter_clauses-MeetsFilter ops none server h = tt
filter_clauses-MeetsFilter ops (some clauses) server h =
    hold_clauses-MeetsClause ops clauses server h

-- What holds of a server that a client is told of.
pub record IsOffered (ops : TextOps) (st : ServerState) (now : ℕ) (query_game filter_text : Text)
    (server : ReportedServer) : Type 0 where
  pub seen : now ≤ server.last_seen + seconds st.reported_server_ttl
  pub registered : server.registered ≡ true
  pub game : get (text "gamename") server.keys ≡ some query_game
  pub accepted : MeetsFilter ops (ops.clauses filter_text) server

-- A host of the given size with a free place.
pub record HasRoom (ops : TextOps) (limit : ℕ) (server : ReportedServer) : Type 0 where
  pub size : ops.decimal (key_or (text "maxplayers") [] server) ≡ some limit
  pub players : ℕ
  pub counted : ops.decimal (key_or (text "numplayers") (text "0") server) ≡ some players
  pub free : players < limit

has_game_lem :
    (query_game : Text) (o : Option Text) → has_game query_game o ≡ true → o ≡ some query_game
unfolding has_game
has_game_lem query_game none h = cc
has_game_lem query_game (some game) h = ap some (((list_eq {A = ℕ}).beq_iff game query_game).0 h)

pub chosen-IsOffered :
    (ops : TextOps) (st : ServerState) (now : ℕ) (game query_game filter_text : Text)
    (server : ReportedServer)
    → now ≤ server.last_seen + seconds st.reported_server_ttl
    → is_active game server ≡ true
    → is_listed ops query_game filter_text server ≡ true
    → IsOffered ops st now query_game filter_text server
unfolding is_active is_listed matches_filter
chosen-IsOffered ops st now game query_game filter_text server fresh active listed = record {
  seen = fresh;
  registered = ground (arith, active);
  game = has_game_lem query_game (get (text "gamename") server.keys) (ground (arith, listed));
  accepted =
      filter_clauses-MeetsFilter ops (ops.clauses filter_text) server (ground (arith, listed));
}

room_lem :
    (ops : TextOps) (limit : ℕ) (server : ReportedServer) (size players : Option ℕ)
    → ops.decimal (key_or (text "maxplayers") [] server) ≡ size
    → ops.decimal (key_or (text "numplayers") (text "0") server) ≡ players
    → has_room_for limit size players ≡ true
    → HasRoom ops limit server
unfolding has_room_for
room_lem ops limit server none players s p h = absurd (cc)
room_lem ops limit server (some m) none s p h = absurd (cc)
room_lem ops limit server (some m) (some n) s p h =
    let same : m ≡ limit = ground (arith, h) in
    record { size = s ∙ ap some same; players = n; counted = p; free = ground (arith, h) }

pub is_open-HasRoom :
    (ops : TextOps) (limit : ℕ) (server : ReportedServer)
    → is_open ops limit server ≡ true
    → HasRoom ops limit server
unfolding is_open
is_open-HasRoom ops limit server h = room_lem ops limit server _ _ refl refl h
