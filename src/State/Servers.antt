-- ===== src/State/Servers.antt =====
-- The reported servers: report, registration, removal and the list of active ones.
-- The sites of `report_server` that read the clock: 0 in `expire`, 1 a new server's default, 2 the
-- server's `last_seen`.
pub mod Invariant
pub mod Registered
use fruitspy.Prelude.{
  Text, Bytes, ℕ, Bool, true, false, ◌&&◌, ◌||◌, not, Option, none, some, List, [], ◌∷◌, ◌++◌, ◌==◌,
  text, length, leb, ltb, keep, Result, ok, err, value_error, if◌then◌else◌, nat_eq,
}
use fruitspy.Dict.{Dict, get, put, remove, values}
use fruitspy.State.{
  Address, address_eq, bytes_eq, ReportedServer, ServerState, notify_server_change, update_metrics,
}
use fruitspy.State.Expiry.{expire}

-- remove_server(source) with the entry looked up
unfoldable pub remove_found : Address → Option ReportedServer → ServerState → ServerState
remove_found source none st = update_metrics st
remove_found source (some server) st =
    let dropped = record st { reported_servers = remove source st.reported_servers } in
    update_metrics (if server.registered then notify_server_change dropped else dropped)

-- remove_server(source)
unfoldable pub remove_server : Address → ServerState → ServerState
unfolding remove_found
remove_server source st = remove_found source (get source st.reported_servers) st

-- `a == b` of dictionaries: the same keys with the same values, in any order
unfoldable pub agree_on : Dict Text Text → Dict Text Text → Bool
agree_on [] d = true
agree_on ((k, v) ∷ rest) d = elim (get k d) [ none ↦ false | some w ↦ v == w ] && agree_on rest d

unfoldable pub same_keys : Dict Text Text → Dict Text Text → Bool
unfolding agree_on
same_keys a b = length a == length b && agree_on a b

is_removal : Dict Text Text → Bool
is_removal keys = elim (get (text "statechanged") keys) [ none ↦ false | some v ↦ v == text "2" ]

-- `report_server` from where the server's entry is at hand
unfoldable pub refresh_server :
    ℕ
    → Address
    → Bytes
    → Dict Text Text
    → ReportedServer
    → ServerState
    → ReportedServer × ServerState
unfolding is_removal
refresh_server now source instance_key keys server st =
    let changed = not (server.instance_key == instance_key) || not (same_keys server.keys keys) in
    let reported = record server { instance_key = instance_key; keys = keys; last_seen = now } in
    let stored = record st { reported_servers = put source reported st.reported_servers } in
    let told = if server.registered && changed then notify_server_change stored else stored in
    let kept = if is_removal keys then remove_server source told else told in
    (reported, update_metrics kept)

new_server : ℕ → Address → Bytes → ReportedServer
new_server now source instance_key = record {
  source = source;
  instance_key = instance_key;
  keys = [];
  challenge = [];
  registered = false;
  last_seen = now;
  registered_at = none;
}

-- report_server(source, instance_key, keys); the ValueError leaves the state expired
unfoldable pub report_found :
    (ℕ → ℕ)
    → Address
    → Bytes
    → Dict Text Text
    → Option ReportedServer
    → ServerState
    → Result ReportedServer × ServerState
unfolding new_server
report_found clock source instance_key keys (some server) st =
    let (reported, next) = refresh_server (clock 2) source instance_key keys server st in
    (ok reported, next)
report_found clock source instance_key keys none st =
    let expired = (expire (clock 0) st).1 in
    if leb expired.max_reported_servers (length expired.reported_servers)
    then (err value_error, expired)
    else (let (reported, next) =
          refresh_server (clock 2) source instance_key keys
            (new_server (clock 1) source instance_key) expired in
        (ok reported, next))

unfoldable pub report_server :
    (ℕ → ℕ) → Address → Bytes → Dict Text Text → ServerState → Result ReportedServer × ServerState
unfolding report_found
report_server clock source instance_key keys st =
    report_found clock source instance_key keys (get source st.reported_servers) st

-- register_server(source) with the entry looked up
unfoldable pub register_found :
    ℕ → Address → Option ReportedServer → ServerState → Option ReportedServer × ServerState
register_found now source none st = (none, st)
register_found now source (some server) st =
    if server.registered
    then (let seen = record server { last_seen = now } in
        (
          some seen,
          update_metrics (record st { reported_servers = put source seen st.reported_servers }),
        ))
    else (let seen = record server {
      registered = true;
      last_seen = now;
      registered_at = some now;
    } in
        (
          some seen,
          update_metrics (
              notify_server_change
                (record st { reported_servers = put source seen st.reported_servers })),
        ))

unfoldable pub register_server : ℕ → Address → ServerState → Option ReportedServer × ServerState
unfolding register_found
register_server now source st = register_found now source (get source st.reported_servers) st

-- `a <= b` of texts, and of addresses as tuples
unfoldable pub text_le : Text → Text → Bool
text_le [] b = true
text_le (x ∷ a) [] = false
text_le (x ∷ a) (y ∷ b) = ltb x y || (x == y && text_le a b)

unfoldable pub address_le : Address → Address → Bool
unfolding text_le
address_le (a, m) (b, n) = if a == b then leb m n else text_le a b

-- the sort key of `active_servers`: the time of registration, or infinity, then the address
unfoldable pub precedes : ReportedServer → ReportedServer → Bool
unfolding address_le
precedes a b = elim a.registered_at [
  | none ↦ elim b.registered_at [ none ↦ address_le a.source b.source | some _ ↦ false ]
  | some s ↦ elim b.registered_at [
    | none ↦ true
    | some t ↦ if s == t then address_le a.source b.source else ltb s t
  ]
]

-- sorted(servers, key=...), which is stable
unfoldable pub insert_sorted : ReportedServer → List ReportedServer → List ReportedServer
insert_sorted server [] = server ∷ []
insert_sorted server (x ∷ rest) =
    let later = insert_sorted server rest in
    if precedes server x then server ∷ x ∷ rest else x ∷ later

unfoldable pub sort_servers : List ReportedServer → List ReportedServer
sort_servers [] = []
sort_servers (server ∷ rest) = insert_sorted server (sort_servers rest)

-- server.keys.get("gamename") in {game_name, f"{game_name}am"}
unfoldable pub is_accepted_game : Text → Option Text → Bool
is_accepted_game game none = false
is_accepted_game game (some name) = name == game || name == (game ++ text "am")

unfoldable pub is_active : Text → ReportedServer → Bool
unfolding is_accepted_game
is_active game server =
    server.registered && is_accepted_game game (get (text "gamename") server.keys)

-- active_servers(game_name)
unfoldable pub active_servers : ℕ → Text → ServerState → List ReportedServer × ServerState
active_servers now game st =
    let expired = (expire now st).1 in
    (sort_servers (keep (is_active game) (values expired.reported_servers)), expired)
