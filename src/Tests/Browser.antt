-- ===== src/Tests/Browser.antt =====
-- The server browser with one registered server.
use fruitspy.Prelude.{
  Bool, false, Bytes, ◌≡◌, ◌≤◌, refl, true, none, some, List, [], ◌∷◌, ◌++◌, length, text,
  if◌then◌else◌, ◌==◌, nat_eq, Result, ok, err, All,
}
use fruitspy.Inet.{
  after_number, aton_parts, checked_u16_be, digit_in, digit_value, inet_aton, pack_u16_be,
  read_number, to_bytes_be, read_digits,
}
use fruitspy.Dict.{values, put, contains, holds, remove, retain, get}
use fruitspy.State.{
  create, update_metrics, browser_endpoint, count_registered, Address, address_eq, ServerState,
}
use fruitspy.Drain
use fruitspy.ConnectionAdmission
use fruitspy.ServerBrowser.{
  for_query, hold_clauses, holds_clause, is_listed, key_or, matches_filter, TextOps, ServerBrowser,
  listed_servers,
}
use fruitspy.ServerBrowser.Offered.{IsOffered, HasRoom}
use fruitspy.ServerBrowser.Listed.{listed_servers-IsOffered}
use fruitspy.ServerBrowser.Subscription.{
  frames_for, current_entries, add_entries, delete_frame, delete_frames, frame, push_frames,
  removed, updated, ServerListSubscription, subscription_frames,
}
use fruitspy.ServerBrowser.Subscription.View.{
  message_frames, messages, receive, subscription_frames-receive,
}
use fruitspy.State.Servers.{
  active_servers, sort_servers, insert_sorted, is_accepted_game, is_active,
}
use fruitspy.State.Expiry.{expire, any_dropped, drop_stale, keeps_server, keeps_session}
use fruitspy.ServerBrowser.Entry.{
  entry_flags, is_given, local_port, private_address, rules, server_entry,
}
use fruitspy.Tests.Sessions.{at_second, empty_state, first_address, third_address}

abbrev pub ops : TextOps
ops = record {
  decode = λ b. b;
  encode = λ t. t;
  decimal = λ t. if length t == 0 then none else some (read_digits 10 0 t).0;
  clauses = λ t. none;
  match_clause = λ t. none;
}

abbrev pub registered : ServerState
registered = record empty_state {
  server_change_events = (0, false) ∷ [];
  reported_servers =
      (
        first_address,
        record {
          source = first_address;
          instance_key = 1 ∷ 2 ∷ 3 ∷ 4 ∷ [];
          keys = (text "gamename", text "fruit") ∷ [];
          challenge = [];
          registered = true;
          last_seen = at_second 2 0;
          registered_at = some (at_second 2 0);
        },
      )
      ∷ [];
}

abbrev pub browser : ServerBrowser
browser = record {
  game_name = text "fruit";
  secret_key = text "secret";
  default_query_port = 6500;
  max_players = 2;
  frame_bytes = 4096;
  state = registered;
  drain = fruitspy.Drain.create;
  admission = fruitspy.ConnectionAdmission.create 10 2;
  relayed = [];
}

listed_servers-IsOffered_example :
    All
      (IsOffered ops browser.state (at_second 3 0) (text "fruit") [])
      (listed_servers ops (at_second 3 0) (text "fruit") [] browser).0
    × All
        (HasRoom ops 2)
        (listed_servers ops (at_second 3 0) (text "fruit" ++ text "am") [] browser).0
    × (length (listed_servers ops (at_second 3 0) (text "fruit" ++ text "am") [] browser).0 ≤ 1)
listed_servers-IsOffered_example =
    listed_servers-IsOffered ops (at_second 3 0) (text "fruit") [] browser

-- a subscriber that knows of a server which is gone
abbrev pub subscription : ServerListSubscription
subscription = record {
  query_game = text "fruit";
  filter_text = [];
  known_servers = (third_address, 1 ∷ 2 ∷ 3 ∷ []) ∷ [];
}

abbrev pub update : Result (List Bytes × ServerListSubscription)
update = (subscription_frames ops (at_second 3 0) subscription browser).0

abbrev pub or_none :
    Result (List Bytes × ServerListSubscription) → List Bytes × ServerListSubscription
or_none (ok u) = u
or_none (err e) = ([], subscription)

abbrev is_made : Result (List Bytes × ServerListSubscription) → Bool
is_made (ok u) = true
is_made (err e) = false

made_result :
    (r : Result (List Bytes × ServerListSubscription)) → is_made r ≡ true → r ≡ ok (or_none r)
made_result (ok u) h = refl
made_result (err e) h = cc

made_update_lem : is_made update ≡ true
unfolding subscription_frames frames_for current_entries add_entries listed_servers for_query
    active_servers sort_servers values expire get create update_metrics put contains holds remove
    retain after_number aton_parts checked_u16_be digit_in digit_value inet_aton pack_u16_be
    read_digits read_number to_bytes_be entry_flags is_given local_port private_address rules
    server_entry delete_frame delete_frames frame push_frames removed updated hold_clauses
    holds_clause is_listed key_or matches_filter any_dropped drop_stale keeps_server keeps_session
    insert_sorted is_accepted_game is_active browser_endpoint count_registered
made_update_lem = refl

pub update_made : update ≡ ok ((or_none update).0, (or_none update).1)
update_made = made_result update made_update_lem

subscription_frames-receive_example :
    (message_frames (messages subscription.known_servers (or_none update).1.known_servers)
      ≡ ok (or_none update).0)
    × ((a : Address)
        → get a (
            receive
              (messages subscription.known_servers (or_none update).1.known_servers)
              subscription.known_servers)
          ≡ get a (or_none update).1.known_servers)
subscription_frames-receive_example =
    subscription_frames-receive ops (at_second 3 0) subscription browser (or_none update).0
      (or_none update).1 update_made
