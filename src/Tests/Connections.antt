-- ===== src/Tests/Connections.antt =====
-- A list request, an update on a connection, and connections that come and go.
use fruitspy.Prelude.{
  Text, Bool, false, ℕ, ◌≡◌, refl, true, none, some, List, [], ◌∷◌, ◌++◌, text, nat_eq, Result, ok,
  err, replicate,
}
use fruitspy.Inet.{
  after_number, aton_parts, checked_u16_be, digit_in, digit_value, inet_aton, pack_u16_be,
  read_number, to_bytes_be, read_digits,
}
use fruitspy.Dict.{values, put, contains, holds, remove, retain, get}
use fruitspy.State.{
  create, update_metrics, browser_endpoint, count_registered, Address, address_eq, ServerState,
}
use fruitspy.ServerBrowser.{
  for_query, hold_clauses, holds_clause, is_listed, key_or, matches_filter, TextOps, ServerBrowser,
  listed_servers,
}
use fruitspy.ServerBrowser.Subscription.{
  frames_for, current_entries, add_entries, delete_frame, delete_frames, frame, push_frames,
  removed, updated, subscription_frames,
}
use fruitspy.State.Servers.{
  active_servers, sort_servers, insert_sorted, is_accepted_game, is_active,
}
use fruitspy.State.Expiry.{expire, any_dropped, drop_stale, keeps_server, keeps_session}
use fruitspy.ServerBrowser.Entry.{
  entry_flags, is_given, local_port, private_address, rules, server_entry,
}
use fruitspy.Tests.Sessions.{at_second}
use fruitspy.ServerBrowser.Request.{ListRequest, wants_groups, wants_updates, field_names}
use fruitspy.ServerBrowser.Entry.{server_body, server_entries, response_prefix, field_headers}
use fruitspy.Inet.{checked_u16_le}
use fruitspy.ServerBrowser.Request.Answer.{
  ListAnswer, listing, list_body, answer_listing, answer_request, encrypt_response, is_accepted,
}
use fruitspy.Crypto.EnctypeX
use fruitspy.Crypto.{range_from}
use fruitspy.ServerBrowser.Request.Answer.Deciphered.{Answered, answer_request-Answered}
use fruitspy.ServerBrowser.Connection.{
  Connection, open_connection, clear_event, close_connection, push_registered_servers,
}
use fruitspy.ServerBrowser.Connection.Deck.{Pushed, push_registered_servers-Pushed}
use fruitspy.ServerBrowser.Connection.Run.{
  Service, opened, ended, Reaches, here, next, no_connections,
}
use fruitspy.ServerBrowser.Connection.Counted.{IsCounted}
use fruitspy.ServerBrowser.Connection.Counts.{reached-IsCounted}
use fruitspy.Tests.Browser.{ops, browser, subscription, update, or_none, update_made}

abbrev list_request : ListRequest
list_request = record {
  query_game = text "fruit";
  client_game = text "fruit";
  challenge = 1 ∷ 2 ∷ 3 ∷ 4 ∷ 5 ∷ 6 ∷ 7 ∷ 8 ∷ [];
  filter_text = [];
  field_list = text "hostname";
  options = 0;
}

abbrev answer : Result ListAnswer
answer =
    (answer_request ops (at_second 3) (replicate 10 7) (replicate 25 9) (text "1.2")
      (ok list_request) browser).0

abbrev answer_or_none : Result ListAnswer → ListAnswer
answer_or_none (ok a) = a
answer_or_none (err e) = record { response = none; cipher = none; subscription = none }

abbrev is_answered : Result ListAnswer → Bool
is_answered (ok a) = true
is_answered (err e) = false

is_answered_lem : (r : Result ListAnswer) → is_answered r ≡ true → r ≡ ok (answer_or_none r)
is_answered_lem (ok a) h = refl
is_answered_lem (err e) h = cc

made_answer_lem : is_answered answer ≡ true
unfolding answer_request is_accepted answer_listing encrypt_response listing list_body wants_groups
    wants_updates EnctypeX.create EnctypeX.initialize EnctypeX.shuffle EnctypeX.select
    EnctypeX.select_loop EnctypeX.step_cursor range_from EnctypeX.mix EnctypeX.mix_at
    EnctypeX.selected_by EnctypeX.mask_of fruitspy.Crypto.swap server_body server_entries
    response_prefix field_headers checked_u16_le field_names subscription_frames frames_for
    current_entries add_entries listed_servers for_query active_servers sort_servers values expire
    get create update_metrics put contains holds remove retain after_number aton_parts
    checked_u16_be digit_in digit_value inet_aton pack_u16_be read_digits read_number to_bytes_be
    entry_flags is_given local_port private_address rules server_entry delete_frame delete_frames
    frame push_frames removed updated hold_clauses holds_clause is_listed key_or matches_filter
    any_dropped drop_stale keeps_server keeps_session insert_sorted is_accepted_game is_active
    browser_endpoint count_registered
made_answer_lem = refl

list_request_accepted : is_accepted list_request browser ≡ true
unfolding is_accepted
list_request_accepted = refl

answer_request-Answered_example :
    Answered browser.secret_key
      (replicate 10 7)
      (replicate 25 9)
      list_request.challenge
      (listing ops (at_second 3) (text "1.2") list_request browser).0
      (answer_or_none answer)
answer_request-Answered_example =
    answer_request-Answered ops (at_second 3) (replicate 10 7) (replicate 25 9) (text "1.2")
      list_request browser (answer_or_none answer) list_request_accepted
      (is_answered_lem answer made_answer_lem)

abbrev deck : List ℕ
deck = range_from 0 256 ++ 1 ∷ 3 ∷ 5 ∷ 7 ∷ 9 ∷ []

abbrev connection : Connection
connection = record {
  source = text "192.0.2.9";
  change_event = 0;
  cipher = some deck;
  subscription = some subscription;
  is_pushing = true;
  writes = [];
}

abbrev changed : ServerBrowser
changed = record browser { state = record browser.state { server_change_events = (0, true) ∷ [] } }

event_set : get connection.change_event changed.state.server_change_events ≡ some true
unfolding get
event_set = refl

cleared_frames :
    (subscription_frames ops (at_second 3 0) subscription (clear_event connection changed)).0
    ≡ ok ((or_none update).0, (or_none update).1)
unfolding clear_event put
cleared_frames = update_made

push_registered_servers-Pushed_example :
    Pushed
      (or_none update).0
      deck
      (or_none update).1
      connection
      (push_registered_servers ops (at_second 3 0) connection changed).0
push_registered_servers-Pushed_example =
    push_registered_servers-Pushed ops (at_second 3 0) connection changed deck subscription
      (or_none update).1 (or_none update).0 refl refl refl event_set cleared_frames

abbrev source : Text
source = text "192.0.2.9"

abbrev connection_at : ℕ → Connection
connection_at event = record {
  source = source;
  change_event = event;
  cipher = none;
  subscription = none;
  is_pushing = true;
  writes = [];
}

abbrev idle : Service
idle = no_connections browser 10 2

abbrev one_open : Service
one_open = record {
  server = (open_connection source idle.server).1;
  connections = connection_at 0 ∷ [];
}

abbrev two_open : Service
two_open = record {
  server = (open_connection source one_open.server).1;
  connections = connection_at 1 ∷ connection_at 0 ∷ [];
}

abbrev one_left : Service
one_left = record {
  server = close_connection none (connection_at 0) two_open.server;
  connections = connection_at 1 ∷ [];
}

opened_first : open_connection source idle.server ≡ (some (connection_at 0), one_open.server)
unfolding open_connection no_connections fruitspy.Drain.is_draining fruitspy.Drain.create
    fruitspy.ConnectionAdmission.acquire fruitspy.ConnectionAdmission.create
    fruitspy.ConnectionAdmission.count get fruitspy.ServerBrowser.count_metric put
    fruitspy.State.subscribe_server_changes create
opened_first = refl

opened_second : open_connection source one_open.server ≡ (some (connection_at 1), two_open.server)
unfolding open_connection no_connections fruitspy.Drain.is_draining fruitspy.Drain.create
    fruitspy.ConnectionAdmission.acquire fruitspy.ConnectionAdmission.create
    fruitspy.ConnectionAdmission.count get fruitspy.ServerBrowser.count_metric put
    fruitspy.State.subscribe_server_changes create
opened_second = refl

coming_and_going : Reaches idle one_left
unfolding no_connections
coming_and_going =
    next
      (next (next here (opened source (connection_at 0) opened_first refl))
        (opened source (connection_at 1) opened_second refl))
      (ended (connection_at 1 ∷ []) [] (connection_at 0) refl refl refl)

reached-IsCounted_example : IsCounted one_left.server.admission one_left.connections
reached-IsCounted_example = reached-IsCounted browser 10 2 one_left coming_and_going
