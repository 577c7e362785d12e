-- ===== src/ServerBrowser/Request/Answer.antt =====
-- The answer to a list request: its body, the subscription, and its encryption. An error keeps the
-- state that the code had reached. `clock` gives the readings of `active_servers`, the first at 0;
-- `salt` and `server_challenge` are what `secrets.token_bytes` gave.
pub mod Deciphered
use fruitspy.Prelude.{
  Text, Bytes, ℕ, zero, suc, ◌+◌, ◌-◌, ◌*◌, ◌/◌, ◌%◌, Bool, true, false, ◌&&◌, ◌||◌, not, Option,
  none, some, List, [], ◌∷◌, ◌++◌, String, text, length, take, drop, get_or, ltb, leb,
  if◌then◌else◌, ◌==◌, nat_eq, list_eq, Result, ok, err, value_error, ◌>>=◌,
}
use fruitspy.Inet.{inet_ntoa, unpack_u16_be}
use fruitspy.Dict.{Dict}
use fruitspy.Metrics.{increment}
use fruitspy.State.{Address, address_eq, ReportedServer, ServerState, browser_endpoint}
use fruitspy.State.Servers.{active_servers}
use fruitspy.Crypto.EnctypeX
use fruitspy.Crypto.EnctypeX.Stream.{encrypt}
use fruitspy.ServerBrowser.{TextOps, ServerBrowser, count_metric, listed_servers}
use fruitspy.ServerBrowser.Entry.{server_entry, server_body, group_body}
use fruitspy.ServerBrowser.Subscription.{
  ServerListSubscription, current_entries, frame, push_server_message,
}
use fruitspy.ServerBrowser.Request.{
  ListRequest, read_request, field_names, wants_groups, wants_updates,
}

-- the deck of a cipher; one is always made (`initialize-total`)
unfoldable pub deck_of : Option (List ℕ) → List ℕ
deck_of none = []
deck_of (some deck) = deck

-- header, of the two challenges
unfoldable pub response_header : Bytes → Bytes → Bytes
response_header salt server_challenge = 230 ∷ (0 ∷ 0 ∷ drop 2 salt) ++ 243 ∷ server_challenge

-- _encrypt_response(challenge, body)
unfoldable pub encrypt_response : Bytes → Bytes → Bytes → Bytes → Bytes → Result (Bytes × List ℕ)
unfolding deck_of
encrypt_response key salt server_challenge challenge body = do
  made ← EnctypeX.create key challenge server_challenge
  let answer = encrypt (deck_of made) body
  ok (response_header salt server_challenge ++ answer.0, answer.1)

-- the body of a list, with the number of its servers and the subscription
abbrev pub Listing : Type 0
Listing = Bytes × ℕ × Option ServerListSubscription

subscription_to :
    TextOps → ℕ → ListRequest → List ReportedServer → Result (Option ServerListSubscription)
subscription_to ops port request servers =
    if wants_updates request
    then (do
      known ← current_entries ops port servers
      ok (
          some (record {
            query_game = request.query_game;
            filter_text = request.filter_text;
            known_servers = known;
          })))
    else ok none

unfoldable pub list_body : TextOps → ℕ → Text → ListRequest → List ReportedServer → Result Listing
unfolding subscription_to wants_updates
list_body ops port source_ip request servers = do
  body ← server_body ops port source_ip (field_names request.field_list) servers
  subscription ← subscription_to ops port request servers
  ok (body, length servers, subscription)

-- a group query reads the active servers twice: for its body and for their number
unfoldable pub group_listing :
    (ℕ → ℕ) → Result Bytes → ServerState → ServerBrowser → Result Listing × ServerBrowser
group_listing clock (err e) first s = (err e, s)
group_listing clock (ok body) first s =
    let (again, second) = active_servers (clock 1) s.game_name first in
    (ok (body, length again, none), record s { state = second })

unfoldable pub listing :
    TextOps → (ℕ → ℕ) → Text → ListRequest → ServerBrowser → Result Listing × ServerBrowser
listing ops clock source_ip request s =
    if wants_groups request
    then (let (active, first) = active_servers (clock 0) s.game_name s.state in
        group_listing clock
          (group_body ops source_ip (field_names request.field_list) (length active)) first s)
    else (let (servers, next) =
          listed_servers ops (clock 0) request.query_game request.filter_text s in
        (list_body ops s.default_query_port source_ip request servers, next))

unfoldable pub is_accepted : ListRequest → ServerBrowser → Bool
is_accepted request s =
    (request.query_game == s.game_name || request.query_game == (s.game_name ++ text "am"))
    && request.client_game == s.game_name

-- what the service answers, and what the connection keeps
pub record ListAnswer : Type 0 where
  pub response : Option Bytes
  pub cipher : Option (List ℕ)
  pub subscription : Option ServerListSubscription

unfoldable pub answer_listing :
    TextOps
    → Bytes
    → Bytes
    → ListRequest
    → Result Listing × ServerBrowser
    → Result ListAnswer × ServerBrowser
answer_listing ops salt server_challenge request (err e, s) = (err e, s)
answer_listing ops salt server_challenge request (ok (body, servers, subscription), s) = (
  (do
    (response, cipher) ← encrypt_response s.secret_key salt server_challenge request.challenge body
    ok (record { response = some response; cipher = some cipher; subscription = subscription })),
  count_metric
      (increment "fruitspy_discovery_results_total"
        (("result", if servers == 0 then "empty" else "nonempty") ∷ []))
      s,
)

unfoldable pub answer_request :
    TextOps
    → (ℕ → ℕ)
    → Bytes
    → Bytes
    → Text
    → Result ListRequest
    → ServerBrowser
    → Result ListAnswer × ServerBrowser
answer_request ops clock salt server_challenge source_ip (err e) s = (err e, s)
answer_request ops clock salt server_challenge source_ip (ok request) s =
    if is_accepted request s
    then answer_listing ops salt server_challenge request (listing ops clock source_ip request s)
    else (
      ok (record {
        response = some (text "Query Error: Invalid gamename or clientname" ++ 0 ∷ []);
        cipher = none;
        subscription = none;
      }),
      count_metric (increment "fruitspy_discovery_results_total" (("result", "rejected") ∷ [])) s,
    )

unfoldable pub no_answer : ListAnswer
no_answer = record { response = none; cipher = none; subscription = none }

-- _handle_list_request(packet, source_ip)
unfoldable pub handle_list_request :
    TextOps
    → (ℕ → ℕ)
    → Bytes
    → Bytes
    → Bytes
    → Text
    → ServerBrowser
    → Result ListAnswer × ServerBrowser
handle_list_request ops clock salt server_challenge packet source_ip s =
    if ltb (length packet) 5 || not (get_or packet 2 0 == 0)
    then (ok no_answer, s)
    else if not (get_or packet 3 0 == 1) || not (get_or packet 4 0 == 3)
    then (err value_error, s)
    else answer_request ops clock salt server_challenge source_ip (read_request ops packet)
        (count_metric (increment "fruitspy_discovery_requests_total" (("kind", "list") ∷ [])) s)

-- handle_request(packet, source_ip)
unfoldable pub handle_request :
    TextOps
    → (ℕ → ℕ)
    → Bytes
    → Bytes
    → Bytes
    → Text
    → ServerBrowser
    → Result (Option Bytes) × ServerBrowser
handle_request ops clock salt server_challenge packet source_ip s =
    let (answered, next) = handle_list_request ops clock salt server_challenge packet source_ip s in
    ((do a ← answered; ok a.response), next)
