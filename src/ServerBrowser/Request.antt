-- ===== src/ServerBrowser/Request.antt =====
-- The requests of a client, as they are read: the list request's fields, and the texts and numbers of
-- any request. Answer holds the list's answer, and Lookup the requests about one server.
pub mod Answer
pub mod Lookup
use fruitspy.Prelude.{
  Text, Bytes, ℕ, zero, suc, ◌+◌, ◌-◌, ◌*◌, ◌/◌, ◌%◌, Bool, true, false, ◌&&◌, ◌||◌, not, Option,
  none, some, List, [], ◌∷◌, ◌++◌, String, text, length, take, drop, get_or, ltb, leb,
  if◌then◌else◌, ◌==◌, nat_eq, list_eq, Result, ok, err, value_error, ◌>>=◌,
}
use fruitspy.Inet.{inet_ntoa, unpack_u16_be}
use fruitspy.Dict.{Dict}
use fruitspy.Metrics.{increment}
use fruitspy.State.{Address, address_eq, ReportedServer, ServerState, browser_endpoint}
use fruitspy.State.Servers.{active_servers}
use fruitspy.Crypto.EnctypeX
use fruitspy.Crypto.EnctypeX.Stream.{encrypt}
use fruitspy.ServerBrowser.{TextOps, ServerBrowser, count_metric, listed_servers}
use fruitspy.ServerBrowser.Entry.{server_entry, server_body, group_body}
use fruitspy.ServerBrowser.Subscription.{
  ServerListSubscription, current_entries, frame, push_server_message,
}

-- the length of the text before the first zero byte
zero_at : Bytes → Option ℕ
zero_at [] = none
zero_at (b ∷ rest) =
    let later = zero_at rest in
    if b == 0 then some 0 else elim later [ none ↦ none | some n ↦ some (n + 1) ]

-- _read_cstring(data, offset)
unfoldable pub read_cstring : TextOps → Bytes → ℕ → Result (Text × ℕ)
unfolding zero_at
read_cstring ops packet offset = elim (zero_at (drop offset packet)) [
  | none ↦ err value_error
  | some n ↦ ok (ops.decode (take n (drop offset packet)), offset + n + 1)
]

-- field_list.split("\\"), without the empty names; `seen` is the name so far
name_so_far : Text → List Text → List Text
name_so_far seen rest = if length seen == 0 then rest else seen ∷ rest

split_names : Text → Text → List Text
unfolding name_so_far
split_names seen [] = name_so_far seen []
split_names seen (c ∷ rest) =
    let apart = name_so_far seen (split_names [] rest) in
    let longer = split_names (seen ++ c ∷ []) rest in if c == b'\\' then apart else longer

-- _field_names(field_list)
unfoldable pub field_names : Text → List Text
unfolding split_names
field_names field_list = split_names [] field_list

-- what a list request says after its versions
pub record ListRequest : Type 0 where
  pub query_game : Text
  pub client_game : Text
  pub challenge : Bytes
  pub filter_text : Text
  pub field_list : Text
  pub options : ℕ

-- struct.unpack_from(">I", packet, offset)
unpack_u32 : Bytes → ℕ → ℕ
unpack_u32 packet offset = unpack_u16_be packet offset * 65536 + unpack_u16_be packet (offset + 2)

raise_unless : Bool → Result {0} Unit
raise_unless b = if b then ok tt else err value_error

-- the reads of a list request, from behind its versions
unfoldable pub read_request : TextOps → Bytes → Result ListRequest
unfolding unpack_u32 raise_unless
read_request ops packet = do
  _ ← raise_unless (leb 9 (length packet))
  (query_game, after_query) ← read_cstring ops packet 9
  (client_game, after_client) ← read_cstring ops packet after_query
  _ ← raise_unless (leb (after_client + 8) (length packet))
  (filter_text, after_filter) ← read_cstring ops packet (after_client + 8)
  (field_list, after_fields) ← read_cstring ops packet after_filter
  _ ← raise_unless (leb (after_fields + 4) (length packet))
  ok (record {
    query_game = query_game;
    client_game = client_game;
    challenge = take 8 (drop after_client packet);
    filter_text = filter_text;
    field_list = field_list;
    options = unpack_u32 packet after_fields;
  })

-- options & SEND_GROUPS, options & PUSH_UPDATES
unfoldable pub wants_groups : ListRequest → Bool
wants_groups request = request.options / 32 % 2 == 1

unfoldable pub wants_updates : ListRequest → Bool
wants_updates request = request.options / 4 % 2 == 1
