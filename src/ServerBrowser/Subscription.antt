-- ===== src/ServerBrowser/Subscription.antt =====
-- `_subscription_frames`: the frames that bring a subscriber's list up to date.
pub mod View
use fruitspy.Prelude.{
  Text, Bytes, ℕ, ◌+◌, Bool, true, false, not, Option, none, some, List, [], ◌∷◌, ◌++◌, length,
  if◌then◌else◌, ◌==◌, nat_eq, list_eq, Result, ok, err, os_error, or_raise, ◌>>=◌,
}
use fruitspy.Inet.{inet_aton, pack_u16_be, checked_u16_be}
use fruitspy.Dict.{Dict, get, put, contains, holds}
use fruitspy.State.{Address, address_eq, bytes_eq, ReportedServer}
use fruitspy.ServerBrowser.{TextOps, ServerBrowser, listed_servers}
use fruitspy.ServerBrowser.Entry.{server_entry}

abbrev pub push_server_message : ℕ
push_server_message = 2

abbrev pub delete_server_message : ℕ
delete_server_message = 4

-- what a subscriber has been told, by the servers' addresses
pub record ServerListSubscription : Type 0 where
  pub query_game : Text
  pub filter_text : Text
  pub known_servers : Dict Address Bytes

-- {server.source: self._server_entry(server, [], full_rules=True) for server in servers}, from the
-- entries that are there
unfoldable pub add_entries :
    TextOps → ℕ → List ReportedServer → Dict Address Bytes → Result (Dict Address Bytes)
add_entries ops default_port [] entries = ok entries
add_entries ops default_port (server ∷ rest) entries = do
  entry ← server_entry ops default_port [] true server
  add_entries ops default_port rest (put server.source entry entries)

unfoldable pub current_entries : TextOps → ℕ → List ReportedServer → Result (Dict Address Bytes)
current_entries ops default_port servers = add_entries ops default_port servers []

-- known_servers.keys() - current.keys(): a set, which the code takes in no fixed order, and which is
-- taken in the order of the known ones here
unfoldable pub removed : Dict Address Bytes → Dict Address Bytes → List Address
removed [] current = []
removed ((source, entry) ∷ known) current =
    let rest = removed known current in if contains source current then rest else source ∷ rest

-- the entries that are new or have changed
unfoldable pub updated : Dict Address Bytes → Dict Address Bytes → Dict Address Bytes
updated known [] = []
updated known ((source, entry) ∷ current) =
    let rest = updated known current in
    if holds entry (get source known) then rest else (source, entry) ∷ rest

-- struct.pack(">H", len(payload) + 2) + payload
unfoldable pub frame : Bytes → Result Bytes
frame payload = do size ← checked_u16_be (length payload + 2); ok (size ++ payload)

unfoldable pub delete_frame : Address → Result Bytes
unfolding frame
delete_frame (host, port) = do
  quad ← or_raise os_error (inet_aton host)
  frame (delete_server_message ∷ quad ++ pack_u16_be port)

unfoldable pub delete_frames : List Address → Result (List Bytes)
delete_frames [] = ok []
delete_frames (source ∷ rest) = do
  first ← delete_frame source
  frames ← delete_frames rest
  ok (first ∷ frames)

unfoldable pub push_frames : Dict Address Bytes → Result (List Bytes)
unfolding frame
push_frames [] = ok []
push_frames ((source, entry) ∷ rest) = do
  first ← frame (push_server_message ∷ entry)
  frames ← push_frames rest
  ok (first ∷ frames)

-- _subscription_frames(subscription), for the servers that are listed now
unfoldable pub frames_for :
    TextOps
    → ℕ
    → List ReportedServer
    → ServerListSubscription
    → Result (List Bytes × ServerListSubscription)
frames_for ops default_port servers subscription = do
  current ← current_entries ops default_port servers
  deletions ← delete_frames (removed subscription.known_servers current)
  pushes ← push_frames (updated subscription.known_servers current)
  ok (deletions ++ pushes, record subscription { known_servers = current })

unfoldable pub subscription_frames :
    TextOps
    → ℕ
    → ServerListSubscription
    → ServerBrowser
    → Result (List Bytes × ServerListSubscription) × ServerBrowser
subscription_frames ops now subscription s =
    let (servers, next) =
      listed_servers ops now subscription.query_game subscription.filter_text s in
    (frames_for ops s.default_query_port servers subscription, next)
