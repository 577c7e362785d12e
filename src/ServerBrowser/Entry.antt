-- ===== src/ServerBrowser/Entry.antt =====
-- The bytes of a list: its prefix, one entry for each server, and the body for a group query.
use fruitspy.Prelude.{
  Text, Bytes, ℕ, zero, suc, ◌+◌, ◌/◌, ◌%◌, Bool, true, false, ◌&&◌, not, Option, none, some, List,
  [], ◌∷◌, ◌++◌, text, length, ltb, leb, if◌then◌else◌, ◌==◌, nat_eq, list_eq, Result, ok, os_error,
  or_raise, ◌>>=◌,
}
use fruitspy.Inet.{inet_aton, pack_u16_be, checked_u16_be, checked_u16_le}
use fruitspy.Dict.{Dict}
use fruitspy.State.{address_eq, ReportedServer, browser_endpoint}
use fruitspy.ServerBrowser.{TextOps, key_or}

abbrev pub private_ip_flag : ℕ
private_ip_flag = 2

abbrev pub connect_negotiate_flag : ℕ
connect_negotiate_flag = 4

abbrev pub nonstandard_port_flag : ℕ
nonstandard_port_flag = 16

abbrev pub nonstandard_private_port_flag : ℕ
nonstandard_private_port_flag = 32

abbrev pub has_keys_flag : ℕ
has_keys_flag = 64

abbrev pub has_full_rules_flag : ℕ
has_full_rules_flag = 128

-- struct.pack(">I", 1), and the end of every list
abbrev pub one_u32 : Bytes
one_u32 = 0 ∷ 0 ∷ 0 ∷ 1 ∷ []

abbrev pub list_end : Bytes
list_end = 0 ∷ 0xff ∷ 0xff ∷ 0xff ∷ 0xff ∷ []

unfoldable pub field_headers : TextOps → List Text → Bytes
field_headers ops [] = []
field_headers ops (name ∷ rest) = ops.encode name ++ 0 ∷ 0 ∷ field_headers ops rest

-- _response_prefix(source_ip, fields, query_port)
unfoldable pub response_prefix : TextOps → Text → List Text → ℕ → Result Bytes
response_prefix ops source_ip fields query_port = do
  quad ← or_raise os_error (inet_aton source_ip)
  port ← checked_u16_be query_port
  count ← checked_u16_le (length fields)
  ok (quad ++ port ++ count ++ field_headers ops fields)

-- an address of the server's own network, if it gives one that can be read
unfoldable pub private_address : ReportedServer → Option Bytes
private_address server =
    let host = key_or (text "localip0") [] server in
    if length host == 0 then none else inet_aton host

port_or : ℕ → Option ℕ → ℕ
port_or public none = public
port_or public (some port) = if leb 1 port && leb port 65535 then port else public

-- the port on the server's own network: the public one where it gives none between 1 and 65535
unfoldable pub local_port : TextOps → ℕ → ReportedServer → ℕ
unfolding port_or
local_port ops public_port server =
    port_or public_port (ops.decimal (key_or (text "localport") [] server))

unfoldable pub is_given {ℓ} : {A : Type ℓ} → Option A → Bool
is_given none = false
is_given (some _) = true

flag_if : Bool → ℕ → ℕ
flag_if b flag = if b then flag else 0

-- the flags: each is set at most once, so `|=` is a sum
unfoldable pub entry_flags : TextOps → ℕ → List Text → Bool → ReportedServer → ℕ
unfolding flag_if
entry_flags ops default_port fields full_rules server =
    let public_port = (browser_endpoint server).1 in
    (if full_rules then has_full_rules_flag else flag_if (not (length fields == 0)) has_keys_flag)
    + flag_if (not (key_or (text "natneg") (text "0") server == text "0")) connect_negotiate_flag
    + flag_if (not (public_port == default_port)) nonstandard_port_flag
    + flag_if (is_given (private_address server)) private_ip_flag
    + flag_if (not (local_port ops public_port server == default_port))
        nonstandard_private_port_flag

unfoldable pub rules : TextOps → Dict Text Text → Bytes
rules ops [] = []
rules ops ((key, value) ∷ rest) = ops.encode key ++ 0 ∷ ops.encode value ++ 0 ∷ rules ops rest

-- the value of a field: two are fixed
unfoldable pub field_value : ReportedServer → Text → Text
field_value server name =
    if name == text "country"
    then text "US"
    else if name == text "region"
    then text "1"
    else key_or name [] server

unfoldable pub field_values : TextOps → ReportedServer → List Text → Bytes
field_values ops server [] = []
field_values ops server (name ∷ rest) =
    0xff ∷ ops.encode (field_value server name) ++ 0 ∷ field_values ops server rest

bytes_or_none : Option Bytes → Bytes
bytes_or_none none = []
bytes_or_none (some b) = b

-- _server_entry(server, fields, full_rules=...)
unfoldable pub server_entry : TextOps → ℕ → List Text → Bool → ReportedServer → Result Bytes
unfolding bytes_or_none
server_entry ops default_port fields full_rules server = do
  let public_host = (browser_endpoint server).0
  let public_port = (browser_endpoint server).1
  let port = local_port ops public_port server
  quad ← or_raise os_error (inet_aton public_host)
  ok (
      (entry_flags ops default_port fields full_rules server ∷ quad)
      ++ (if public_port == default_port then [] else pack_u16_be public_port)
      ++ bytes_or_none (private_address server)
      ++ (if port == default_port then [] else pack_u16_be port)
      ++ (if full_rules then rules ops server.keys ++ 0 ∷ [] else field_values ops server fields))

-- the entries of the servers, one after the other
unfoldable pub server_entries : TextOps → ℕ → List Text → List ReportedServer → Result Bytes
server_entries ops default_port fields [] = ok []
server_entries ops default_port fields (server ∷ servers) = do
  entry ← server_entry ops default_port fields false server
  rest ← server_entries ops default_port fields servers
  ok (entry ++ rest)

-- _server_body(source_ip, fields, servers)
unfoldable pub server_body : TextOps → ℕ → Text → List Text → List ReportedServer → Result Bytes
server_body ops default_port source_ip fields servers = do
  prefix ← response_prefix ops source_ip fields default_port
  entries ← server_entries ops default_port fields servers
  ok (prefix ++ entries ++ list_end)

digits_of : ℕ → ℕ → Text
digits_of zero n = []
digits_of (suc fuel) n =
    let high = digits_of fuel (n / 10) in (if ltb n 10 then [] else high) ++ (b'0' + n % 10) ∷ []

-- str(n): a number has fewer digits than its value, and one more
unfoldable pub decimal_text : ℕ → Text
unfolding digits_of
decimal_text n = digits_of (n + 1) n

-- values.get(field, ""), of a group query
unfoldable pub group_value : ℕ → Text → Text
group_value servers name =
    if name == text "hostname"
    then text "Fruit Ninja LAN"
    else if name == text "numplayers"
    then text "0"
    else if name == text "numservers"
    then decimal_text servers
    else if name == text "numwaiting"
    then text "0"
    else if name == text "maxwaiting"
    then text "2"
    else []

unfoldable pub group_values : TextOps → ℕ → List Text → Bytes
group_values ops servers [] = []
group_values ops servers (name ∷ rest) =
    0xff ∷ ops.encode (group_value servers name) ++ 0 ∷ group_values ops servers rest

-- _group_body(source_ip, fields), for the number of active servers
unfoldable pub group_body : TextOps → Text → List Text → ℕ → Result Bytes
group_body ops source_ip fields servers = do
  prefix ← response_prefix ops source_ip fields 0
  ok (prefix ++ (has_keys_flag ∷ one_u32) ++ group_values ops servers fields ++ list_end)
