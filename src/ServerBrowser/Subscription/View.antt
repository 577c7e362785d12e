-- ===== src/ServerBrowser/Subscription/View.antt =====
-- What a subscriber sees: its own list, changed by each message, is the list of the server.
use fruitspy.Prelude.{
  Bytes, ℕ, ◌≡◌, refl, ap, ◌∙◌, Bool, true, false, ◌&&◌, ◌||◌, not, Option, none, some, List, [],
  ◌∷◌, ◌++◌, if◌then◌else◌, ◌==◌, nat_eq, list_eq, Result, ok, arith, ◌>>=◌, subst, bind-elim,
}
use fruitspy.Dict.{Dict, get, put, remove, contains, holds}
use fruitspy.Dict.Laws.{get-put, get-remove, Unique, put-Unique}
use fruitspy.State.{Address, address_eq, bytes_eq, ReportedServer}
use fruitspy.ServerBrowser.{TextOps, ServerBrowser, listed_servers}
use fruitspy.ServerBrowser.Entry.{is_given, server_entry}
use fruitspy.ServerBrowser.Subscription.{
  removed, updated, add_entries, current_entries, ServerListSubscription, subscription_frames,
  frames_for, frame, delete_frame, delete_frames, push_frames, push_server_message,
}

-- A message of the protocol: a server is gone, or it has this entry.
pub data Message : Type 0 where
  delete : Address → Message
  push : Address → Bytes → Message

-- The messages of an update, in the order of its frames.
unfoldable pub deletions : List Address → List Message
deletions [] = []
deletions (a ∷ rest) = delete a ∷ deletions rest

unfoldable pub pushes : Dict Address Bytes → List Message
pushes [] = []
pushes ((a, entry) ∷ rest) = push a entry ∷ pushes rest

unfoldable pub messages : Dict Address Bytes → Dict Address Bytes → List Message
messages known current = deletions (removed known current) ++ pushes (updated known current)

-- The subscriber's side.
unfoldable pub receive : List Message → Dict Address Bytes → Dict Address Bytes
receive [] view = view
receive (delete a ∷ rest) view = receive rest (remove a view)
receive (push a entry ∷ rest) view = receive rest (put a entry view)

receive-append :
    (ms ns : List Message) (view : Dict Address Bytes)
    → receive (ms ++ ns) view ≡ receive ns (receive ms view)
unfolding receive
receive-append [] ns view = refl
receive-append (delete a ∷ ms) ns view = receive-append ms ns (remove a view)
receive-append (push a entry ∷ ms) ns view = receive-append ms ns (put a entry view)

listed : Address → List Address → Bool
listed a [] = false
listed a (b ∷ rest) = b == a || listed a rest

get-deletions :
    (a : Address) (xs : List Address) (view : Dict Address Bytes)
    → get a (receive (deletions xs) view) ≡ (if listed a xs then none else get a view)
unfolding receive deletions listed
get-deletions a [] view = refl
get-deletions a (x ∷ xs) view =
    ground (arith, get-deletions a xs (remove x view), get-remove x a view)

or_else : Option Bytes → Option Bytes → Option Bytes
or_else none y = y
or_else (some x) y = some x

get-pushes :
    (a : Address) (us : Dict Address Bytes) (view : Dict Address Bytes)
    → Unique us
    → get a (receive (pushes us) view) ≡ or_else (get a us) (get a view)
unfolding receive pushes or_else get
get-pushes a [] view u = refl
get-pushes a ((x, entry) ∷ us) view u = ground (
  arith,
  get-pushes a us (put x entry view) u.1,
  get-put x a entry view,
  address_eq.beq_iff x a,
  u.0,
)

listed-removed :
    (a : Address) (known current : Dict Address Bytes)
    → listed a (removed known current) ≡ (contains a known && not (contains a current))
unfolding listed removed contains get
listed-removed a [] current = refl
listed-removed a ((x, entry) ∷ known) current =
    ground (arith, listed-removed a known current, address_eq.beq_iff x a)

changed : Option Bytes → Option Bytes → Option Bytes
changed none old = none
changed (some e) old = if holds e old then none else some e

get-updated :
    (a : Address) (known current : Dict Address Bytes)
    → Unique current
    → get a (updated known current) ≡ changed (get a current) (get a known)
unfolding updated get changed
get-updated a known [] u = refl
get-updated a known ((x, entry) ∷ current) u =
    ground (arith, get-updated a known current u.1, address_eq.beq_iff x a, u.0)

updated-Unique :
    (known current : Dict Address Bytes) → Unique current → Unique (updated known current)
unfolding updated changed
updated-Unique known [] u = tt
updated-Unique known ((x, entry) ∷ current) u =
    ground (arith, updated-Unique known current u.1, get-updated x known current u.1, u.0)

-- `add_entries` files each entry once.
add_entries-Unique :
    (ops : TextOps) (port : ℕ) (servers : List ReportedServer) (entries : Dict Address Bytes)
    {current : Dict Address Bytes}
    → Unique entries
    → add_entries ops port servers entries ≡ ok current
    → Unique current
unfolding add_entries
add_entries-Unique ops port [] entries u h = ground (arith, h, u)
add_entries-Unique ops port (server ∷ rest) entries {current} u h =
    bind-elim (server_entry ops port [] true server) _ (Unique current)
      (λ entry made next.
        add_entries-Unique ops port rest (put server.source entry entries)
          (put-Unique server.source entry entries u) next)
      h

-- What is left of an old entry and a new one.
merge_lem :
    (old new : Option Bytes)
    → or_else (changed new old) (if is_given old && not (is_given new) then none else old) ≡ new
unfolding or_else changed is_given holds
merge_lem none none = refl
merge_lem (some x) none = refl
merge_lem none (some y) = refl
merge_lem (some x) (some y) = ground (arith, bytes_eq.beq_iff y x, bytes_eq.beq_iff x y)

-- After the messages of an update the subscriber's list is the server's.
receive-messages :
    (known current : Dict Address Bytes)
    → Unique current
    → (a : Address) → get a (receive (messages known current) known) ≡ get a current
unfolding messages contains is_given
receive-messages known current u a =
    let split =
      receive-append (deletions (removed known current)) (pushes (updated known current)) known in
    let pushed =
      get-pushes a (updated known current) (receive (deletions (removed known current)) known)
        (updated-Unique known current u) in
    let dropped = get-deletions a (removed known current) known in
    ap (get a) split
    ∙ pushed
    ∙ ap (or_else (get a (updated known current)))
        (dropped ∙ ground (arith, listed-removed a known current))
    ∙ ap
        (λ o.
          or_else o (
            if is_given (get a known) && not (is_given (get a current)) then none else get a known))
        (get-updated a known current u)
    ∙ merge_lem (get a known) (get a current)

-- A message on the wire: its kind, and the address or the entry.
unfoldable pub message_frame : Message → Result Bytes
unfolding frame delete_frame
message_frame (delete source) = delete_frame source
message_frame (push source entry) = frame (push_server_message ∷ entry)

unfoldable pub message_frames : List Message → Result (List Bytes)
unfolding message_frame
message_frames [] = ok []
message_frames (m ∷ rest) = do
  first ← message_frame m
  frames ← message_frames rest
  ok (first ∷ frames)

message_frames-deletions : (xs : List Address) → message_frames (deletions xs) ≡ delete_frames xs
unfolding message_frames deletions delete_frames
message_frames-deletions [] = refl
message_frames-deletions (source ∷ xs) = rw (message_frames-deletions xs) refl

message_frames-pushes : (us : Dict Address Bytes) → message_frames (pushes us) ≡ push_frames us
unfolding message_frames pushes push_frames
message_frames-pushes [] = refl
message_frames-pushes ((a, entry) ∷ us) = rw (message_frames-pushes us) refl

message_frames-append :
    (ms ns : List Message) (first second : List Bytes)
    → message_frames ms ≡ ok first
    → message_frames ns ≡ ok second
    → message_frames (ms ++ ns) ≡ ok (first ++ second)
unfolding message_frames
message_frames-append [] ns first second h k = ground (arith, h, k)
message_frames-append (m ∷ ms) ns first second h k =
    let P = message_frames ((m ∷ ms) ++ ns) ≡ ok (first ++ second) in
    bind-elim (message_frame m) _ P
      (λ f made more.
        bind-elim (message_frames ms) _ P
          (λ fs others whole.
            rw made (rw (message_frames-append ms ns fs second others k) (ground (arith, whole))))
          more)
      h

Refines : ServerListSubscription → List Bytes → ServerListSubscription → Type 0
Refines sub frames next =
    (message_frames (messages sub.known_servers next.known_servers) ≡ ok frames)
    × ((a : Address)
        → get a (receive (messages sub.known_servers next.known_servers) sub.known_servers)
          ≡ get a next.known_servers)

updated-Refines :
    (sub : ServerListSubscription) (current : Dict Address Bytes) (gone new : List Bytes)
    → Unique current
    → delete_frames (removed sub.known_servers current) ≡ ok gone
    → push_frames (updated sub.known_servers current) ≡ ok new
    → Refines sub (gone ++ new) (record sub { known_servers = current })
unfolding Refines messages
updated-Refines sub current gone new u dels pushed = (
  message_frames-append (deletions (removed sub.known_servers current))
      (pushes (updated sub.known_servers current)) gone new
      (message_frames-deletions (removed sub.known_servers current) ∙ dels)
      (message_frames-pushes (updated sub.known_servers current) ∙ pushed),
  receive-messages sub.known_servers current u,
)

frames_for-Refines :
    (ops : TextOps) (port : ℕ) (servers : List ReportedServer) (sub : ServerListSubscription)
    (frames : List Bytes) (next : ServerListSubscription)
    → frames_for ops port servers sub ≡ ok (frames, next)
    → Refines sub frames next
unfolding frames_for current_entries messages
frames_for-Refines ops port servers sub frames next h =
    let P = Refines sub frames next in
    bind-elim (add_entries ops port servers []) _ P
      (λ current listed.
        bind-elim (delete_frames (removed sub.known_servers current)) _ P (λ gone dels.
          bind-elim (push_frames (updated sub.known_servers current)) _ P (λ new pushed whole.
            subst (λ (r : List Bytes × ServerListSubscription). Refines sub r.0 r.1) (cc)
              (updated-Refines sub current gone new
                (add_entries-Unique ops port servers [] tt listed) dels pushed))))
      h

-- The frames of an update, when it is made, are the messages between what the subscriber knew and
-- what it knows next; and a subscriber that applies them, each to the server of its source address,
-- has under every address what the service has noted.
pub subscription_frames-receive :
    (ops : TextOps) (now : ℕ) (sub : ServerListSubscription) (s : ServerBrowser)
    (frames : List Bytes) (next : ServerListSubscription)
    → (subscription_frames ops now sub s).0 ≡ ok (frames, next)
    → (message_frames (messages sub.known_servers next.known_servers) ≡ ok frames)
      × ((a : Address)
          → get a (receive (messages sub.known_servers next.known_servers) sub.known_servers)
            ≡ get a next.known_servers)
unfolding subscription_frames Refines
subscription_frames-receive ops now sub s frames next h =
    frames_for-Refines ops s.default_query_port
      (listed_servers ops now sub.query_game sub.filter_text s).0 sub frames next h
