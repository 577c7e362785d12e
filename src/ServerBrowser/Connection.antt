-- ===== src/ServerBrowser/Connection.antt =====
-- `handle`: a connection from its start to its end, as the steps between two reads of the socket.
-- `writes` are the blocks handed to the writer. A read that finds no data in time, or no data at all,
-- ends the frame early, so that a step is given the bytes that came.
pub mod Counts
pub mod Deck
pub mod Kept
pub mod Run
pub mod Counted
use fruitspy.Prelude.{
  Text, Bytes, ℕ, ◌+◌, ◌-◌, Bool, true, false, ◌&&◌, ◌||◌, not, Option, none, some, List, [], ◌∷◌,
  ◌++◌, length, take, get_or, ltb, leb, if◌then◌else◌, ◌==◌, nat_eq, list_eq, Error, Result, ok,
  err, value_error, and_then,
}
use fruitspy.Dict.{get, put}
use fruitspy.Metrics.{increment, set_gauge}
use fruitspy.State.{subscribe_server_changes, unsubscribe_server_changes}
use fruitspy.Drain.{is_draining}
use fruitspy.ConnectionAdmission.{acquire, release}
use fruitspy.Inet.{unpack_u16_be}
use fruitspy.Crypto.EnctypeX.Stream.{encrypt}
use fruitspy.ServerBrowser.{TextOps, ServerBrowser, count_metric}
use fruitspy.ServerBrowser.Subscription.{ServerListSubscription, subscription_frames}
use fruitspy.ServerBrowser.Request.Answer.{ListAnswer, handle_list_request}
use fruitspy.ServerBrowser.Request.Lookup.{handle_info_request, handle_send_message_request}

-- the locals of `handle`; `is_pushing` is false once the task of the changes has failed
pub record Connection : Type 0 where
  pub source : Text
  pub change_event : ℕ
  pub cipher : Option (List ℕ)
  pub subscription : Option ServerListSubscription
  pub is_pushing : Bool
  pub writes : List Bytes

-- self.metrics.set_gauge("fruitspy_server_browser_connections", self.admission.total)
gauge_connections : ServerBrowser → ServerBrowser
gauge_connections s =
    count_metric (set_gauge "fruitspy_server_browser_connections" s.admission.total) s

open_admitted : Text → Bool → ServerBrowser → Option Connection × ServerBrowser
unfolding gauge_connections
open_admitted source false s = (
  none,
  count_metric
      (increment "fruitspy_admission_rejections_total"
        (("service", "server_browser") ∷ ("reason", "connection_limit") ∷ []))
      s,
)
open_admitted source true s =
    let gauged = gauge_connections s in
    let (event, state) = subscribe_server_changes gauged.state in
    (
      some (record {
        source = source;
        change_event = event;
        cipher = none;
        subscription = none;
        is_pushing = true;
        writes = [];
      }),
      record gauged { state = state },
    )

-- `handle` up to its loop: `none` where the connection is closed at once
unfoldable pub open_connection : Text → ServerBrowser → Option Connection × ServerBrowser
unfolding open_admitted
open_connection source s =
    if is_draining s.drain
    then (
      none,
      count_metric
          (increment "fruitspy_protocol_rejections_total"
            (("service", "server_browser") ∷ ("reason", "draining") ∷ []))
          s,
    )
    else (let (admitted, admission) = acquire source s.admission in
        open_admitted source admitted (record s { admission = admission }))

keep_answer : Connection → ListAnswer → Connection
keep_answer c a = record c {
  cipher = a.cipher;
  subscription = a.subscription;
  writes = elim a.response [ none ↦ c.writes | some response ↦ c.writes ++ response ∷ [] ];
}

keep_entry : Connection → Option (Bytes × List ℕ) → Connection
keep_entry c none = c
keep_entry c (some (block, deck)) = record c { cipher = some deck; writes = c.writes ++ block ∷ [] }

-- a handler's result on the connection; an error leaves the connection as it was
with_result :
    {A : Type 0} → (A → Connection) → Result A × ServerBrowser → Result Connection × ServerBrowser
with_result f (ok a, s) = (ok (f a), s)
with_result f (err e, s) = (err e, s)

on_info :
    TextOps
    → ℕ
    → Bytes
    → Connection
    → Option (List ℕ)
    → ServerBrowser
    → Result Connection × ServerBrowser
unfolding with_result keep_entry
on_info ops now packet c none s = (ok c, s)
on_info ops now packet c (some deck) s =
    with_result (keep_entry c) (handle_info_request ops now packet deck s)

-- the request of a whole packet, by its type
unfoldable pub dispatch :
    TextOps
    → (ℕ → ℕ)
    → Bytes
    → Bytes
    → Bytes
    → Connection
    → ServerBrowser
    → Result Connection × ServerBrowser
unfolding on_info keep_answer
dispatch ops clock salt server_challenge packet c s =
    if get_or packet 2 0 == 0
    then with_result (keep_answer c)
        (handle_list_request ops clock salt server_challenge packet c.source s)
    else if get_or packet 2 0 == 1
    then on_info ops (clock 0) packet c c.cipher s
    else if get_or packet 2 0 == 2
    then with_result (λ (_ : Unit). c) (handle_send_message_request (clock 0) packet s)
    else (ok c, s)

-- one round of the loop, for a header of two bytes and what came after it; `late` says that the
-- frame's deadline passed while bytes were missing
unfoldable pub serve_frame :
    TextOps
    → (ℕ → ℕ)
    → Bytes
    → Bytes
    → Bytes
    → Bytes
    → Bool
    → Connection
    → ServerBrowser
    → Result Connection × ServerBrowser
serve_frame ops clock salt server_challenge header received late c s =
    let size = unpack_u16_be header 0 in
    let packet = header ++ take (size - 2) received in
    if not (leb 3 size && leb size s.frame_bytes)
    then (err value_error, s)
    else if (late && ltb (length received) (size - 2)) || ltb (length packet) 3
    then (err value_error, s)
    else dispatch ops clock salt server_challenge packet c s

-- writer.write(cipher.encrypt(frame)) for each of the frames
unfoldable pub write_frames : List Bytes → List ℕ → List Bytes → List ℕ × List Bytes
write_frames [] deck writes = (deck, writes)
write_frames (frame ∷ rest) deck writes =
    let (block, next) = encrypt deck frame in write_frames rest next (writes ++ block ∷ [])

push_result :
    Connection
    → List ℕ
    → Result (List Bytes × ServerListSubscription) × ServerBrowser
    → Connection × ServerBrowser
push_result c deck (err e, s) = (record c { is_pushing = false }, s)
push_result c deck (ok (frames, subscription), s) =
    let (next, writes) = write_frames frames deck c.writes in
    (record c { cipher = some next; subscription = some subscription; writes = writes }, s)

push_to :
    TextOps
    → ℕ
    → Connection
    → Option (List ℕ)
    → Option ServerListSubscription
    → ServerBrowser
    → Connection × ServerBrowser
unfolding push_result
push_to ops now c none subscription s = (c, s)
push_to ops now c (some deck) none s = (c, s)
push_to ops now c (some deck) (some subscription) s =
    push_result c deck (subscription_frames ops now subscription s)

is_set : Option Bool → Bool
is_set none = false
is_set (some flag) = flag

-- change_event.clear()
unfoldable pub clear_event : Connection → ServerBrowser → ServerBrowser
clear_event c s = record s {
  state = record s.state {
    server_change_events = put c.change_event false s.state.server_change_events;
  };
}

-- one round of `push_registered_servers`, when its event is set
unfoldable pub push_registered_servers :
    TextOps → ℕ → Connection → ServerBrowser → Connection × ServerBrowser
unfolding push_to is_set
push_registered_servers ops now c s =
    if c.is_pushing && is_set (get c.change_event s.state.server_change_events)
    then push_to ops now c c.cipher c.subscription (clear_event c s)
    else (c, s)

-- the metric of the end of the loop: only a ValueError has one
unfoldable pub count_error : Option Error → ServerBrowser → ServerBrowser
count_error (some value_error) s =
    count_metric
      (increment "fruitspy_protocol_rejections_total"
        (("service", "server_browser") ∷ ("reason", "malformed") ∷ []))
      s
count_error _ s = s

-- the end of `handle`, with the error that ended the loop
unfoldable pub close_connection : Option Error → Connection → ServerBrowser → ServerBrowser
unfolding gauge_connections
close_connection e c s =
    let counted = count_error e s in
    gauge_connections (record counted {
      state = unsubscribe_server_changes c.change_event counted.state;
      admission = release c.source counted.admission;
    })
