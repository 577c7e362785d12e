-- ===== src/ServerBrowser/Connection/Kept.antt =====
-- The requests of a connection leave the counts of connections alone, and the connection's source.
use fruitspy.Prelude.{
  value_error, Bool, Text, Bytes, ℕ, ◌≡◌, refl, ◌∙◌, Option, none, some, List, ◌++◌, length, leb,
  ltb, not, ◌&&◌, ◌||◌, get_or, if-elim, Result, ok, err, arith, nat_eq, list_eq, ◌==◌, take, ◌-◌,
}
use fruitspy.State.{ServerState}
use fruitspy.ServerBrowser.{TextOps, ServerBrowser, count_metric, listed_servers}
use fruitspy.Dict.{get}
use fruitspy.Inet.{unpack_u16_be}
use fruitspy.ServerBrowser.Subscription.{ServerListSubscription, subscription_frames}
use fruitspy.ServerBrowser.Request.{ListRequest, wants_groups, read_request}
use fruitspy.ServerBrowser.Request.Answer.{
  Listing, listing, group_listing, answer_listing, answer_request, handle_list_request, is_accepted,
}
use fruitspy.ServerBrowser.Request.Lookup.{
  find_server, relay_message, handle_info_request, handle_send_message_request,
}
use fruitspy.ServerBrowser.Connection.{
  Connection, dispatch, serve_frame, push_registered_servers, on_info, with_result, keep_answer,
  keep_entry, push_to, push_result, clear_event, is_set,
}

-- What a request leaves as it was.
abbrev Keeps : {A : Type 0} → ServerBrowser → A × ServerBrowser → Type 0
Keeps s r = r.1.admission ≡ s.admission

group_listing-Keeps :
    (clock : ℕ → ℕ) (body : Result Bytes) (first : ServerState) (s : ServerBrowser)
    → Keeps s (group_listing clock body first s)
unfolding group_listing
group_listing-Keeps clock (ok body) first s = refl
group_listing-Keeps clock (err e) first s = refl

listing-Keeps :
    (ops : TextOps) (clock : ℕ → ℕ) (source_ip : Text) (request : ListRequest) (s : ServerBrowser)
    → Keeps s (listing ops clock source_ip request s)
unfolding listing listed_servers
listing-Keeps ops clock source_ip request s =
    if-elim (Keeps s) (wants_groups request) (λ _. group_listing-Keeps clock _ _ s) (λ _. refl)

answer_listing-Keeps :
    (ops : TextOps) (salt server_challenge : Bytes) (request : ListRequest)
    (listed : Result Listing × ServerBrowser)
    → Keeps listed.1 (answer_listing ops salt server_challenge request listed)
unfolding answer_listing count_metric
answer_listing-Keeps ops salt server_challenge request (err e, s) = refl
answer_listing-Keeps ops salt server_challenge request (ok (body, servers, subscription), s) = refl

answer_request-Keeps :
    (ops : TextOps) (clock : ℕ → ℕ) (salt server_challenge : Bytes) (source_ip : Text)
    (read : Result ListRequest) (s : ServerBrowser)
    → Keeps s (answer_request ops clock salt server_challenge source_ip read s)
unfolding answer_request count_metric
answer_request-Keeps ops clock salt server_challenge source_ip (err e) s = refl
answer_request-Keeps ops clock salt server_challenge source_ip (ok request) s =
    if-elim (Keeps s) (is_accepted request s)
      (λ _.
        answer_listing-Keeps ops salt server_challenge request
          (listing ops clock source_ip request s)
        ∙ listing-Keeps ops clock source_ip request s)
      (λ _. refl)

handle_list_request-Keeps :
    (ops : TextOps) (clock : ℕ → ℕ) (salt server_challenge packet : Bytes) (source_ip : Text)
    (s : ServerBrowser)
    → Keeps s (handle_list_request ops clock salt server_challenge packet source_ip s)
unfolding handle_list_request count_metric
handle_list_request-Keeps ops clock salt server_challenge packet source_ip s =
    if-elim (Keeps s) (ltb (length packet) 5 || not (get_or packet 2 0 == 0)) (λ _. refl)
      (λ _.
        if-elim (Keeps s) (not (get_or packet 3 0 == 1) || not (get_or packet 4 0 == 3)) (λ _. refl)
          (λ _.
            answer_request-Keeps ops clock salt server_challenge source_ip (read_request ops packet)
              _))

handle_info_request-Keeps :
    (ops : TextOps) (now : ℕ) (packet : Bytes) (deck : List ℕ) (s : ServerBrowser)
    → Keeps s (handle_info_request ops now packet deck s)
unfolding handle_info_request count_metric find_server
handle_info_request-Keeps ops now packet deck s =
    if-elim (Keeps s) (not (length packet == 9)) (λ _. refl) (λ _. refl)

relay_message-Keeps :
    (payload : Bytes) (o : Option _) (s : ServerBrowser) → Keeps s (relay_message payload o s)
unfolding relay_message
relay_message-Keeps payload none s = refl
relay_message-Keeps payload (some server) s = refl

handle_send_message_request-Keeps :
    (now : ℕ) (packet : Bytes) (s : ServerBrowser)
    → Keeps s (handle_send_message_request now packet s)
unfolding handle_send_message_request count_metric find_server
handle_send_message_request-Keeps now packet s =
    if-elim (Keeps s) (leb (length packet) 9) (λ _. refl) (λ _. relay_message-Keeps _ _ _)

-- A step of the connection keeps the counts, and where it goes on, the connection's source.
pub record KeepsConnection (c : Connection) (s : ServerBrowser)
    (r : Result Connection × ServerBrowser) : Type 0 where
  pub keeps_admission : r.1.admission ≡ s.admission
  pub keeps_source : (next : Connection) → r.0 ≡ ok next → next.source ≡ c.source

ok-KeepsConnection :
    (c next : Connection) (s t : ServerBrowser)
    → t.admission ≡ s.admission
    → next.source ≡ c.source
    → KeepsConnection c s (ok next, t)
ok-KeepsConnection c next s t h k = record {
  keeps_admission = h;
  keeps_source = λ other e. ground (arith, e, k);
}

with_result-KeepsConnection :
    {A : Type 0} (c : Connection) (s : ServerBrowser) (f : A → Connection)
    (r : Result A × ServerBrowser)
    → ((a : A) → (f a).source ≡ c.source)
    → Keeps s r
    → KeepsConnection c s (with_result f r)
unfolding with_result
with_result-KeepsConnection c s f (ok a, t) same h = ok-KeepsConnection c (f a) s t h (same a)
with_result-KeepsConnection c s f (err e, t) same h = record {
  keeps_admission = h;
  keeps_source = λ next k. absurd (cc);
}

source-keep_entry :
    (c : Connection) (o : Option (Bytes × List ℕ)) → (keep_entry c o).source ≡ c.source
unfolding keep_entry
source-keep_entry c none = refl
source-keep_entry c (some (block, deck)) = refl

on_info-KeepsConnection :
    (ops : TextOps) (now : ℕ) (packet : Bytes) (c : Connection) (o : Option (List ℕ))
    (s : ServerBrowser)
    → KeepsConnection c s (on_info ops now packet c o s)
unfolding on_info
on_info-KeepsConnection ops now packet c none s = ok-KeepsConnection c c s s refl refl
on_info-KeepsConnection ops now packet c (some deck) s =
    with_result-KeepsConnection c s (keep_entry c) _ (source-keep_entry c)
      (handle_info_request-Keeps ops now packet deck s)

module _ (ops : TextOps) (clock : ℕ → ℕ) (salt server_challenge : Bytes) where
  dispatch-KeepsConnection :
      (packet : Bytes) (c : Connection) (s : ServerBrowser)
      → KeepsConnection c s (dispatch ops clock salt server_challenge packet c s)
  unfolding dispatch keep_answer
  dispatch-KeepsConnection packet c s =
      if-elim (KeepsConnection c s) (get_or packet 2 0 == 0)
        (λ _.
          with_result-KeepsConnection c s (keep_answer c) _ (λ a. refl)
            (handle_list_request-Keeps ops clock salt server_challenge packet c.source s))
        (λ _.
          if-elim (KeepsConnection c s) (get_or packet 2 0 == 1)
            (λ _. on_info-KeepsConnection ops (clock 0) packet c c.cipher s)
            (λ _.
              if-elim (KeepsConnection c s) (get_or packet 2 0 == 2)
                (λ _.
                  with_result-KeepsConnection c s (λ (_ : Unit). c) _ (λ a. refl)
                    (handle_send_message_request-Keeps (clock 0) packet s))
                (λ _. ok-KeepsConnection c c s s refl refl)))

  refused_frame : (c : Connection) (s : ServerBrowser) → KeepsConnection c s (err value_error, s)
  refused_frame c s = record { keeps_admission = refl; keeps_source = λ next k. absurd (cc) }

  pub serve_frame-KeepsConnection :
      (header received : Bytes) (late : Bool) (c : Connection) (s : ServerBrowser)
      → KeepsConnection c s (serve_frame ops clock salt server_challenge header received late c s)
  unfolding serve_frame
  serve_frame-KeepsConnection header received late c s =
      let size = unpack_u16_be header 0 in
      if-elim (KeepsConnection c s) (not (leb 3 size && leb size s.frame_bytes))
        (λ _. refused_frame c s)
        (λ _.
          if-elim (KeepsConnection c s)
            ((late && ltb (length received) (size - 2))
              || ltb (length (header ++ take (size - 2) received)) 3)
            (λ _. refused_frame c s) (λ _. dispatch-KeepsConnection _ c s))

pub record KeepsPushed (c : Connection) (s : ServerBrowser) (r : Connection × ServerBrowser)
    : Type 0 where
  pub keeps_admission : r.1.admission ≡ s.admission
  pub keeps_source : r.0.source ≡ c.source

push_result-KeepsPushed :
    (c : Connection) (deck : List ℕ)
    (made : Result (List Bytes × ServerListSubscription) × ServerBrowser)
    → KeepsPushed c made.1 (push_result c deck made)
unfolding push_result
push_result-KeepsPushed c deck (err e, s) = record { keeps_admission = refl; keeps_source = refl }
push_result-KeepsPushed c deck (ok (frames, sub), s) = record {
  keeps_admission = refl;
  keeps_source = refl;
}

push_to-KeepsPushed :
    (ops : TextOps) (now : ℕ) (c : Connection) (o : Option (List ℕ))
    (sub : Option ServerListSubscription) (s : ServerBrowser)
    → KeepsPushed c s (push_to ops now c o sub s)
unfolding push_to subscription_frames listed_servers
push_to-KeepsPushed ops now c none sub s = record { keeps_admission = refl; keeps_source = refl }
push_to-KeepsPushed ops now c (some deck) none s = record {
  keeps_admission = refl;
  keeps_source = refl;
}
push_to-KeepsPushed ops now c (some deck) (some sub) s =
    let kept = push_result-KeepsPushed c deck (subscription_frames ops now sub s) in
    record { keeps_admission = kept.keeps_admission; keeps_source = kept.keeps_source }

pub push_registered_servers-KeepsPushed :
    (ops : TextOps) (now : ℕ) (c : Connection) (s : ServerBrowser)
    → KeepsPushed c s (push_registered_servers ops now c s)
unfolding push_registered_servers clear_event is_set
push_registered_servers-KeepsPushed ops now c s =
    if-elim (KeepsPushed c s)
      (c.is_pushing && is_set (get c.change_event s.state.server_change_events))
      (λ _.
        let pushed = push_to-KeepsPushed ops now c c.cipher c.subscription (clear_event c s) in
        record { keeps_admission = pushed.keeps_admission; keeps_source = pushed.keeps_source })
      (λ _. record { keeps_admission = refl; keeps_source = refl })
