-- ===== src/State/Servers/Invariant.antt =====
-- The reported servers stay within the configured number, each filed once and under its own source.
use fruitspy.Prelude.{
  Text, Bytes, ℕ, ◌≤◌, ◌≡◌, refl, sym, ◌∙◌, ◌&&◌, ◌||◌, not, Option, none, some, ◌==◌, nat_eq,
  arith, length, All, leb, Result, if◌then◌else◌, if-elim,
}
use fruitspy.Dict.{Dict, get, put, remove}
use fruitspy.Dict.Laws.{
  All-put, All-remove, All-retain, length-put_old, length-put-le, All-get, length-remove-le,
  length-retain-le, Unique, put-Unique, remove-Unique, retain-Unique,
}
use fruitspy.State.{
  create, Address, address_eq, bytes_eq, ReportedServer, ServerState, notify_server_change,
  update_metrics,
}
use fruitspy.State.Expiry.{expire, keeps_server}
use fruitspy.State.Expiry.Kept.{servers-expire, limits-expire}
use fruitspy.State.Servers.{
  report_server, report_found, refresh_server, new_server, is_removal, same_keys, remove_server,
  remove_found,
}

abbrev pub ServerEntry : Address × ReportedServer → Type 0
ServerEntry (source, server) = server.source ≡ source

pub record HasServers (st : ServerState) : Type 0 where
  pub within : length st.reported_servers ≤ st.max_reported_servers
  pub one_each : Unique st.reported_servers
  pub filed : All ServerEntry st.reported_servers

-- A state with the same reported servers and limit.
record SameServers (s t : ServerState) : Type 0 where
  servers : t.reported_servers ≡ s.reported_servers
  limit : t.max_reported_servers ≡ s.max_reported_servers

SameServers-HasServers : (s t : ServerState) → SameServers s t → HasServers s → HasServers t
SameServers-HasServers s t e h = record {
  within = rw (e.servers, e.limit) h.within;
  one_each = rw e.servers h.one_each;
  filed = rw e.servers h.filed;
}

expire-HasServers : (now : ℕ) (st : ServerState) → HasServers st → HasServers (expire now st).1
expire-HasServers now st h =
    let keeps = keeps_server st.reported_server_ttl now in
    let kept = servers-expire now st in
    record {
      within =
          rw (kept, (limits-expire now st).0)
            (omega (arith, length-retain-le keeps st.reported_servers, h.within));
      one_each = rw kept (retain-Unique keeps st.reported_servers h.one_each);
      filed = rw kept (All-retain ServerEntry keeps st.reported_servers h.filed);
    }

update_metrics-HasServers : (st : ServerState) → HasServers st → HasServers (update_metrics st)
unfolding update_metrics
update_metrics-HasServers st h =
    SameServers-HasServers st _ (record { servers = refl; limit = refl }) h

notify-HasServers : (st : ServerState) → HasServers st → HasServers (notify_server_change st)
unfolding notify_server_change
notify-HasServers st h = SameServers-HasServers st _ (record { servers = refl; limit = refl }) h

remove_found-HasServers :
    (source : Address) (o : Option ReportedServer) (st : ServerState)
    → HasServers st
    → HasServers (remove_found source o st)
unfolding remove_found
remove_found-HasServers source none st h = update_metrics-HasServers st h
remove_found-HasServers source (some server) st h =
    let dropped = record st { reported_servers = remove source st.reported_servers } in
    let h' : HasServers dropped = record {
      within = omega (arith, length-remove-le source st.reported_servers, h.within);
      one_each = remove-Unique source st.reported_servers h.one_each;
      filed = All-remove ServerEntry source st.reported_servers h.filed;
    } in
    update_metrics-HasServers _
      (if-elim HasServers server.registered (λ told. notify-HasServers dropped h') (λ quiet. h'))

pub remove_server-HasServers :
    (source : Address) (st : ServerState) → HasServers st → HasServers (remove_server source st)
unfolding remove_server
remove_server-HasServers source st h = remove_found-HasServers source _ st h

-- A server of this source is stored: where there is room for it, or in place of the old one.
store-HasServers :
    (source : Address) (server : ReportedServer) (st : ServerState)
    → server.source ≡ source
    → length (put source server st.reported_servers) ≤ st.max_reported_servers
    → HasServers st
    → HasServers (record st { reported_servers = put source server st.reported_servers })
store-HasServers source server st own room h = record {
  within = room;
  one_each = put-Unique source server st.reported_servers h.one_each;
  filed = All-put ServerEntry source server st.reported_servers (λ j same. own ∙ sym same) h.filed;
}

refresh-HasServers :
    (now : ℕ) (source : Address) (instance_key : Bytes) (keys : Dict Text Text)
    (server : ReportedServer) (st : ServerState)
    → server.source ≡ source
    → ((x : ReportedServer) → length (put source x st.reported_servers) ≤ st.max_reported_servers)
    → HasServers st
    → HasServers (refresh_server now source instance_key keys server st).1
unfolding refresh_server
refresh-HasServers now source instance_key keys server st own room h =
    let reported = record server { instance_key = instance_key; keys = keys; last_seen = now } in
    let stored = record st { reported_servers = put source reported st.reported_servers } in
    let h' = store-HasServers source reported st own (room reported) h in
    let changed = not (server.instance_key == instance_key) || not (same_keys server.keys keys) in
    let told = if server.registered && changed then notify_server_change stored else stored in
    let h'' : HasServers told =
      if-elim HasServers (server.registered && changed) (λ yes. notify-HasServers stored h')
        (λ no. h') in
    update_metrics-HasServers _ (
      if-elim HasServers (is_removal keys) (λ gone. remove_server-HasServers source told h'')
        (λ stays. h''))

report_found-HasServers :
    (clock : ℕ → ℕ) (source : Address) (instance_key : Bytes) (keys : Dict Text Text)
    (o : Option ReportedServer) (st : ServerState)
    → get source st.reported_servers ≡ o
    → HasServers st
    → HasServers (report_found clock source instance_key keys o st).1
unfolding report_found new_server
report_found-HasServers clock source instance_key keys (some server) st g h =
    refresh-HasServers (clock 2) source instance_key keys server st
      (All-get ServerEntry source st.reported_servers h.filed g)
      (λ x. omega (arith, length-put_old source x st.reported_servers g, h.within)) h
report_found-HasServers clock source instance_key keys none st g h =
    let expired = (expire (clock 0) st).1 in
    let h' = expire-HasServers (clock 0) st h in
    if-elim (λ (r : Result ReportedServer × ServerState). HasServers r.1)
      (leb expired.max_reported_servers (length expired.reported_servers)) (λ full. h')
      (λ room.
        refresh-HasServers (clock 2) source instance_key keys
          (new_server (clock 1) source instance_key) expired refl
          (λ x. ground (arith, room, length-put-le source x expired.reported_servers)) h')

-- Where the reported servers are within the configured number, each filed once and under its own
-- source, a report, of a server that is there or not, accepted or raising for want of room, keeps
-- them so.
pub report_server-HasServers :
    (clock : ℕ → ℕ) (source : Address) (instance_key : Bytes) (keys : Dict Text Text)
    (st : ServerState)
    → HasServers st
    → HasServers (report_server clock source instance_key keys st).1
unfolding report_server
report_server-HasServers clock source instance_key keys st h =
    report_found-HasServers clock source instance_key keys _ st refl h

pub create-HasServers : (ttl session_ttl m n : ℕ) → HasServers (create ttl session_ttl m n)
unfolding create
create-HasServers ttl session_ttl m n = record { within = omega arith; one_each = tt; filed = tt }
