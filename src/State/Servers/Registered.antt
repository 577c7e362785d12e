-- ===== src/State/Servers/Registered.antt =====
-- What a registration does, and that a later one changes nothing but the time the server was seen.
use fruitspy.Prelude.{
  ℕ, ◌≡◌, refl, Bool, true, false, Bool-cases, inl, inr, Option, none, some, [], ◌∷◌,
}
use fruitspy.Dict.{Dict, get, put}
use fruitspy.Dict.Laws.{get-put, beq_refl}
use fruitspy.State.{
  Address, address_eq, ReportedServer, ServerState, notify_server_change, update_metrics, set_all,
}
use fruitspy.State.Servers.{register_server, register_found}

-- The events of the subscribers after a registration: all set by the first one, and else untouched.
pub Told : Bool → Dict ℕ Bool → Dict ℕ Bool → Type 0
Told true before after = after ≡ before
Told false [] after = after ≡ []
Told false ((event, _) ∷ before) [] = ⊥
Told false ((event, _) ∷ before) ((i, flag) ∷ after) =
    (i ≡ event) × (flag ≡ true) × Told false before after

-- The time since which a server is registered: that of its first registration.
pub Since : Bool → ℕ → Option ℕ → Option ℕ → Type 0
Since true now before after = after ≡ before
Since false now before after = after ≡ some now

-- The entry of a server after a registration, and the table that holds it.
pub record Entered (now : ℕ) (source : Address) (server : ReportedServer) (st : ServerState)
    (r : Option ReportedServer × ServerState) : Type 0 where
  pub entry : ReportedServer
  pub answered : r.0 ≡ some entry
  pub stored : r.1.reported_servers ≡ put source entry st.reported_servers
  pub registered : entry.registered ≡ true
  pub seen : entry.last_seen ≡ now
  pub since : Since server.registered now server.registered_at entry.registered_at
  pub reported :
      (entry.source ≡ server.source)
      × (entry.instance_key ≡ server.instance_key)
      × (entry.keys ≡ server.keys)
      × (entry.challenge ≡ server.challenge)
  pub told : Told server.registered st.server_change_events r.1.server_change_events
  pub sessions : r.1.nat_sessions ≡ st.nat_sessions

-- A registration after another: the entry is the same but for the time, and no event is set anew.
pub record Renewed (later : ℕ) (first second : Option ReportedServer × ServerState) : Type 0 where
  pub entry : ReportedServer
  pub entered : first.0 ≡ some entry
  pub renewed : second.0 ≡ some (record entry { last_seen = later })
  pub events : second.1.server_change_events ≡ first.1.server_change_events

Told-set_all : (events : Dict ℕ Bool) → Told false events (set_all events)
unfolding Told set_all
Told-set_all [] = refl
Told-set_all ((event, flag) ∷ events) = (refl, refl, Told-set_all events)

register_found-Entered :
    (now : ℕ) (source : Address) (server : ReportedServer) (st : ServerState)
    → Entered now source server st (register_found now source (some server) st)
unfolding register_found update_metrics notify_server_change Told Since
register_found-Entered now source server st = elim (Bool-cases server.registered) [
  | inl known ↦ rw known (record {
    entry = record server { registered = true; last_seen = now };
    answered = refl;
    stored = refl;
    registered = refl;
    seen = refl;
    since = refl;
    reported = (refl, refl, refl, refl);
    told = refl;
    sessions = refl;
  })
  | inr new ↦ rw new (record {
    entry = record server { registered = true; last_seen = now; registered_at = some now };
    answered = refl;
    stored = refl;
    registered = refl;
    seen = refl;
    since = refl;
    reported = (refl, refl, refl, refl);
    told = Told-set_all st.server_change_events;
    sessions = refl;
  })
]

-- A registration of a server whose entry is as another one left it.
register_found-Renewed :
    (now later : ℕ) (source : Address) (server : ReportedServer) (st : ServerState)
    → Renewed later
        (register_found now source (some server) st)
        (register_server later source (register_found now source (some server) st).1)
unfolding register_server register_found update_metrics notify_server_change
register_found-Renewed now later source server st =
    let again = record server { registered = true; last_seen = now } in
    let first = record server { registered = true; last_seen = now; registered_at = some now } in
    elim (Bool-cases server.registered) [
      | inl known ↦ rw known (record {
        entry = again;
        entered = refl;
        renewed = rw (stored source again st.reported_servers) refl;
        events = rw (stored source again st.reported_servers) refl;
      })
      | inr new ↦ rw new (record {
        entry = first;
        entered = refl;
        renewed = rw (stored source first st.reported_servers) refl;
        events = rw (stored source first st.reported_servers) refl;
      })
    ]
  where
    stored :
        (source : Address) (entry : ReportedServer) (d : Dict Address ReportedServer)
        → get source (put source entry d) ≡ some entry
    stored source entry d = rw (get-put, beq_refl source) refl

-- What a registration does for a server that is there, and for one that is not.
pub Registered :
    ℕ
    → ℕ
    → Address
    → Option ReportedServer
    → ServerState
    → Option ReportedServer × ServerState
    → Type 0
Registered now later source none st r = r ≡ (none, st)
Registered now later source (some server) st r =
    Entered now source server st r × Renewed later r (register_server later source r.1)

register_found-Registered :
    (now later : ℕ) (source : Address) (o : Option ReportedServer) (st : ServerState)
    → Registered now later source o st (register_found now source o st)
unfolding Registered register_found
register_found-Registered now later source none st = refl
register_found-Registered now later source (some server) st =
    (register_found-Entered now source server st, register_found-Renewed now later source server st)

-- A registration of a source that reported no server answers None and changes nothing. One of a
-- reported server files it, registered, seen now, registered since its first registration, and
-- otherwise as it was reported; it sets every subscriber's event when it is the first one, and none
-- when it is not. A further registration changes no more of the entry than the time it was seen, and
-- sets no event.
pub register_server-Registered :
    (now later : ℕ) (source : Address) (st : ServerState)
    → Registered now later source
        (get source st.reported_servers)
        st
        (register_server now source st)
unfolding register_server
register_server-Registered now later source st =
    register_found-Registered now later source (get source st.reported_servers) st
