-- ===== src/NatNeg/Invariant.antt =====
-- What holds of the service between two events: its sessions and its relay tables are well-formed.
pub mod Relays
pub mod Forwarding
pub mod Reports
pub mod Packets
pub mod Run
use fruitspy.Prelude.{
  Bytes, ℕ, ◌+◌, ◌<◌, ◌≤◌, ◌≡◌, refl, sym, ◌∙◌, Bool, true, false, Option, none, some, List, [],
  ◌∷◌, arith, length, All, ◌==◌, subst,
}
use fruitspy.Dict.{Dict, get, put}
use fruitspy.Dict.Laws.{All-put, All-get, length-put_old, put-Unique}
use fruitspy.Metrics.{MetricCall}
use fruitspy.State.{Address, address_eq, bytes_eq, NatSession, ServerState}
use fruitspy.State.Sessions.Invariant.{HasSessions, IsSession, SessionEntry}
use fruitspy.NatNeg.{NatNeg, RelaySession, count_metric, send, store_session, store_relay}
use fruitspy.NatNeg.Relay.{touch_session}
use fruitspy.NatNeg.Relay.Links.{SameEnds}
use fruitspy.NatNeg.Relay.Finish.{
  HasRelays, SameRelays, SameRelays-HasRelays, store_relay-HasRelays, touch_session-SameRelays,
}

pub record IsSound (s : NatNeg) : Type 0 where
  pub sessions : HasSessions s.state
  pub relays : HasRelays s

-- A state with the same sessions and the same limit on them.
pub record SameSessions (s t : NatNeg) : Type 0 where
  pub sessions : t.state.nat_sessions ≡ s.state.nat_sessions
  pub limit : t.state.max_nat_sessions ≡ s.state.max_nat_sessions

pub SameSessions-HasSessions :
    (s t : NatNeg) → SameSessions s t → HasSessions s.state → HasSessions t.state
SameSessions-HasSessions s t e h = record {
  within = rw (e.sessions, e.limit) h.within;
  one_each = rw e.sessions h.one_each;
  sessions = rw e.sessions h.sessions;
}

pub SameSessions-trans : (s t u : NatNeg) → SameSessions s t → SameSessions t u → SameSessions s u
SameSessions-trans s t u f g = record {
  sessions = g.sessions ∙ f.sessions;
  limit = g.limit ∙ f.limit;
}

-- A state with the same sessions and the same relay tables.
pub same-IsSound : (s t : NatNeg) → SameSessions s t → SameRelays s t → IsSound s → IsSound t
same-IsSound s t e f h = record {
  sessions = SameSessions-HasSessions s t e h.sessions;
  relays = SameRelays-HasRelays s t f h.relays;
}

pub count_metric-IsSound : (c : MetricCall) (s : NatNeg) → IsSound s → IsSound (count_metric c s)
unfolding count_metric
count_metric-IsSound c s h =
    same-IsSound s _ (record { sessions = refl; limit = refl })
      (record { relays = refl; bindings = refl; config = refl; flag = refl }) h

pub send-IsSound :
    (packet : Bytes) (a : Address) (s : NatNeg) → IsSound s → IsSound (send packet a s)
unfolding send
send-IsSound packet a s h =
    same-IsSound s _ (record { sessions = refl; limit = refl })
      (record { relays = refl; bindings = refl; config = refl; flag = refl }) h

pub store_relay-IsSound :
    (c : Bytes) (r r' : RelaySession) (s : NatNeg)
    → get c s.relays ≡ some r
    → SameEnds r r'
    → IsSound s
    → IsSound (store_relay c r' s)
unfolding store_relay
store_relay-IsSound c r r' s g e h = record {
  sessions =
      SameSessions-HasSessions s (store_relay c r' s) (record { sessions = refl; limit = refl })
        h.sessions;
  relays = store_relay-HasRelays c r r' s g e h.relays;
}

-- A session changes, and keeps its cookie and its peers.
pub store_session-HasSessions :
    (c : Bytes) (old new : NatSession) (s : NatNeg)
    → get c s.state.nat_sessions ≡ some old
    → new.cookie ≡ old.cookie
    → new.peers ≡ old.peers
    → HasSessions s.state
    → HasSessions (store_session c new s).state
unfolding store_session
store_session-HasSessions c old new s g same_cookie same_peers h =
    let w = All-get SessionEntry c s.state.nat_sessions h.sessions g in
    let kept : IsSession c new = record {
      own_cookie = same_cookie ∙ w.own_cookie;
      at_most_two = rw same_peers w.at_most_two;
      filed = rw same_peers w.filed;
      unique = rw same_peers w.unique;
      distinct = rw same_peers w.distinct;
    } in
    record {
      within = omega (arith, length-put_old c new s.state.nat_sessions g, h.within);
      one_each = put-Unique c new s.state.nat_sessions h.one_each;
      sessions =
          All-put SessionEntry c new s.state.nat_sessions
            (λ d same. subst (λ (x : Bytes). IsSession x new) (sym same) kept) h.sessions;
    }

pub store_session-IsSound :
    (c : Bytes) (old new : NatSession) (s : NatNeg)
    → get c s.state.nat_sessions ≡ some old
    → new.cookie ≡ old.cookie
    → new.peers ≡ old.peers
    → IsSound s
    → IsSound (store_session c new s)
unfolding store_session
store_session-IsSound c old new s g same_cookie same_peers h = record {
  sessions = store_session-HasSessions c old new s g same_cookie same_peers h.sessions;
  relays =
      SameRelays-HasRelays s _
        (record { relays = refl; bindings = refl; config = refl; flag = refl }) h.relays;
}

pub touch_session-IsSound :
    (c : Bytes) (now : ℕ) (o : Option NatSession) (s : NatNeg)
    → get c s.state.nat_sessions ≡ o
    → IsSound s
    → IsSound (touch_session c now o s)
unfolding touch_session
touch_session-IsSound c now none s g h = h
touch_session-IsSound c now (some session) s g h =
    store_session-IsSound c session (record session { last_seen = now }) s g refl refl h
