-- ===== src/State/Expiry/Kept.antt =====
-- What `expire` keeps: exactly the entries that are fresh, as they were.
use fruitspy.Prelude.{
  Bytes, ℕ, ◌+◌, ◌≤◌, ◌<◌, ◌≡◌, refl, ◌⊎◌, inl, inr, leb, Bool-cases, Bool, true, Option, none,
  some, [], ◌∷◌, arith, if◌then◌else◌,
}
use fruitspy.Clock.{seconds}
use fruitspy.Dict.{Dict, get, retain}
use fruitspy.Dict.Laws.{get-retain, get-retain_kept, Unique}
use fruitspy.State.{
  Address, address_eq, bytes_eq, NatSession, ReportedServer, ServerState, notify_server_change,
  update_metrics,
}
use fruitspy.State.Expiry.{expire, keeps_server, keeps_session, is_empty}

retain_empty {ℓ κ} :
    {K : Type ℓ} {V : Type κ} (p : V → Bool) (d : Dict K V) → is_empty d ≡ true → retain p d ≡ d
unfolding is_empty retain
retain_empty p [] h = refl
retain_empty p (x ∷ d) h = cc

-- The two tables after `expire` are those of the comprehensions, also where it returns early.
pub servers-expire :
    (now : ℕ) (st : ServerState)
    → (expire now st).1.reported_servers
      ≡ retain (keeps_server st.reported_server_ttl now) st.reported_servers
unfolding expire notify_server_change update_metrics
servers-expire now st =
    ground (arith, retain_empty (keeps_server st.reported_server_ttl now) st.reported_servers)

pub sessions-expire :
    (now : ℕ) (st : ServerState)
    → (expire now st).1.nat_sessions ≡ retain (keeps_session st.nat_session_ttl now) st.nat_sessions
unfolding expire notify_server_change update_metrics
sessions-expire now st =
    ground (arith, retain_empty (keeps_session st.nat_session_ttl now) st.nat_sessions)

-- `expire` leaves the configured limits as they are.
pub limits-expire :
    (now : ℕ) (st : ServerState)
    → ((expire now st).1.max_reported_servers ≡ st.max_reported_servers)
      × ((expire now st).1.max_nat_sessions ≡ st.max_nat_sessions)
      × ((expire now st).1.reported_server_ttl ≡ st.reported_server_ttl)
      × ((expire now st).1.nat_session_ttl ≡ st.nat_session_ttl)
unfolding expire notify_server_change update_metrics
limits-expire now st = ground arith

-- The tests of the two comprehensions, as bounds on the time.
pub keeps_server_lem :
    (ttl now : ℕ) (server : ReportedServer)
    → keeps_server ttl now server ≡ true
    → now ≤ server.last_seen + seconds ttl
unfolding keeps_server
keeps_server_lem ttl now server h = ground (arith, h)

-- What is left of an entry with a time to live in seconds: itself, up to that long after it was last
-- seen, and nothing from then on.
abbrev pub Left {ℓ} : {V : Type ℓ} → ℕ → ℕ → (V → ℕ) → Option V → Option V → Type ℓ
Left ttl now seen none after = after ≡ none
Left ttl now seen (some v) after =
    ((now ≤ seen v + seconds ttl) × (after ≡ some v))
    ⊎ ((seen v + seconds ttl < now) × (after ≡ none))

-- What a comprehension leaves under a key.
retained-Left {ℓ} :
    {V : Type ℓ} (ttl now : ℕ) (seen : V → ℕ) (o : Option V)
    → Left ttl now seen o
        (elim o [ none ↦ none | some v ↦ if leb now (seen v + seconds ttl) then some v else none ])
retained-Left ttl now seen none = refl
retained-Left ttl now seen (some v) = elim (Bool-cases (leb now (seen v + seconds ttl))) [
  | inl fresh ↦ inl (ground (arith, fresh), rw fresh refl)
  | inr stale ↦ inr (ground (arith, stale), rw stale refl)
]

-- In tables without repeated keys, `expire` leaves under an address or a cookie what was there, if no
-- more than its time to live has passed since it was last seen, and else nothing.
pub expire_exact :
    (now : ℕ) (st : ServerState)
    → Unique st.reported_servers
    → Unique st.nat_sessions
    → ((address : Address)
        → Left st.reported_server_ttl now
            (λ (server : ReportedServer). server.last_seen)
            (get address st.reported_servers)
            (get address (expire now st).1.reported_servers))
      × ((cookie : Bytes)
          → Left st.nat_session_ttl now
              (λ (session : NatSession). session.last_seen)
              (get cookie st.nat_sessions)
              (get cookie (expire now st).1.nat_sessions))
unfolding keeps_server keeps_session
expire_exact now st u v = (
  λ address. rw (servers-expire now st) (
      rw (get-retain _ address st.reported_servers u)
        (retained-Left st.reported_server_ttl now _ (get address st.reported_servers))),
  λ cookie. rw (sessions-expire now st) (
      rw (get-retain _ cookie st.nat_sessions v)
        (retained-Left st.nat_session_ttl now _ (get cookie st.nat_sessions))),
)

-- A fresh session is left as it was.
pub expire-keeps_session :
    (now : ℕ) (st : ServerState) (cookie : Bytes) {session : NatSession}
    → get cookie st.nat_sessions ≡ some session
    → keeps_session st.nat_session_ttl now session ≡ true
    → get cookie (expire now st).1.nat_sessions ≡ some session
expire-keeps_session now st cookie g h =
    rw (sessions-expire now st) (get-retain_kept _ cookie st.nat_sessions g h)
