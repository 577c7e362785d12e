-- ===== src/State/Sessions/Invariant.antt =====
-- Every session holds at most two peers, at distinct addresses, filed under their own indices.
use fruitspy.Prelude.{
  Bytes, ℕ, ◌≤◌, ◌≡◌, refl, sym, false, Option, none, some, [], ◌∷◌, arith, length, leb,
  leb_false→lt, All, Bool-cases, inl, inr, ◌==◌, nat_eq, ◌||◌,
}
use fruitspy.Dict.{Dict, get, put, values}
use fruitspy.Dict.Laws.{
  length-put-le, length-put_new, length-put_old, Unique, put-Unique, retain-Unique, All-put,
  All-get, All-retain, length-retain-le,
}
use fruitspy.State.{
  create, Address, address_eq, bytes_eq, NatPeer, NatSession, ServerState, update_metrics,
}
use fruitspy.State.Expiry.{expire, keeps_session}
use fruitspy.State.Expiry.Kept.{sessions-expire, limits-expire}
use fruitspy.State.Sessions.{
  Claim, peer_added, session_created, any_at, add_peer, refresh_peer, join_session, claim_session,
  claim_nat_peer,
}

-- No two peers at one address.
abbrev pub Distinct : Dict ℕ NatPeer → Type 0
Distinct [] = Unit
Distinct ((i, p) ∷ d) = (any_at p.address (values d) ≡ false) × Distinct d

pub record IsSession (cookie : Bytes) (s : NatSession) : Type 0 where
  pub own_cookie : s.cookie ≡ cookie
  pub at_most_two : length s.peers ≤ 2
  pub filed : All (λ (e : ℕ × NatPeer). (e.1.client_index ≡ e.0) × (e.1.cookie ≡ cookie)) s.peers
  pub unique : Unique s.peers
  pub distinct : Distinct s.peers

abbrev pub SessionEntry : Bytes × NatSession → Type 0
SessionEntry (cookie, s) = IsSession cookie s

pub record HasSessions (st : ServerState) : Type 0 where
  pub within : length st.nat_sessions ≤ st.max_nat_sessions
  pub one_each : Unique st.nat_sessions
  pub sessions : All SessionEntry st.nat_sessions

-- A new key's entry goes to the end.
any_at-put :
    (a : Address) (i : ℕ) (p : NatPeer) (d : Dict ℕ NatPeer)
    → get i d ≡ none
    → any_at a (values (put i p d)) ≡ (any_at a (values d) || (p.address == a))
unfolding any_at values put get
any_at-put a i p [] h = ground arith
any_at-put a i p ((j, q) ∷ d) h = ground (arith, any_at-put a i p d)

put-Distinct :
    (i : ℕ) (p : NatPeer) (d : Dict ℕ NatPeer)
    → get i d ≡ none
    → any_at p.address (values d) ≡ false
    → Distinct d
    → Distinct (put i p d)
unfolding any_at values put get
put-Distinct i p [] h f u = (refl, tt)
put-Distinct i p ((j, q) ∷ d) h f u = elim (Bool-cases (j == i)) [
  | inl same ↦ absurd (ground (arith, same))
  | inr other ↦ rw other (
    ground (
      arith,
      any_at-put q.address i p d,
      address_eq.beq_iff q.address p.address,
      address_eq.beq_iff p.address q.address,
    ),
    put-Distinct i p d (ground arith) (ground arith) u.1,
  )
]

-- A refreshed peer keeps its address, so the others stay apart from it.
any_at-put_same :
    (a : Address) (i : ℕ) (p q : NatPeer) (d : Dict ℕ NatPeer)
    → get i d ≡ some q
    → p.address ≡ q.address
    → any_at a (values (put i p d)) ≡ any_at a (values d)
unfolding any_at values put get
any_at-put_same a i p q [] h e = cc
any_at-put_same a i p q ((j, r) ∷ d) h e = ground (arith, any_at-put_same a i p q d)

put_same-Distinct :
    (i : ℕ) (p q : NatPeer) (d : Dict ℕ NatPeer)
    → get i d ≡ some q
    → p.address ≡ q.address
    → Distinct d
    → Distinct (put i p d)
unfolding any_at values put get
put_same-Distinct i p q [] h e u = cc
put_same-Distinct i p q ((j, r) ∷ d) h e u = elim (Bool-cases (j == i)) [
  | inl same ↦ rw same (let found : r ≡ q = ground arith in rw (e, ← found) u.0, u.1)
  | inr other ↦ rw other (
    ground (arith, any_at-put_same r.address i p q d),
    put_same-Distinct i p q d (rw other at h) e u.1,
  )
]

add_peer-HasSessions :
    (clock : ℕ → ℕ) (cookie : Bytes) (index : ℕ) (address : Address) (version : ℕ) (event : Claim)
    (session : NatSession) (st : ServerState)
    → ((s : NatSession) → length (put cookie s st.nat_sessions) ≤ st.max_nat_sessions)
    → IsSession cookie session
    → length session.peers ≤ 1
    → get index session.peers ≡ none
    → any_at address (values session.peers) ≡ false
    → HasSessions st
    → HasSessions (add_peer clock cookie index address version event session st).1
unfolding add_peer update_metrics
add_peer-HasSessions clock cookie index address version event session st room v two free fresh h =
    record {
      within = room _;
      one_each = put-Unique cookie _ st.nat_sessions h.one_each;
      sessions =
          All-put SessionEntry cookie _ st.nat_sessions
            (λ j e. record {
              own_cookie = rw e v.own_cookie;
              at_most_two = omega (arith, length-put_new index _ session.peers free);
              filed = All-put _ index _ session.peers (λ i f. (sym f, sym e)) (rw e v.filed);
              unique = put-Unique index _ session.peers v.unique;
              distinct = put-Distinct index _ session.peers free fresh v.distinct;
            })
            h.sessions;
    }

refresh_peer-HasSessions :
    (clock : ℕ → ℕ) (cookie : Bytes) (index version : ℕ) (peer : NatPeer) (session : NatSession)
    (st : ServerState)
    → get cookie st.nat_sessions ≡ some session
    → get index session.peers ≡ some peer
    → HasSessions st
    → HasSessions (refresh_peer clock cookie index version peer session st).1
unfolding refresh_peer
refresh_peer-HasSessions clock cookie index version peer session st g m h =
    let v = All-get SessionEntry cookie st.nat_sessions h.sessions g in
    let as_filed = All-get _ index session.peers v.filed m in
    record {
      within = omega (arith, length-put_old cookie _ st.nat_sessions g, h.within);
      one_each = put-Unique cookie _ st.nat_sessions h.one_each;
      sessions =
          All-put SessionEntry cookie _ st.nat_sessions
            (λ j e. record {
              own_cookie = rw e v.own_cookie;
              at_most_two = omega (arith, length-put_old index _ session.peers m, v.at_most_two);
              filed = rw e (All-put _ index _ session.peers (λ i f. rw f as_filed) v.filed);
              unique = put-Unique index _ session.peers v.unique;
              distinct = put_same-Distinct index _ peer session.peers m refl v.distinct;
            })
            h.sessions;
    }

join_session-HasSessions :
    (clock : ℕ → ℕ) (cookie : Bytes) (index : ℕ) (address : Address) (version : ℕ)
    (o : Option NatPeer) (session : NatSession) (st : ServerState)
    → get cookie st.nat_sessions ≡ some session
    → get index session.peers ≡ o
    → HasSessions st
    → HasSessions (join_session clock cookie index address version o session st).1
unfolding join_session
join_session-HasSessions clock cookie index address version none session st g m h =
    let v = All-get SessionEntry cookie st.nat_sessions h.sessions g in
    elim (Bool-cases (length session.peers == 2)) [
      | inl full ↦ rw full h
      | inr room ↦ rw room (elim (Bool-cases (any_at address (values session.peers))) [
        | inl used ↦ rw used h
        | inr fresh ↦ rw fresh (
            add_peer-HasSessions clock cookie index address version peer_added session st
              (λ s. omega (arith, length-put_old cookie s st.nat_sessions g, h.within)) v
              (ground (arith, v.at_most_two)) m fresh h)
      ])
    ]
join_session-HasSessions clock cookie index address version (some peer) session st g m h =
    elim (Bool-cases (peer.address == address)) [
      | inl same ↦
          rw same (refresh_peer-HasSessions clock cookie index version peer session st g m h)
      | inr other ↦ rw other (elim (Bool-cases (length session.peers == 2)) [
        | inl full ↦ rw full h
        | inr room ↦ rw room h
      ])
    ]

claim_session-HasSessions :
    (clock : ℕ → ℕ) (cookie : Bytes) (index : ℕ) (address : Address) (version : ℕ)
    (o : Option NatSession) (st : ServerState)
    → get cookie st.nat_sessions ≡ o
    → HasSessions st
    → HasSessions (claim_session clock cookie index address version o st).1
unfolding claim_session
claim_session-HasSessions clock cookie index address version none st g h =
    elim (Bool-cases (leb st.max_nat_sessions (length st.nat_sessions))) [
      | inl full ↦ rw full h
      | inr room ↦ rw room (
          add_peer-HasSessions clock cookie index address version session_created _ st
            (λ s. omega (
              arith,
              leb_false→lt st.max_nat_sessions (length st.nat_sessions) room,
              length-put-le cookie s st.nat_sessions,
            ))
            (record {
              own_cookie = refl;
              at_most_two = omega arith;
              filed = tt;
              unique = tt;
              distinct = tt;
            })
            (omega arith) (unfold get in refl) (unfold any_at values in refl) h)
    ]
claim_session-HasSessions clock cookie index address version (some session) st g h =
    join_session-HasSessions clock cookie index address version (get index session.peers) session st
      g refl h

-- Expiry keeps the sessions well-formed.
pub expire-HasSessions :
    (now : ℕ) (st : ServerState) → HasSessions st → HasSessions (expire now st).1
expire-HasSessions now st h =
    let p = keeps_session st.nat_session_ttl now in
    record {
      within =
          rw (sessions-expire now st, (limits-expire now st).1)
            (omega (arith, length-retain-le p st.nat_sessions, h.within));
      one_each = rw (sessions-expire now st) (retain-Unique p st.nat_sessions h.one_each);
      sessions = rw (sessions-expire now st) (All-retain SessionEntry p st.nat_sessions h.sessions);
    }

-- Where the sessions are within the configured number, each under its own cookie and with at most
-- two peers, filed under their indices at distinct addresses, every claim, accepted, rejected or
-- raising, keeps them so.
pub claim-HasSessions :
    (clock : ℕ → ℕ) (cookie : Bytes) (index : ℕ) (address : Address) (version : ℕ)
    (st : ServerState)
    → HasSessions st
    → HasSessions (claim_nat_peer clock cookie index address version st).1
unfolding claim_nat_peer
claim-HasSessions clock cookie index address version st h =
    let expired = (expire (clock 0) st).1 in
    claim_session-HasSessions clock cookie index address version (get cookie expired.nat_sessions)
      expired refl (expire-HasSessions (clock 0) st h)

pub create-HasSessions : (ttl session_ttl m n : ℕ) → HasSessions (create ttl session_ttl m n)
unfolding create
create-HasSessions ttl session_ttl m n = record {
  within = omega arith;
  one_each = tt;
  sessions = tt;
}
