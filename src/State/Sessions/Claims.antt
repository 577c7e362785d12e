-- ===== src/State/Sessions/Claims.antt =====
-- The first accepted endpoint of a session's index is not displaced by later claims.
use fruitspy.Prelude.{
  ap, Bytes, ℕ, ◌≡◌, ◌≢◌, refl, true, false, Option, none, some, arith, length, leb, if◌then◌else◌,
  Bool-cases, inl, inr, ◌==◌, nat_eq, err, session_full, index_claimed,
}
use fruitspy.Dict.{get, put, values}
use fruitspy.Dict.Laws.{get-put}
use fruitspy.State.{Address, address_eq, bytes_eq, NatPeer, NatSession, ServerState, update_metrics}
use fruitspy.State.Expiry.{expire, keeps_session}
use fruitspy.State.Expiry.Kept.{expire-keeps_session}
use fruitspy.State.Sessions.{
  Claim, peer_added, session_created, any_at, add_peer, refresh_peer, join_session, claim_session,
  claim_nat_peer,
}

-- The session of `cookie` is there and has a peer at `address` under index `i`.
pub record Holds (cookie : Bytes) (i : ℕ) (address : Address) (st : ServerState) : Type 0 where
  pub session : NatSession
  pub there : get cookie st.nat_sessions ≡ some session
  pub peer : NatPeer
  pub member : get i session.peers ≡ some peer
  pub at_address : peer.address ≡ address

module _ (clock : ℕ → ℕ) (cookie : Bytes) (i : ℕ) (at : Address) where
  -- a write of another session, or of this one with the peer still at its address
  store :
      (other : Bytes) (joined : NatSession) (st : ServerState) (h : Holds cookie i at st)
      → (get other st.nat_sessions ≡ some h.session
          → (p : NatPeer) × (get i joined.peers ≡ some p) × (p.address ≡ at))
      → (next : ServerState) → next.nat_sessions ≡ put other joined st.nat_sessions
      → Holds cookie i at next
  store other joined st h k next e = elim (Bool-cases (other == cookie)) [
    | inl same ↦
        let same' : other ≡ cookie = (bytes_eq.beq_iff other cookie).0 same in
        let (p, m, a) = k (rw same' h.there) in
        record {
          session = joined;
          there = rw (e, get-put, same) refl;
          peer = p;
          member = m;
          at_address = a;
        }
    | inr differs ↦ record {
      session = h.session;
      there = rw (e, get-put, differs) h.there;
      peer = h.peer;
      member = h.member;
      at_address = h.at_address;
    }
  ]

  -- A new peer under an index that is free.
  add_peer-Holds :
      (other : Bytes) (index : ℕ) (address : Address) (version : ℕ) (event : Claim)
      (session : NatSession) (st : ServerState) (h : Holds cookie i at st)
      → (get other st.nat_sessions ≡ some h.session → session ≡ h.session)
      → get index session.peers ≡ none
      → Holds cookie i at (add_peer clock other index address version event session st).1
  unfolding add_peer update_metrics
  add_peer-Holds other index address version event session st h k free =
      store other _ st h
        (λ g.
          let same = k g in
          let apart : (index == i) ≡ false =
            ground (arith, h.member, ap (λ (s : NatSession). get i s.peers) same) in
          (h.peer, rw (get-put, apart, same) h.member, h.at_address))
        _ refl

  refresh_peer-Holds :
      (other : Bytes) (index version : ℕ) (peer : NatPeer) (session : NatSession) (st : ServerState)
      (h : Holds cookie i at st)
      → get other st.nat_sessions ≡ some session
      → get index session.peers ≡ some peer
      → Holds cookie i at (refresh_peer clock other index version peer session st).1
  unfolding refresh_peer
  refresh_peer-Holds other index version peer session st h g m =
      store other _ st h
        (λ g'.
          let same : session ≡ h.session = cc in
          elim (Bool-cases (index == i)) [
            | inl here ↦
                let index_eq : index ≡ i = (nat_eq.beq_iff index i).0 here in
                let peer_eq : peer ≡ h.peer = cc (
                  m,
                  h.member,
                  ap (λ (s : NatSession). get i s.peers) same,
                  ap (λ (j : ℕ). get j session.peers) index_eq,
                ) in
                (
                  record peer { version = version; last_seen = clock 4 },
                  rw (get-put, here),
                  cc (peer_eq, ap (λ (p : NatPeer). p.address) peer_eq, h.at_address),
                )
            | inr there ↦ (h.peer, rw (get-put, there, same) h.member, h.at_address)
          ])
        _ refl

  join_session-Holds :
      (other : Bytes) (index : ℕ) (address : Address) (version : ℕ) (o : Option NatPeer)
      (session : NatSession) (st : ServerState) (h : Holds cookie i at st)
      → get other st.nat_sessions ≡ some session
      → get index session.peers ≡ o
      → Holds cookie i at (join_session clock other index address version o session st).1
  unfolding join_session
  join_session-Holds other index address version none session st h g m =
      elim (Bool-cases (length session.peers == 2)) [
        | inl full ↦ rw full h
        | inr room ↦ rw room (elim (Bool-cases (any_at address (values session.peers))) [
          | inl used ↦ rw used h
          | inr fresh ↦
              rw fresh
                (add_peer-Holds other index address version peer_added session st h (λ g'. cc) m)
        ])
      ]
  join_session-Holds other index address version (some peer) session st h g m =
      elim (Bool-cases (peer.address == address)) [
        | inl same ↦ rw same (refresh_peer-Holds other index version peer session st h g m)
        | inr other_end ↦ rw other_end (elim (Bool-cases (length session.peers == 2)) [
          | inl full ↦ rw full h
          | inr room ↦ rw room h
        ])
      ]

  claim_session-Holds :
      (other : Bytes) (index : ℕ) (address : Address) (version : ℕ) (o : Option NatSession)
      (st : ServerState)
      → get other st.nat_sessions ≡ o
      → Holds cookie i at st
      → Holds cookie i at (claim_session clock other index address version o st).1
  unfolding claim_session get
  claim_session-Holds other index address version none st g h =
      elim (Bool-cases (leb st.max_nat_sessions (length st.nat_sessions))) [
        | inl full ↦ rw full h
        | inr room ↦
            rw room
              (add_peer-Holds other index address version session_created _ st h (λ g'. cc) refl)
      ]
  claim_session-Holds other index address version (some session) st g h =
      join_session-Holds other index address version (get index session.peers) session st h g refl

-- Let the session of `cookie` be within its time to live when `claim_nat_peer` is called, with a
-- peer under index `i`. Whatever cookie, index, address and version are claimed, and whether the
-- claim is accepted or not, the session is there afterwards and index `i` has the same address.
pub claim_keeps_endpoint :
    (clock : ℕ → ℕ) (st : ServerState) (cookie : Bytes) (i : ℕ) {session : NatSession}
    {peer : NatPeer}
    → get cookie st.nat_sessions ≡ some session
    → get i session.peers ≡ some peer
    → keeps_session st.nat_session_ttl (clock 0) session ≡ true
    → (other : Bytes) (index : ℕ) (address : Address) (version : ℕ)
    → Holds cookie i peer.address (claim_nat_peer clock other index address version st).1
unfolding claim_nat_peer
claim_keeps_endpoint clock st cookie i {session} {peer} g m fresh other index address version =
    let expired = (expire (clock 0) st).1 in
    claim_session-Holds clock cookie i peer.address other index address version
      (get other expired.nat_sessions) expired refl
      (record {
        session = session;
        there = expire-keeps_session (clock 0) st cookie g fresh;
        peer = peer;
        member = m;
        at_address = refl;
      })

join_conflict :
    (clock : ℕ → ℕ) (cookie : Bytes) (i : ℕ) (address : Address) (version : ℕ) (peer : NatPeer)
    (session : NatSession) (st : ServerState)
    → peer.address ≢ address
    → join_session clock cookie i address version (some peer) session st
      ≡ (err (if length session.peers == 2 then session_full else index_claimed), st)
unfolding join_session
join_conflict clock cookie i address version peer session st differs =
    ground (arith, address_eq.beq_iff peer.address address)

-- A claim of an index that another endpoint holds, in a session within its time to live, is
-- rejected as `session_full` or `index_claimed`, and changes nothing but what expired.
pub claim_conflict :
    (clock : ℕ → ℕ) (st : ServerState) (cookie : Bytes) (i : ℕ) {session : NatSession}
    {peer : NatPeer}
    → get cookie st.nat_sessions ≡ some session
    → get i session.peers ≡ some peer
    → keeps_session st.nat_session_ttl (clock 0) session ≡ true
    → (address : Address) (version : ℕ) → peer.address ≢ address
    → claim_nat_peer clock cookie i address version st ≡ (
      err (if length session.peers == 2 then session_full else index_claimed),
      (expire (clock 0) st).1,
    )
unfolding claim_nat_peer claim_session
claim_conflict clock st cookie i {session} {peer} g m fresh address version differs =
    rw (expire-keeps_session (clock 0) st cookie g fresh) (
      rw m
        (join_conflict clock cookie i address version peer session (expire (clock 0) st).1 differs))
