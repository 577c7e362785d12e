-- ===== src/State/Sessions/Stored.antt =====
-- The session that a claim answers is the one in the table.
use fruitspy.Prelude.{
  Bytes, ℕ, ◌≡◌, refl, Option, none, some, length, leb, if-elim, ◌==◌, nat_eq, Result, ok, err,
}
use fruitspy.Dict.{get, values}
use fruitspy.Dict.Laws.{get-put, beq_refl}
use fruitspy.State.{Address, address_eq, bytes_eq, NatPeer, NatSession, ServerState, update_metrics}
use fruitspy.State.Expiry.{expire}
use fruitspy.State.Sessions.{
  Claim, peer_added, session_created, any_at, add_peer, refresh_peer, join_session, claim_session,
  claim_nat_peer,
}

-- Where a claim answers a session, the state has it under the cookie.
abbrev pub Stored : Bytes → Result (NatSession × Claim) × ServerState → Type 0
Stored c (ok (session, event), st) = get c st.nat_sessions ≡ some session
Stored c (err e, st) = Unit

module _ (clock : ℕ → ℕ) (c : Bytes) (i : ℕ) (a : Address) (v : ℕ) where
  add_peer-Stored :
      (event : Claim) (session : NatSession) (st : ServerState)
      → Stored c (add_peer clock c i a v event session st)
  unfolding add_peer update_metrics
  add_peer-Stored event session st = rw (get-put, beq_refl c) refl

  refresh_peer-Stored :
      (peer : NatPeer) (session : NatSession) (st : ServerState)
      → Stored c (refresh_peer clock c i v peer session st)
  unfolding refresh_peer
  refresh_peer-Stored peer session st = rw (get-put, beq_refl c) refl

  join_session-Stored :
      (o : Option NatPeer) (session : NatSession) (st : ServerState)
      → Stored c (join_session clock c i a v o session st)
  unfolding join_session
  join_session-Stored none session st =
      if-elim (Stored c) (length session.peers == 2) (λ full. tt)
        (λ room.
          if-elim (Stored c) (any_at a (values session.peers)) (λ taken. tt)
            (λ free. add_peer-Stored peer_added session st))
  join_session-Stored (some peer) session st =
      if-elim (Stored c) (peer.address == a) (λ same. refresh_peer-Stored peer session st)
        (λ other. if-elim (Stored c) (length session.peers == 2) (λ full. tt) (λ claimed. tt))

  claim_session-Stored :
      (o : Option NatSession) (st : ServerState) → Stored c (claim_session clock c i a v o st)
  unfolding claim_session
  claim_session-Stored none st =
      if-elim (Stored c) (leb st.max_nat_sessions (length st.nat_sessions)) (λ full. tt)
        (λ room. add_peer-Stored session_created _ st)
  claim_session-Stored (some session) st = join_session-Stored (get i session.peers) session st

  pub claim_nat_peer-Stored : (st : ServerState) → Stored c (claim_nat_peer clock c i a v st)
  unfolding claim_nat_peer
  claim_nat_peer-Stored st =
      let expired = (expire (clock 0) st).1 in
      claim_session-Stored (get c expired.nat_sessions) expired
