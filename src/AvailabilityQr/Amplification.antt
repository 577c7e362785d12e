-- ===== src/AvailabilityQr/Amplification.antt =====
-- The answers of the availability service are bounded by the datagram that they answer.
use fruitspy.Prelude.{
  Text, Bytes, ℕ, ◌*◌, ◌≤◌, ◌≡◌, true, ◌&&◌, Option, none, some, length, ltb, if-elim, ◌==◌, nat_eq,
  list_eq, Result, ok, err, arith, get_or,
}
use fruitspy.State.{Address}
use fruitspy.Drain.{is_draining}
use fruitspy.UdpAdmission.{within_amplification_limit}
use fruitspy.AvailabilityQr.{
  AvailabilityQr, Outcome, bounded_response, bound_outcome, answer_availability, dispatch,
  handle_datagram, is_drained_type, packet_available, packet_heartbeat, packet_challenge,
  packet_keepalive,
}

-- An answer, if there is one, has at most twice as many bytes as the datagram.
abbrev pub IsWithin : Bytes → Result (Option Bytes) → Type 0
IsWithin packet (err e) = Unit
IsWithin packet (ok none) = Unit
IsWithin packet (ok (some response)) = length response ≤ 2 * length packet

abbrev Within : Bytes → Outcome → Type 0
Within packet o = IsWithin packet o.0

limit-le : (m n : ℕ) → within_amplification_limit m n 2 1 ≡ true → n ≤ 2 * m
unfolding within_amplification_limit
limit-le m n h = ground (arith, h)

module _ (packet : Bytes) where
  bounded-Within :
      (o : Option Bytes) (s : AvailabilityQr) → Within packet (bounded_response packet o s)
  unfolding bounded_response
  bounded-Within none s = tt
  bounded-Within (some r) s =
      if-elim (Within packet) (within_amplification_limit (length packet) (length r) 2 1)
        (λ small. limit-le (length packet) (length r) small) (λ large. tt)

  bound-Within : (o : Outcome) → Within packet (bound_outcome packet o)
  unfolding bound_outcome
  bound-Within (err e, s) = tt
  bound-Within (ok r, s) = bounded-Within r s

  availability-Within :
      (r : Result (Text × ℕ)) (s : AvailabilityQr) → Within packet (answer_availability packet r s)
  unfolding answer_availability
  availability-Within (err e) s = tt
  availability-Within (ok (name, next)) s =
      if-elim (Within packet) (is_draining s.drain) (λ up. bounded-Within _ _)
        (λ down.
          if-elim (Within packet) (name == s.game_name) (λ same. bounded-Within _ _)
            (λ other. bounded-Within _ _))

  module _ (decode : Bytes → Text) (clock : ℕ → ℕ) (fresh : Text) (addr : Address) where
    dispatch-Within :
        (t : ℕ) (s : AvailabilityQr) → Within packet (dispatch decode clock fresh packet addr t s)
    unfolding dispatch
    dispatch-Within t s =
        let P = Within packet in
        if-elim P (t == packet_available)
          (λ _. if-elim P (ltb (length packet) 6) (λ _. tt) (λ _. availability-Within _ s))
          (λ _.
            if-elim P (is_draining s.drain && is_drained_type t) (λ _. tt)
              (λ _.
                if-elim P (t == packet_heartbeat) (λ _. bound-Within _)
                  (λ _.
                    if-elim P (t == packet_challenge) (λ _. bound-Within _)
                      (λ _.
                        if-elim P (t == packet_keepalive)
                          (λ _.
                            if-elim P (ltb (length packet) 5) (λ _. tt) (λ _. bounded-Within _ s))
                          (λ _. tt)))))

-- Whatever the state, the datagram, its sender, the readings of the clock and the new challenge: the
-- answer of `handle_datagram`, if it gives one, has at most twice as many bytes as the datagram.
pub qr_datagram-IsWithin :
    (decode : Bytes → Text) (clock : ℕ → ℕ) (fresh : Text) (packet : Bytes) (addr : Address)
    (s : AvailabilityQr)
    → IsWithin packet (handle_datagram decode clock fresh packet addr s).0
unfolding handle_datagram
qr_datagram-IsWithin decode clock fresh packet addr s =
    let P = Within packet in
    if-elim P (ltb s.qr_packet_bytes (length packet)) (λ _. tt)
      (λ _.
        if-elim P (ltb (length packet) 1) (λ _. tt)
          (λ _. dispatch-Within packet decode clock fresh addr (get_or packet 0 0) s))
