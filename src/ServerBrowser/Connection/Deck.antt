-- ===== src/ServerBrowser/Connection/Deck.antt =====
-- The blocks pushed on a connection, as the client deciphers them.
use fruitspy.Prelude.{
  Bytes, ℕ, ◌≡◌, refl, true, some, List, [], ◌∷◌, ◌++◌, Result, ok, err, arith, nat_eq, list_eq, ap,
  ◌∙◌, subst, sym,
}
use mathlib.Core.List.{append-nil, append_assoc}
use fruitspy.Dict.{get}
use fruitspy.Crypto.EnctypeX.Stream.{encrypt, decrypt, decrypt-encrypt, encrypt-append}
use fruitspy.ServerBrowser.{TextOps, ServerBrowser}
use fruitspy.ServerBrowser.Subscription.{ServerListSubscription, subscription_frames}
use fruitspy.ServerBrowser.Connection.{
  Connection, clear_event, write_frames, push_result, push_to, is_set, push_registered_servers,
}

-- what the blocks of a stream are together
pub joined : List Bytes → Bytes
joined [] = []
joined (block ∷ rest) = block ++ joined rest

-- the blocks that `write_frames` adds
blocks_of : List Bytes → List ℕ → List Bytes
blocks_of [] deck = []
blocks_of (frame ∷ rest) deck = (encrypt deck frame).0 ∷ blocks_of rest (encrypt deck frame).1

write_frames-blocks :
    (frames : List Bytes) (deck : List ℕ) (writes : List Bytes)
    → write_frames frames deck writes
      ≡ ((encrypt deck (joined frames)).1, writes ++ blocks_of frames deck)
unfolding write_frames joined blocks_of encrypt
write_frames-blocks [] deck writes = rw (append-nil writes) refl
write_frames-blocks (frame ∷ rest) deck writes =
    let (block, next) = encrypt deck frame in
    rw (encrypt-append deck frame (joined rest)) (
      write_frames-blocks rest next (writes ++ block ∷ [])
      ∙ ap (λ all. ((encrypt next (joined rest)).1, all))
          (append_assoc writes (block ∷ []) (blocks_of rest next)))

joined-blocks :
    (frames : List Bytes) (deck : List ℕ)
    → joined (blocks_of frames deck) ≡ (encrypt deck (joined frames)).0
unfolding joined blocks_of encrypt
joined-blocks [] deck = refl
joined-blocks (frame ∷ rest) deck =
    rw (encrypt-append deck frame (joined rest), joined-blocks rest (encrypt deck frame).1) refl

-- What a client with the connection's deck reads of what was written after `before`.
pub record Pushed (frames : List Bytes) (deck : List ℕ) (next : ServerListSubscription)
    (before after : Connection) : Type 0 where
  pub blocks : List Bytes
  pub last : List ℕ
  pub written : after.writes ≡ before.writes ++ blocks
  pub keeps_cipher : after.cipher ≡ some last
  pub keeps_subscription : after.subscription ≡ some next
  pub read : decrypt deck (joined blocks) ≡ (joined frames, last)

push_result-Pushed :
    (c : Connection) (deck : List ℕ) (frames : List Bytes) (next : ServerListSubscription)
    (made : Result (List Bytes × ServerListSubscription) × ServerBrowser)
    → made.0 ≡ ok (frames, next)
    → Pushed frames deck next c (push_result c deck made).0
unfolding push_result
push_result-Pushed c deck frames next (err e, s) h = absurd (cc)
push_result-Pushed c deck frames next (ok (fs, sub), s) h =
    let fs_eq : fs ≡ frames = ground (arith, h) in
    let sub_eq : sub ≡ next = ground (arith, h) in
    let wrote = write_frames-blocks fs deck c.writes in
    record {
      blocks = blocks_of fs deck;
      last = (encrypt deck (joined fs)).1;
      written = ap (λ r. r.1) wrote;
      keeps_cipher = ap (λ r. some r.0) wrote;
      keeps_subscription = ap some sub_eq;
      read = rw (joined-blocks fs deck) (
          subst
            (λ xs.
              decrypt deck (encrypt deck (joined fs)).0 ≡ (joined xs, (encrypt deck (joined fs)).1))
            fs_eq (decrypt-encrypt deck (joined fs)));
    }

-- When the event of a connection with a deck and a subscription is set and its update can be made, the
-- blocks that are written decipher to the frames of the update, one after the other, and leave the
-- client's deck equal to the one that the connection keeps.
pub push_registered_servers-Pushed :
    (ops : TextOps) (now : ℕ) (c : Connection) (s : ServerBrowser) (deck : List ℕ)
    (sub next : ServerListSubscription) (frames : List Bytes)
    → c.is_pushing ≡ true
    → c.cipher ≡ some deck
    → c.subscription ≡ some sub
    → get c.change_event s.state.server_change_events ≡ some true
    → (subscription_frames ops now sub (clear_event c s)).0 ≡ ok (frames, next)
    → Pushed frames deck next c (push_registered_servers ops now c s).0
unfolding push_registered_servers push_to is_set
push_registered_servers-Pushed ops now c s deck sub next frames pushing ciphered subscribed set
      made =
    let run : push_registered_servers ops now c s
        ≡ push_result c deck (subscription_frames ops now sub (clear_event c s)) =
      simp (pushing, set, ciphered, subscribed) in
    subst (λ (r : Connection × ServerBrowser). Pushed frames deck next c r.0) (sym run)
      (push_result-Pushed c deck frames next (subscription_frames ops now sub (clear_event c s))
        made)
