-- ===== src/Crypto/PeerChat.antt =====
-- `PeerChatCipher`: the stream cipher of the peer chat.
use fruitspy.Prelude.{
  Bytes, ℕ, zero, suc, ◌+◌, ◌%◌, ◌≡◌, refl, List, [], ◌∷◌, length, get_or, Result, ok, err,
  value_error, if◌then◌else◌, ◌==◌, nat_eq, not, bit_xor, bit_xor_undo,
}
use fruitspy.Crypto.{range_down, swap}

-- `_cards`, `_first` and `_second`
pub record PeerChatCipher : Type 0 where
  pub cards : List ℕ
  pub first : ℕ
  pub second : ℕ

-- bytes(challenge[i] ^ key[i % len(key)] for i in range(16)), for the last `count` indices
mix : Bytes → Bytes → ℕ → ℕ → Bytes
mix challenge key index zero = []
mix challenge key index (suc count) =
    bit_xor (get_or challenge index 0) (get_or key (index % length key) 0)
    ∷ mix challenge key (index + 1) count

-- the loop that shuffles the cards, for the last `count` indices
unfoldable pub shuffle : Bytes → ℕ → ℕ → ℕ → List ℕ → List ℕ
shuffle mixed index zero acc cards = cards
shuffle mixed index (suc count) acc cards =
    let next = (acc + get_or mixed (index % 16) 0 + get_or cards index 0) % 256 in
    shuffle mixed (index + 1) count next (swap index next cards)

-- PeerChatCipher(challenge, secret), of ASCII texts
unfoldable pub create : Bytes → Bytes → Result PeerChatCipher
unfolding mix
create challenge key =
    if not (length challenge == 16)
    then err value_error
    else if not (length key == 6)
    then err value_error
    else ok (record {
      cards = shuffle (mix challenge key 0 16) 0 256 0 (range_down 256);
      first = 0;
      second = 0;
    })

-- the cipher after one byte of any value, and the byte that the value is combined with
unfoldable pub advance : PeerChatCipher → PeerChatCipher
advance c =
    let first = (c.first + 1) % 256 in
    let second = (c.second + get_or c.cards first 0) % 256 in
    record { cards = swap first second c.cards; first = first; second = second }

-- cards[(card + cards[first]) & 0xFF] after the exchange; `card` stands at `second` then
unfoldable pub pad : PeerChatCipher → ℕ
pad c = get_or c.cards ((get_or c.cards c.second 0 + get_or c.cards c.first 0) % 256) 0

-- transform(data)
unfoldable pub transform : PeerChatCipher → Bytes → Bytes × PeerChatCipher
transform c [] = ([], c)
transform c (value ∷ rest) =
    let next = advance c in
    let (others, last) = transform next rest in (bit_xor value (pad next) ∷ others, last)

-- The same cipher on what it made gives the input back, and ends in the same state.
pub transform_undo :
    (c : PeerChatCipher) (packet : Bytes)
    → transform c (transform c packet).0 ≡ (packet, (transform c packet).1)
unfolding transform
transform_undo c [] = refl
transform_undo c (value ∷ rest) =
    rw (bit_xor_undo value (pad (advance c)), transform_undo (advance c) rest) refl
