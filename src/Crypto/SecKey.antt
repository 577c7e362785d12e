-- ===== src/Crypto/SecKey.antt =====
-- `gsseckey`: the proof that a game server computes from a challenge and the game's secret.
use fruitspy.Prelude.{
  Bytes, ℕ, zero, suc, ◌+◌, ◌*◌, ◌/◌, ◌%◌, ◌≡◌, ◌≤◌, refl, ap, ◌≢◌, ◌⊎◌, inl, inr, ◌&&◌, List, [],
  ◌∷◌, text, length, get_or, set, Result, ok, err, value_error, if◌then◌else◌, ◌==◌, nat_eq, not,
  leb, bit_xor, arith,
}
use fruitspy.Crypto.{range_from, swap}

unfoldable pub base64 : Bytes
base64 = text "ABCDEFGHIJKLMNOPQRSTUVWXYZabcdefghijklmnopqrstuvwxyz0123456789+/"

-- the loop that shuffles the cards by the key, for the last `count` indices
unfoldable pub shuffle : Bytes → ℕ → ℕ → ℕ → List ℕ → List ℕ
shuffle key index zero acc cards = cards
shuffle key index (suc count) acc cards =
    let next = (acc + get_or cards index 0 + get_or key (index % length key) 0) % 256 in
    shuffle key (index + 1) count next (swap index next cards)

-- the loop over the challenge
unfoldable pub transform : ℕ → ℕ → List ℕ → Bytes → Bytes
transform acc second cards [] = []
transform acc second cards (value ∷ rest) =
    let acc' = (acc + value + 1) % 256 in
    let first_card = get_or cards acc' 0 in
    let second' = (second + first_card) % 256 in
    let second_card = get_or cards second' 0 in
    let swapped = set (set cards second' first_card) acc' second_card in
    bit_xor value (get_or swapped ((first_card + second_card) % 256) 0)
    ∷ transform acc' second' swapped rest

-- while len(transformed) % 3: transformed.append(0)
unfoldable pub pad_thirds : Bytes → Bytes
pad_thirds [] = []
pad_thirds (a ∷ []) = a ∷ 0 ∷ 0 ∷ []
pad_thirds (a ∷ b ∷ []) = a ∷ b ∷ 0 ∷ []
pad_thirds (a ∷ b ∷ c ∷ rest) = a ∷ b ∷ c ∷ pad_thirds rest

-- transformed[index] ^= key[index % len(key)], for enctype 2
unfoldable pub mask_key : ℕ → Bytes → Bytes → Bytes
mask_key index key [] = []
mask_key index key (x ∷ rest) =
    bit_xor x (get_or key (index % length key) 0) ∷ mask_key (index + 1) key rest

-- four characters for three bytes; shifts and masks of a byte, as quotients and remainders
unfoldable pub encode : Bytes → Bytes
encode (x ∷ y ∷ z ∷ rest) =
    get_or base64 (x / 4) 0
    ∷ get_or base64 (x % 4 * 16 + y / 16) 0
    ∷ get_or base64 (y % 16 * 4 + z / 64) 0
    ∷ get_or base64 (z % 64) 0
    ∷ encode rest
encode _ = []

-- the transformed challenge, padded to a multiple of three
unfoldable pub padded : Bytes → Bytes → Bytes
padded challenge key = pad_thirds (transform 0 0 (shuffle key 0 256 0 (range_from 0 256)) challenge)

-- gsseckey(challenge, secret, enctype), of ASCII texts
unfoldable pub gsseckey : Bytes → Bytes → ℕ → Result Bytes
gsseckey source key enctype =
    if not (leb 1 (length source) && leb (length source) 65)
    then ok []
    else if length key == 0
    then err value_error
    else if enctype == 2
    then ok (encode (mask_key 0 key (padded source key)))
    else if enctype == 0
    then ok (encode (padded source key))
    else err value_error

length-transform :
    (source : Bytes) (acc second : ℕ) (cards : List ℕ)
    → length (transform acc second cards source) ≡ length source
unfolding transform
length-transform [] acc second cards = refl
length-transform (value ∷ rest) acc second cards = ap suc (length-transform rest _ _ _)

length-mask_key : (index : ℕ) (key xs : Bytes) → length (mask_key index key xs) ≡ length xs
unfolding mask_key
length-mask_key index key [] = refl
length-mask_key index key (x ∷ xs) = omega (arith, length-mask_key (index + 1) key xs)

length-pad_thirds : (xs : Bytes) → length (pad_thirds xs) ≡ (length xs + 2) / 3 * 3
unfolding pad_thirds
length-pad_thirds [] = refl
length-pad_thirds (a ∷ []) = refl
length-pad_thirds (a ∷ b ∷ []) = refl
length-pad_thirds (a ∷ b ∷ c ∷ rest) = omega (arith, length-pad_thirds rest)

length-encode : (xs : Bytes) → length (encode xs) ≡ length xs / 3 * 4
unfolding encode
length-encode [] = refl
length-encode (a ∷ []) = refl
length-encode (a ∷ b ∷ []) = refl
length-encode (a ∷ b ∷ c ∷ rest) = omega (arith, length-encode rest)

length-padded : (source key : Bytes) → length (padded source key) ≡ (length source + 2) / 3 * 3
unfolding padded
length-padded source key =
    let cards = shuffle key 0 256 0 (range_from 0 256) in
    omega (arith, length-pad_thirds (transform 0 0 cards source), length-transform source 0 0 cards)

-- For a challenge of 1 to 65 characters, a secret that is not empty, and enctype 0 or 2, the proof is
-- made, and it has four characters for every three of the challenge, rounded up.
pub length-gsseckey :
    (source key : Bytes) (enctype : ℕ)
    → 1 ≤ length source
    → length source ≤ 65
    → length key ≢ 0
    → (enctype ≡ 0) ⊎ (enctype ≡ 2)
    → (proof : Bytes) × (gsseckey source key enctype ≡ ok proof)
      × (length proof ≡ (length source + 2) / 3 * 4)
unfolding gsseckey
length-gsseckey source key enctype low high some_key (inl plain) =
    let size = length-padded source key in
    let out = length-encode (padded source key) in
    (
      encode (padded source key),
      ground (arith, low, high, some_key, plain),
      omega (arith, size, out),
    )
length-gsseckey source key enctype low high some_key (inr masked) =
    let size = length-padded source key in
    let same = length-mask_key 0 key (padded source key) in
    let out = length-encode (mask_key 0 key (padded source key)) in
    (
      encode (mask_key 0 key (padded source key)),
      ground (arith, low, high, some_key, masked),
      omega (arith, size, same, out),
    )
