-- ===== src/Crypto/EnctypeX/Stream.antt =====
-- `encrypt` and `decrypt`: the statements on the deck, which the two methods share, and the byte that
-- each makes.
use fruitspy.Prelude.{
  Bytes, ℕ, ◌+◌, ◌%◌, ◌≡◌, refl, List, [], ◌∷◌, ◌++◌, get_or, set, bit_xor, bit_xor_undo_left,
}

at : List ℕ → ℕ → ℕ
at state i = get_or state i 0

-- the assignments to state[256] and state[257], and the three exchanges after them
unfoldable pub turn : List ℕ → List ℕ
unfolding at
turn s =
    let card = at s (at s 256) in
    let a = set s 256 ((at s 256 + 1) % 256) in
    let b = set a 257 ((at s 257 + card) % 256) in
    let held = at b (at b 260) in
    let c = set b (at b 260) (at b (at b 257)) in
    let d = set c (at c 257) (at c (at c 259)) in
    let e = set d (at d 259) (at d (at d 256)) in
    let f = set e (at e 256) held in set f 258 ((at f 258 + at f held) % 256)

-- card ^ second, of the turned deck
unfoldable pub pad : List ℕ → ℕ
unfolding at
pad s =
    let first = at s (at s 258) in
    let card = (at s (at s 259) + at s (at s 257) + at s (at s 260)) % 256 in
    let second = at s card in
    let other = (first + at s (at s 256)) % 256 in bit_xor (at s second) (at s other)

-- state[260] = encrypted and state[259] = value, of the encrypted and the plain byte
unfoldable pub note_bytes : ℕ → ℕ → List ℕ → List ℕ
note_bytes encrypted plain s = set (set s 260 encrypted) 259 plain

-- encrypt(data)
unfoldable pub encrypt : List ℕ → Bytes → Bytes × List ℕ
encrypt state [] = ([], state)
encrypt state (value ∷ rest) =
    let turned = turn state in
    let encrypted = bit_xor (pad turned) value in
    let (others, last) = encrypt (note_bytes encrypted value turned) rest in
    (encrypted ∷ others, last)

-- decrypt(data)
unfoldable pub decrypt : List ℕ → Bytes → Bytes × List ℕ
decrypt state [] = ([], state)
decrypt state (value ∷ rest) =
    let turned = turn state in
    let plain = bit_xor (pad turned) value in
    let (others, last) = decrypt (note_bytes value plain turned) rest in (plain ∷ others, last)

-- From equal decks, `decrypt` undoes `encrypt`, on any data, and the decks are equal again after it.
pub decrypt-encrypt :
    (state : List ℕ) (packet : Bytes)
    → decrypt state (encrypt state packet).0 ≡ (packet, (encrypt state packet).1)
unfolding encrypt decrypt
decrypt-encrypt state [] = refl
decrypt-encrypt state (value ∷ rest) =
    let turned = turn state in
    rw
      (
        bit_xor_undo_left (pad turned) value,
        decrypt-encrypt (note_bytes (bit_xor (pad turned) value) value turned) rest,
      )
      refl

-- Two blocks encrypted one after the other are the whole, encrypted at once.
pub encrypt-append :
    (state : List ℕ) (xs ys : Bytes)
    → let first = encrypt state xs in
      let second = encrypt first.1 ys in encrypt state (xs ++ ys) ≡ (first.0 ++ second.0, second.1)
unfolding encrypt
encrypt-append state [] ys = refl
encrypt-append state (value ∷ xs) ys =
    let turned = turn state in
    rw (encrypt-append (note_bytes (bit_xor (pad turned) value) value turned) xs ys) refl
