-- ===== src/Tests/Crypto.antt =====
-- Runs of the ciphers and of the key proof.
use fruitspy.Prelude.{
  Bytes, ℕ, ◌+◌, ◌*◌, ◌/◌, ◌≡◌, ◌≢◌, refl, List, [], ◌∷◌, ◌++◌, text, length, ok, inl, some, arith,
  err, index_error, ◌≤◌,
}
use fruitspy.Crypto.{range_from, range_down}
use fruitspy.Crypto.PeerChat.{PeerChatCipher}
use fruitspy.Crypto.PeerChat
use fruitspy.Crypto.EnctypeX.{
  initialize, shuffle, select, select_loop, step_cursor, IsSelected, select-IsSelected,
  initialize-total,
}
use fruitspy.Crypto.EnctypeX.Stream.{encrypt, decrypt, decrypt-encrypt}
use fruitspy.Crypto.SecKey.{gsseckey, length-gsseckey}

abbrev cipher : PeerChatCipher
cipher = record { cards = range_down 256; first = 0; second = 0 }

abbrev message : Bytes
message = text "NICK player"

transform_undo_example :
    fruitspy.Crypto.PeerChat.transform cipher (fruitspy.Crypto.PeerChat.transform cipher message).0
    ≡ (message, (fruitspy.Crypto.PeerChat.transform cipher message).1)
transform_undo_example = fruitspy.Crypto.PeerChat.transform_undo cipher message

abbrev deck : List ℕ
deck = range_from 0 256 ++ 1 ∷ 3 ∷ 5 ∷ 7 ∷ 9 ∷ []

decrypt-encrypt_example :
    decrypt deck (encrypt deck message).0 ≡ (message, (encrypt deck message).1)
decrypt-encrypt_example = decrypt-encrypt deck message

initialize-total_example :
    (cards : List ℕ) × (initialize (text "challenge") ≡ ok (some cards)) × (length cards ≡ 261)
initialize-total_example = initialize-total (text "challenge") (omega arith)

-- without a byte, the first read is out of bounds
no_identity : initialize [] ≡ err index_error
unfolding initialize shuffle select select_loop step_cursor range_from
no_identity = refl

full_deck : 256 ≤ length deck
unfolding range_from
full_deck = omega arith

select-IsSelected_example :
    IsSelected 200 8 (select 200 deck (text "identity") (record { first = 0; second = 0 }))
select-IsSelected_example =
    select-IsSelected 200 deck (text "identity") (record { first = 0; second = 0 }) full_deck
      (omega arith)

length-gsseckey_example :
    (proof : Bytes) × (gsseckey (text "abcdefghijklmnopqrst") (text "secret") 0 ≡ ok proof)
    × (length proof ≡ (length (text "abcdefghijklmnopqrst") + 2) / 3 * 4)
length-gsseckey_example =
    length-gsseckey (text "abcdefghijklmnopqrst") (text "secret") 0 (omega arith) (omega arith)
      not_empty (inl refl)
  where
    not_empty : length (text "secret") ≢ 0
    not_empty h = omega (arith, h)
