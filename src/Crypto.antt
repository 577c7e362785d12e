-- ===== src/Crypto.antt =====
-- server/fruitspy/crypto.py: the key proof of the game's servers, and the two stream ciphers. Bytes
-- are numbers below 256, `x & 0xFF` is `x % 256`, and the cards are lists of 256 (or 261) numbers,
-- read with `get_or`, whose default is never met on a full deck.
pub mod PeerChat
pub mod EnctypeX
pub mod SecKey
use fruitspy.Prelude.{ℕ, zero, suc, ◌+◌, Bool, List, [], ◌∷◌, get_or, set}

-- list(range(n))
unfoldable pub range_from : ℕ → ℕ → List ℕ
range_from i zero = []
range_from i (suc n) = i ∷ range_from (i + 1) n

-- list(range(n - 1, -1, -1))
unfoldable pub range_down : ℕ → List ℕ
range_down zero = []
range_down (suc n) = n ∷ range_down n

-- cards[i], cards[j] = cards[j], cards[i]
unfoldable pub swap : ℕ → ℕ → List ℕ → List ℕ
swap i j cards = set (set cards i (get_or cards j 0)) j (get_or cards i 0)
