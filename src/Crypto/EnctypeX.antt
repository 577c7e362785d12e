-- ===== src/Crypto/EnctypeX.antt =====
-- `EnctypeX`: the stream cipher of the server browser's lists.
pub mod Stream
use fruitspy.Prelude.{
  Bytes, ℕ, zero, suc, ◌+◌, ◌-◌, ◌*◌, ◌%◌, ◌^◌, ◌<◌, ◌≤◌, ◌≡◌, refl, ap, ◌∙◌, inl, inr, Bool, true,
  false, Option, none, some, List, [], ◌∷◌, ◌++◌, length, length-set, length-append, get_or,
  get_elem?, get_elem-lt, set, replicate, or_raise, and_next, ◌>>=◌, index_error, Result, ok, err,
  value_error, if◌then◌else◌, ◌==◌, nat_eq, not, bit_xor, bit_xor_undo, bit_xor_undo_left, ltb, leb,
  Bool-cases, if-elim, arith,
}
use fruitspy.Crypto.{range_from, swap}

-- mask: the least 2 ** k - 1 that is at least `count`, for the counts of a byte
unfoldable pub mask_of : ℕ → ℕ
mask_of count =
    if leb count 1
    then 1
    else if leb count 3
    then 3
    else if leb count 7
    then 7
    else if leb count 15
    then 15
    else if leb count 31
    then 31
    else if leb count 63
    then 63
    else if leb count 127
    then 127
    else 255

-- `first` and `second` of the selection
pub record Cursor : Type 0 where
  pub first : ℕ
  pub second : ℕ

-- `first` is `value` and `second` goes on, or starts again behind the last byte
move_cursor : ℕ → ℕ → ℕ → Cursor
move_cursor size second value =
    if leb size (second + 1)
    then record { first = value + size; second = 0 }
    else record { first = value; second = second + 1 }

-- one round of the loop: the two positions move on; a read out of bounds is an IndexError
unfoldable pub step_cursor : List ℕ → Bytes → Cursor → Result Cursor
unfolding move_cursor
step_cursor cards identity c = do
  card ← or_raise index_error (get_elem? cards (c.first % 256))
  byte ← or_raise index_error (get_elem? identity c.second)
  ok (move_cursor (length identity) c.second ((card + byte) % 2 ^ 32))

-- the number that a round selects: first & mask, from the twelfth attempt on % count
unfoldable pub selected_by : ℕ → ℕ → Cursor → ℕ
selected_by count attempts c =
    let masked = c.first % (mask_of count + 1) in if ltb 11 attempts then masked % count else masked

-- while True, with `fuel` rounds left and `attempts` made; `none` when they run out
unfoldable pub select_loop : ℕ → ℕ → ℕ → List ℕ → Bytes → Cursor → Result (Option (ℕ × Cursor))
select_loop zero attempts count cards identity c = ok none
select_loop (suc fuel) attempts count cards identity c = do
  next ← step_cursor cards identity c
  let selected = selected_by count (attempts + 1) next
  let later = select_loop fuel (attempts + 1) count cards identity next
  if leb selected count then ok (some (selected, next)) else later

-- _select(state, count, identity, first, second)
unfoldable pub select : ℕ → List ℕ → Bytes → Cursor → Result (Option (ℕ × Cursor))
select zero cards identity c = ok (some (0, c))
select (suc n) cards identity c = select_loop 12 0 (suc n) cards identity c

step_cursor-total :
    (cards : List ℕ) (identity : Bytes) (c : Cursor)
    → 256 ≤ length cards
    → c.second < length identity
    → (next : Cursor) × (step_cursor cards identity c ≡ ok next) × (next.second < length identity)
unfolding step_cursor move_cursor
step_cursor-total cards identity c full inside =
    let (card, a) = get_elem-lt cards (c.first % 256) (omega (arith, full)) in
    let (byte, b) = get_elem-lt identity c.second inside in
    let value = (card + byte) % 2 ^ 32 in
    (
      move_cursor (length identity) c.second value,
      rw (a, b) refl,
      if-elim (λ (next : Cursor). next.second < length identity)
          (leb (length identity) (c.second + 1)) (λ _. omega (arith, inside))
          (λ more. ground (arith, more)),
    )

mod-bound : (a n : ℕ) → a % suc n ≤ suc n
mod-bound a n = omega arith

-- What a selection gives: a number up to the count, and a position within the identity.
abbrev pub IsSelected : ℕ → ℕ → Result (Option (ℕ × Cursor)) → Type 0
IsSelected count size o =
    (s : ℕ) × (c : Cursor) × (o ≡ ok (some (s, c))) × (s ≤ count) × (c.second < size)

selected_late :
    (n attempts : ℕ) (c : Cursor) → 11 ≤ attempts → selected_by (suc n) (attempts + 1) c ≤ suc n
unfolding selected_by
selected_late n attempts c h = ground (arith, mod-bound (c.first % (mask_of (suc n) + 1)) n)

loop-IsSelected :
    (count size selected : ℕ) (next : Cursor) (later : Result (Option (ℕ × Cursor)))
    → next.second < size
    → (leb selected count ≡ false → IsSelected count size later)
    → IsSelected count size (if leb selected count then ok (some (selected, next)) else later)
loop-IsSelected count size selected next later inside other =
    if-elim (IsSelected count size) (leb selected count)
      (λ fits. (selected, next, refl, ground (arith, fits), inside)) other

module _ (cards : List ℕ) (identity : Bytes) (full : 256 ≤ length cards) where
  select_loop-IsSelected :
      (fuel attempts n : ℕ) (c : Cursor)
      → 12 ≤ suc fuel + attempts
      → c.second < length identity
      → IsSelected
          (suc n)
          (length identity)
          (select_loop (suc fuel) attempts (suc n) cards identity c)
  unfolding select_loop
  select_loop-IsSelected zero attempts n c q inside =
      let (next, stepped, within) = step_cursor-total cards identity c full inside in
      let bound = selected_late n attempts next (omega (arith, q)) in
      rw stepped (
        loop-IsSelected (suc n) (length identity) (selected_by (suc n) (attempts + 1) next) next
          (ok none) within (λ long. absurd (ground (arith, long, bound))))
  select_loop-IsSelected (suc fuel) attempts n c q inside =
      let (next, stepped, within) = step_cursor-total cards identity c full inside in
      rw stepped (
        loop-IsSelected (suc n) (length identity) (selected_by (suc n) (attempts + 1) next) next _
          within
          (λ long. select_loop-IsSelected fuel (attempts + 1) n next (omega (arith, q)) within))

-- With at least 256 cards and a position within the identity, the loop of `_select` raises no
-- IndexError and ends within twelve rounds, with a number up to the count and a position that is
-- again within the identity.
pub select-IsSelected :
    (count : ℕ) (cards : List ℕ) (identity : Bytes) (c : Cursor)
    → 256 ≤ length cards
    → c.second < length identity
    → IsSelected count (length identity) (select count cards identity c)
unfolding select
select-IsSelected zero cards identity c full inside = (0, c, refl, omega arith, inside)
select-IsSelected (suc n) cards identity c full inside =
    select_loop-IsSelected cards identity full 11 0 n c (omega arith) inside

-- for count in range(255, -1, -1), for the counts below `n`
unfoldable pub shuffle : ℕ → Bytes → Cursor → List ℕ → Result (Option (List ℕ × Cursor))
shuffle zero identity c cards = ok (some (cards, c))
shuffle (suc n) identity c cards = do
  selected ← select n cards identity c
  and_next selected (λ (found : ℕ × Cursor). shuffle n identity found.1 (swap n found.0 cards))

-- state[256] to state[260], from the shuffled cards
unfoldable pub set_registers : List ℕ × Cursor → List ℕ
set_registers (cards, c) =
    let a = set cards 256 (get_or cards 1 0) in
    let b = set a 257 (get_or a 3 0) in
    let d = set b 258 (get_or b 5 0) in
    let e = set d 259 (get_or d 7 0) in set e 260 (get_or e (c.first % 256) 0)

-- _initialize(identity)
unfoldable pub initialize : Bytes → Result (Option (List ℕ))
initialize identity = do
  made ← shuffle 256 identity (record { first = 0; second = 0 }) (range_from 0 256 ++ replicate 5 0)
  and_next made (λ r. ok (some (set_registers r)))

length-swap : (i j : ℕ) (cards : List ℕ) → length (swap i j cards) ≡ length cards
unfolding swap
length-swap i j cards =
    length-set (set cards i (get_or cards j 0)) j (get_or cards i 0)
    ∙ length-set cards i (get_or cards j 0)

shuffle-total :
    (n : ℕ) (identity : Bytes) (c : Cursor) (cards : List ℕ)
    → 256 ≤ length cards
    → c.second < length identity
    → (result : List ℕ × Cursor) × (shuffle n identity c cards ≡ ok (some result))
      × (length result.0 ≡ length cards)
unfolding shuffle
shuffle-total zero identity c cards full inside = ((cards, c), refl, refl)
shuffle-total (suc n) identity c cards full inside =
    let (s, next, found, small, within) = select-IsSelected n cards identity c full inside in
    let same = length-swap n s cards in
    let (result, rest, long) =
      shuffle-total n identity next (swap n s cards) (omega (arith, full, same)) within in
    (result, rw found rest, long ∙ same)

length-set_registers : (r : List ℕ × Cursor) → length (set_registers r) ≡ length r.0
unfolding set_registers
length-set_registers (cards, c) = simp (length-set)

length-range_from : (i n : ℕ) → length (range_from i n) ≡ n
unfolding range_from
length-range_from i zero = refl
length-range_from i (suc n) = ap suc (length-range_from (i + 1) n)

-- For an identity of at least one byte, `_initialize` raises no IndexError and makes a deck of 261
-- cards: no selection runs out of rounds.
pub initialize-total :
    (identity : Bytes)
    → 0 < length identity
    → (cards : List ℕ) × (initialize identity ≡ ok (some cards)) × (length cards ≡ 261)
unfolding initialize
initialize-total identity some_byte =
    let start = range_from 0 256 ++ replicate 5 0 in
    let size : length start ≡ 261 =
      length-append (range_from 0 256) (replicate 5 0)
      ∙ ap (λ n. n + 5) (length-range_from 0 256) in
    let (result, made, long) =
      shuffle-total 256 identity (record { first = 0; second = 0 }) start (omega (arith, size))
        some_byte in
    (set_registers result, rw made refl, length-set_registers result ∙ long ∙ size)

-- EnctypeX(secret, validate, server_challenge): the mixing of the challenge
unfoldable pub mix_at : ℕ → ℕ → Bytes → Bytes → Bytes
mix_at index value key mixed =
    let target = (get_or key (index % length key) 0 * index) % 8 in
    set mixed target (bit_xor (get_or mixed target 0) (bit_xor (get_or mixed (index % 8) 0) value))

unfoldable pub mix : ℕ → Bytes → Bytes → Bytes → Bytes
mix index key [] mixed = mixed
mix index key (value ∷ rest) mixed = mix (index + 1) key rest (mix_at index value key mixed)

-- the challenge of eight bytes stays one
pub length-mix :
    (index : ℕ) (key rest mixed : Bytes) → length (mix index key rest mixed) ≡ length mixed
unfolding mix mix_at
length-mix index key [] mixed = refl
length-mix index key (value ∷ rest) mixed =
    length-mix (index + 1) key rest (mix_at index value key mixed) ∙ length-set mixed _ _

-- a deck, or the ValueError of a challenge or a secret of the wrong length; `none` inside `ok` stands
-- for a selection without end
unfoldable pub create : Bytes → Bytes → Bytes → Result (Option (List ℕ))
create key validate server_challenge =
    if not (length validate == 8)
    then err value_error
    else if length key == 0
    then err value_error
    else initialize (mix 0 key server_challenge validate)

-- A cipher that is made has a deck.
pub create-deck :
    (key validate server_challenge : Bytes) (made : Option (List ℕ))
    → create key validate server_challenge ≡ ok made
    → (deck : List ℕ) × (made ≡ some deck)
unfolding create
create-deck key validate server_challenge made h = elim (Bool-cases (length validate == 8)) [
  | inl eight ↦
      let mixed = mix 0 key server_challenge validate in
      let (deck, total, size) =
        initialize-total mixed
          (ground (arith, eight, length-mix 0 key server_challenge validate)) in
      (deck, ground (arith, total, h, eight))
  | inr other ↦ absurd (ground (arith, h, other))
]
