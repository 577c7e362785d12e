-- ===== src/AvailabilityQr/Keys.antt =====
-- `_read_cstring` and `parse_qr_server_keys`: the text up to a zero byte, and the keys of a heartbeat.
use fruitspy.Prelude.{
  Text, Bytes, ℕ, zero, suc, ◌+◌, ◌<◌, ◌≡◌, refl, Option, none, some, [], ◌∷◌, length, take, drop,
  ltb, if◌then◌else◌, if-elim, ◌==◌, nat_eq, list_eq, Result, ok, err, value_error, arith,
}
use fruitspy.Dict.{Dict, put}

-- data.find(b"\x00"), from the head of the list
unfoldable pub find_zero : Bytes → Option ℕ
find_zero [] = none
find_zero (b ∷ rest) =
    let later = find_zero rest in
    if b == 0 then some 0 else (elim later [ none ↦ none | some n ↦ some (suc n) ])

unfoldable pub cstring_at : (Bytes → Text) → Bytes → ℕ → Option ℕ → Result (Text × ℕ)
cstring_at decode packet offset none = err value_error
cstring_at decode packet offset (some n) = ok (decode (take n (drop offset packet)), offset + n + 1)

-- _read_cstring(data, offset)
unfoldable pub read_cstring : (Bytes → Text) → Bytes → ℕ → Result (Text × ℕ)
unfolding cstring_at
read_cstring decode packet offset = cstring_at decode packet offset (find_zero (drop offset packet))

-- one turn of the loop: it ends with the keys or an exception, or goes on from an offset
pub data Turn : Type 0 where
  done : Result (Dict Text Text) → Turn
  go_on : Dict Text Text → ℕ → Turn

unfoldable pub read_value : Text → Dict Text Text → Result (Text × ℕ) → Turn
read_value key keys (err e) = done (err e)
read_value key keys (ok (value, next)) = go_on (put key value keys) next

unfoldable pub read_key : (Bytes → Text) → Bytes → Dict Text Text → Result (Text × ℕ) → Turn
read_key decode packet keys (err e) = done (err e)
read_key decode packet keys (ok (key, next)) =
    if length key == 0
    then done (ok keys)
    else read_value key keys (read_cstring decode packet next)

unfoldable pub turn : (Bytes → Text) → Bytes → Dict Text Text → ℕ → Turn
turn decode packet keys offset =
    if ltb offset (length packet)
    then read_key decode packet keys (read_cstring decode packet offset)
    else done (ok keys)

-- while offset < len(data), with `fuel` turns left; none when they run out
unfoldable pub parse_loop : ℕ → (Bytes → Text) → Bytes → Turn → Option (Result (Dict Text Text))
parse_loop fuel decode packet (done r) = some r
parse_loop zero decode packet (go_on keys offset) = none
parse_loop (suc fuel) decode packet (go_on keys offset) =
    parse_loop fuel decode packet (turn decode packet keys offset)

finished : Option (Result (Dict Text Text)) → Result (Dict Text Text)
finished none = err value_error
finished (some r) = r

-- parse_qr_server_keys(data, offset): the turns never run out
unfoldable pub parse_qr_server_keys : (Bytes → Text) → Bytes → ℕ → Result (Dict Text Text)
unfolding finished
parse_qr_server_keys decode packet offset =
    finished (parse_loop (suc (suc (length packet))) decode packet (go_on [] offset))

-- A turn goes on only past where it began.
Advances : ℕ → Bytes → Turn → Type 0
Advances offset packet (done r) = Unit
Advances offset packet (go_on keys next) = (offset < next) × (offset < length packet)

read_value-Advances :
    (key : Text) (keys : Dict Text Text) (decode : Bytes → Text) (packet : Bytes) (offset next : ℕ)
    (o : Option ℕ)
    → offset < next
    → offset < length packet
    → Advances offset packet (read_value key keys (cstring_at decode packet next o))
unfolding read_value cstring_at Advances
read_value-Advances key keys decode packet offset next none p q = tt
read_value-Advances key keys decode packet offset next (some n) p q = (omega (arith, p), q)

read_key-Advances :
    (decode : Bytes → Text) (packet : Bytes) (keys : Dict Text Text) (offset : ℕ) (o : Option ℕ)
    → offset < length packet
    → Advances offset packet (read_key decode packet keys (cstring_at decode packet offset o))
unfolding read_key cstring_at Advances read_cstring
read_key-Advances decode packet keys offset none q = tt
read_key-Advances decode packet keys offset (some n) q =
    let key = decode (take n (drop offset packet)) in
    if-elim (Advances offset packet) (length key == 0) (λ empty. tt)
      (λ more. read_value-Advances key keys decode packet offset (offset + n + 1) _ (omega arith) q)

turn-Advances :
    (decode : Bytes → Text) (packet : Bytes) (keys : Dict Text Text) (offset : ℕ)
    → Advances offset packet (turn decode packet keys offset)
unfolding turn read_cstring Advances
turn-Advances decode packet keys offset =
    if-elim (Advances offset packet) (ltb offset (length packet))
      (λ inside. read_key-Advances decode packet keys offset _ (ground (arith, inside)))
      (λ outside. tt)

parse_loop-total :
    (fuel : ℕ) (decode : Bytes → Text) (packet : Bytes) (t : Turn) (offset : ℕ)
    → Advances offset packet t
    → length packet < fuel + offset + 1
    → (r : Result (Dict Text Text)) × (parse_loop fuel decode packet t ≡ some r)
unfolding parse_loop Advances
parse_loop-total fuel decode packet (done r) offset a h = (r, refl)
parse_loop-total zero decode packet (go_on keys next) offset a h = absurd (omega (arith, a.1, h))
parse_loop-total (suc fuel) decode packet (go_on keys next) offset a h =
    parse_loop-total fuel decode packet (turn decode packet keys next) next
      (turn-Advances decode packet keys next) (omega (arith, a.0, h))

finished-some :
    (o : Option (Result (Dict Text Text))) {r : Result (Dict Text Text)}
    → o ≡ some r
    → o ≡ some (finished o)
unfolding finished
finished-some none h = cc
finished-some (some r) h = refl

-- Whatever the packet, the offset and the decoding: the loop of `parse_qr_server_keys` ends within
-- the turns it is given, and its result is the one returned.
pub parse_qr_server_keys-total :
    (decode : Bytes → Text) (packet : Bytes) (offset : ℕ)
    → parse_loop (suc (suc (length packet))) decode packet (go_on [] offset)
      ≡ some (parse_qr_server_keys decode packet offset)
unfolding parse_qr_server_keys finished parse_loop
parse_qr_server_keys-total decode packet offset =
    let (r, e) =
      parse_loop-total (suc (length packet)) decode packet (turn decode packet [] offset) offset
        (turn-Advances decode packet [] offset) (omega arith) in
    finished-some _ e
