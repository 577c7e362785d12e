-- ===== src/Inet.antt =====
-- What the services use of the `socket` and `struct` modules: dotted quads, and packed integers.
-- `inet_aton` reads one to four numbers with dots, each decimal, octal (0...) or hexadecimal
-- (0x...), as the C function behind Python's does; `none` is its OSError.
pub mod RoundTrip
use fruitspy.Prelude.{
  Bytes, Text, ℕ, zero, suc, ◌+◌, ◌-◌, ◌*◌, ◌/◌, ◌%◌, ◌^◌, Bool, true, false, ◌&&◌, ◌||◌, Option,
  none, some, List, [], ◌∷◌, ◌++◌, ltb, leb, nat_beq, Result, ok, err, struct_error, if◌then◌else◌,
  length, get_or, take,
}

-- struct.pack(">H", n) and struct.pack("<H", n), for n below 2 ** 16
unfoldable pub pack_u16_be : ℕ → Bytes
pack_u16_be n = (n / 256) ∷ (n % 256) ∷ []

unfoldable pub pack_u16_le : ℕ → Bytes
pack_u16_le n = (n % 256) ∷ (n / 256) ∷ []

-- the same for any number, with the struct.error of one that does not fit
unfoldable pub checked_u16_be : ℕ → Result Bytes
checked_u16_be n = if ltb n 65536 then ok (pack_u16_be n) else err struct_error

unfoldable pub checked_u16_le : ℕ → Result Bytes
checked_u16_le n = if ltb n 65536 then ok (pack_u16_le n) else err struct_error

-- struct.unpack(">H", data[offset:offset + 2])
unfoldable pub unpack_u16_be : Bytes → ℕ → ℕ
unpack_u16_be packet offset = get_or packet offset 0 * 256 + get_or packet (offset + 1) 0

-- the value of a digit in a base up to 16
unfoldable pub digit_value : ℕ → Option ℕ
digit_value c =
    if leb b'0' c && leb c b'9'
    then some (c - b'0')
    else if leb b'a' c && leb c b'f'
    then some (c - b'a' + 10)
    else if leb b'A' c && leb c b'F'
    then some (c - b'A' + 10)
    else none

unfoldable pub digit_in : ℕ → ℕ → Option ℕ
unfolding digit_value
digit_in base c = elim (digit_value c) [
  | none ↦ none
  | some d ↦ if ltb d base then some d else none
]

-- the longest run of digits, and what follows
unfoldable pub read_digits : ℕ → ℕ → Text → ℕ × Text
read_digits base acc [] = (acc, [])
read_digits base acc (c ∷ cs) = elim (digit_in base c) [
  | none ↦ (acc, c ∷ cs)
  | some d ↦ read_digits base (acc * base + d) cs
]

is_hex_prefix : ℕ → ℕ → ℕ → Bool
is_hex_prefix a b c =
    nat_beq a b'0'
    && (nat_beq b b'x' || nat_beq b b'X')
    && (elim (digit_in 16 c) [ none ↦ false | some _ ↦ true ])

-- strtoul(text, &end, 0)
unfoldable pub read_number : Text → ℕ × Text
unfolding is_hex_prefix
read_number [] = (0, [])
read_number (a ∷ []) = read_digits (if nat_beq a b'0' then 8 else 10) 0 (a ∷ [])
read_number (a ∷ b ∷ []) = read_digits (if nat_beq a b'0' then 8 else 10) 0 (a ∷ b ∷ [])
read_number (a ∷ b ∷ c ∷ cs) =
    if is_hex_prefix a b c
    then read_digits 16 0 (c ∷ cs)
    else read_digits (if nat_beq a b'0' then 8 else 10) 0 (a ∷ b ∷ c ∷ cs)

starts_with_digit : Text → Bool
starts_with_digit [] = false
starts_with_digit (c ∷ cs) = leb b'0' c && leb c b'9'

is_space : ℕ → Bool
is_space c = nat_beq c b' ' || (leb 9 c && leb c 13)

-- a number as `k` bytes, the highest first
unfoldable pub to_bytes_be : ℕ → ℕ → Bytes
to_bytes_be zero n = []
to_bytes_be (suc k) n = to_bytes_be k (n / 256) ++ (n % 256) ∷ []

-- the last number fills the bytes that are left
last_part : ℕ → Bytes → ℕ → Option Bytes
last_part left seen n = if ltb n (256 ^ left) then some (seen ++ to_bytes_be left n) else none

-- what follows a number: its end, a dot and further numbers, or a space and anything
unfoldable pub after_number : (Bytes → Text → Option Bytes) → ℕ → Bytes → ℕ → Text → Option Bytes
unfolding is_space last_part
after_number next left seen n [] = last_part left seen n
after_number next left seen n (c ∷ more) =
    if nat_beq c b'.'
    then if ltb 255 n then none else next (seen ++ n ∷ []) more
    else if is_space c
    then last_part left seen n
    else none

-- the numbers that are left, at most `left`, behind the bytes already read
unfoldable pub aton_parts : ℕ → Bytes → Text → Option Bytes
unfolding starts_with_digit after_number
aton_parts zero seen t = none
aton_parts (suc left) seen t =
    let (n, rest) = read_number t in
    if starts_with_digit t then after_number (aton_parts left) (suc left) seen n rest else none

-- socket.inet_aton(host)
unfoldable pub inet_aton : Text → Option Bytes
inet_aton host = aton_parts 4 [] host

-- a byte in decimal
unfoldable pub decimal : ℕ → Text
decimal n =
    if ltb n 10
    then (b'0' + n) ∷ []
    else if ltb n 100
    then (b'0' + n / 10) ∷ (b'0' + n % 10) ∷ []
    else (b'0' + n / 100) ∷ (b'0' + n / 10 % 10) ∷ (b'0' + n % 10) ∷ []

-- socket.inet_ntoa(bytes) of four bytes
unfoldable pub inet_ntoa : Bytes → Text
unfolding decimal
inet_ntoa b =
    decimal (get_or b 0 0)
    ++ b'.'
      ∷ (decimal (get_or b 1 0) ++ b'.' ∷ (decimal (get_or b 2 0) ++ b'.' ∷ decimal (get_or b 3 0)))
