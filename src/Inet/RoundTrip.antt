-- ===== src/Inet/RoundTrip.antt =====
-- `inet_aton` answers four bytes, and reads back what `inet_ntoa` prints.
use mathlib.Core.List.{append-nil}
use fruitspy.Prelude.{
  Bytes, Text, ℕ, zero, suc, ◌+◌, ◌*◌, ◌/◌, ◌%◌, ◌≡◌, ◌<◌, refl, true, false, Option, none, some,
  [], ◌∷◌, ◌++◌, ltb, nat_beq, if◌then◌else◌, length, length-append, arith, text, Bool-cases, inl,
  inr,
}
use fruitspy.Inet.{
  after_number, inet_aton, inet_ntoa, decimal, aton_parts, last_part, to_bytes_be, read_number,
  read_digits, digit_in, starts_with_digit,
}

private_net : inet_aton (text "192.168.0.17") ≡ some (192 ∷ 168 ∷ 0 ∷ 17 ∷ [])
unfolding inet_aton aton_parts read_number read_digits digit_in to_bytes_be
private_net = refl

odd_forms :
    (inet_aton (text "0x7f.1") ≡ some (127 ∷ 0 ∷ 0 ∷ 1 ∷ [])) × (inet_aton (text "010.08") ≡ none)
unfolding inet_aton aton_parts read_number read_digits digit_in to_bytes_be
odd_forms = (refl, refl)

length-to_bytes_be : (k n : ℕ) → length (to_bytes_be k n) ≡ k
unfolding to_bytes_be
length-to_bytes_be zero n = refl
length-to_bytes_be (suc k) n = omega (
  arith,
  length-append (to_bytes_be k (n / 256)) ((n % 256) ∷ []),
  length-to_bytes_be k (n / 256),
)

length-last_part :
    (left : ℕ) (seen : Bytes) (n : ℕ) {b : Bytes}
    → last_part left seen n ≡ some b
    → length b ≡ length seen + left
unfolding last_part
length-last_part left seen n h =
    ground (arith, length-append seen (to_bytes_be left n), length-to_bytes_be left n)

length-after_number :
    (next : Bytes → Text → Option Bytes) (left : ℕ) (seen : Bytes) (n : ℕ) (rest : Text) {b : Bytes}
    → ((seen' : Bytes) (more : Text) → next seen' more ≡ some b → length b ≡ length seen' + left)
    → after_number next (suc left) seen n rest ≡ some b
    → length b ≡ length seen + suc left
unfolding after_number
length-after_number next left seen n [] ih h = length-last_part (suc left) seen n h
length-after_number next left seen n (c ∷ more) ih h = elim (Bool-cases (nat_beq c b'.')) [
  | inl dot ↦ omega (arith, length-append seen (n ∷ []), ih (seen ++ n ∷ []) more (ground arith))
  | inr end ↦ length-last_part (suc left) seen n (ground arith)
]

length-aton_parts :
    (left : ℕ) (seen : Bytes) (t : Text) {b : Bytes}
    → aton_parts left seen t ≡ some b
    → length b ≡ length seen + left
unfolding aton_parts
length-aton_parts zero seen t h = cc
length-aton_parts (suc left) seen t h = elim (Bool-cases (starts_with_digit t)) [
  | inl digit ↦
      length-after_number (aton_parts left) left seen (read_number t).0 (read_number t).1
        (λ s' m. length-aton_parts left s' m) (rw digit at h)
  | inr other ↦ absurd (ground arith)
]

-- Whatever text `inet_aton` accepts, it answers four bytes.
pub length-inet_aton : (host : Text) {b : Bytes} → inet_aton host ≡ some b → length b ≡ 4
unfolding inet_aton
length-inet_aton host h = omega (arith, length-aton_parts 4 [] host h)

read_number_plain :
    (a b : ℕ) (cs : Text)
    → nat_beq b b'x' ≡ false
    → nat_beq b b'X' ≡ false
    → read_number (a ∷ b ∷ cs) ≡ read_digits (if nat_beq a b'0' then 8 else 10) 0 (a ∷ b ∷ cs)
unfolding read_number
read_number_plain a b [] h k = refl
read_number_plain a b (c ∷ cs) h k = ground arith

digit_in_base : (base d : ℕ) → d < 10 → d < base → digit_in base (b'0' + d) ≡ some d
unfolding digit_in
digit_in_base base d h k = ground arith

-- What may follow a printed number.
abbrev Ends : Text → Type 0
Ends [] = Unit
Ends (c ∷ cs) = (c ≡ b'.')

read_digits_end : (base acc : ℕ) (t : Text) → Ends t → read_digits base acc t ≡ (acc, t)
unfolding read_digits digit_in
read_digits_end base acc [] h = refl
read_digits_end base acc (c ∷ t) h = rw h

read_digit :
    (base acc d : ℕ) (t : Text)
    → d < 10
    → d < base
    → read_digits base acc ((b'0' + d) ∷ t) ≡ read_digits base (acc * base + d) t
unfolding read_digits
read_digit base acc d t h k = rw (digit_in_base base d h k, read_digits)

-- The base of a printed number: octal for a lone zero, which reads the same.
first_base : ℕ → ℕ
first_base a = if nat_beq a b'0' then 8 else 10

first_base-lt : (d : ℕ) → d < 10 → d < first_base (b'0' + d)
unfolding first_base
first_base-lt d h = ground arith

first_base_ten : (d : ℕ) → 0 < d → first_base (b'0' + d) ≡ 10
unfolding first_base
first_base_ten d h = ground arith

read_digits_one :
    (base d : ℕ) (t : Text)
    → d < 10
    → d < base
    → Ends t
    → read_digits base 0 ((b'0' + d) ∷ t) ≡ (d, t)
read_digits_one base d t h k e =
    let value : 0 * base + d ≡ d = omega arith in
    rw (read_digit base 0 d t h k, value) (read_digits_end base d t e)

read_one : (n : ℕ) (t : Text) → n < 10 → Ends t → read_number ((b'0' + n) ∷ t) ≡ (n, t)
unfolding read_number first_base
read_one n [] h e = read_digits_one (first_base (b'0' + n)) n [] h (first_base-lt n h) e
read_one n (c ∷ t) h e =
    rw (read_number_plain (b'0' + n) c t (ground arith) (ground arith))
      (read_digits_one (first_base (b'0' + n)) n (c ∷ t) h (first_base-lt n h) e)

-- Two digits and what follows them, the first above 0.
read_more :
    (d f : ℕ) (t : Text)
    → 0 < d
    → d < 10
    → f < 10
    → read_number ((b'0' + d) ∷ (b'0' + f) ∷ t) ≡ read_digits 10 (d * 10 + f) t
unfolding first_base
read_more d f t p h k =
    let value : 0 * 10 + d ≡ d = omega arith in
    rw (read_number_plain (b'0' + d) (b'0' + f) t (ground arith) (ground arith), first_base_ten d p)
      (rw (read_digit 10 0 d ((b'0' + f) ∷ t) h h, value) (read_digit 10 d f t k k))

decimal-read : (n : ℕ) (t : Text) → n < 256 → Ends t → read_number (decimal n ++ t) ≡ (n, t)
unfolding decimal
decimal-read n t h e = elim (Bool-cases (ltb n 10)) [
  | inl small ↦ rw small (read_one n t (ground arith) e)
  | inr big ↦ rw big (elim (Bool-cases (ltb n 100)) [
    | inl two ↦
        let value : n / 10 * 10 + n % 10 ≡ n = omega arith in
        rw (two) (
          rw (read_more (n / 10) (n % 10) t (ground arith) (ground arith) (omega arith), value)
            (read_digits_end 10 n t e))
    | inr three ↦
        let value : (n / 100 * 10 + n / 10 % 10) * 10 + n % 10 ≡ n = omega arith in
        rw (three) (
          rw
            (
              read_more (n / 100) (n / 10 % 10) ((b'0' + n % 10) ∷ t) (ground arith) (omega arith)
                  (omega arith),
              read_digit 10 (n / 100 * 10 + n / 10 % 10) (n % 10) t (omega arith) (omega arith),
              value,
            )
            (read_digits_end 10 n t e))
  ])
]

decimal-digit : (n : ℕ) (t : Text) → n < 256 → starts_with_digit (decimal n ++ t) ≡ true
unfolding decimal starts_with_digit
decimal-digit n t h = ground arith

-- One printed byte, a dot, and the numbers behind it.
aton_dot :
    (left n : ℕ) (seen : Bytes) (t : Text)
    → n < 256
    → aton_parts (suc left) seen (decimal n ++ b'.' ∷ t) ≡ aton_parts left (seen ++ n ∷ []) t
unfolding aton_parts
aton_dot left n seen t h =
    rw (decimal-digit n (b'.' ∷ t) h, decimal-read n (b'.' ∷ t) h refl) (ground arith)

aton_last :
    (n : ℕ) (seen : Bytes) → n < 256 → aton_parts 1 seen (decimal n ++ []) ≡ some (seen ++ n ∷ [])
unfolding aton_parts to_bytes_be
aton_last n seen h = rw (decimal-digit n [] h, decimal-read n [] h tt) (ground arith)

-- Every address that `inet_ntoa` prints is read back by `inet_aton`, to the same four bytes.
pub inet_aton-inet_ntoa :
    (a b c d : ℕ)
    → a < 256
    → b < 256
    → c < 256
    → d < 256
    → inet_aton (inet_ntoa (a ∷ b ∷ c ∷ d ∷ [])) ≡ some (a ∷ b ∷ c ∷ d ∷ [])
unfolding inet_aton inet_ntoa
inet_aton-inet_ntoa a b c d ha hb hc hd =
    let last = aton_last d (a ∷ b ∷ c ∷ []) hd in
    let tail = append-nil (decimal d) in
    rw (aton_dot 3 a [] _ ha, aton_dot 2 b (a ∷ []) _ hb, aton_dot 1 c (a ∷ b ∷ []) _ hc)
      (rw tail at last)
