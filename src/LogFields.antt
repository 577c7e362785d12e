-- ===== src/LogFields.antt =====
-- `sanitize_log_field` of server/fruitspy/log_fields.py: a text that a log line can hold. `category`
-- is `unicodedata.category`; the value is given as its `str`.
pub mod Plain
use fruitspy.Prelude.{
  Text, ℕ, zero, suc, ◌+◌, ◌-◌, ◌/◌, ◌%◌, Bool, true, false, ◌&&◌, ◌||◌, not, List, [], ◌∷◌, ◌++◌,
  length, text, ltb, leb, if◌then◌else◌, ◌==◌, nat_eq, Result, ok, err, value_error,
}

abbrev pub truncation_marker : Text
truncation_marker = text "...[truncated]"

starts_with : ℕ → Text → Bool
starts_with c [] = false
starts_with c (x ∷ rest) = x == c

-- category.startswith("C") or (category.startswith("Z") and character != " ")
unfoldable pub is_escaped : (ℕ → Text) → ℕ → Bool
unfolding starts_with
is_escaped category c =
    starts_with b'C' (category c) || (starts_with b'Z' (category c) && not (c == b' '))

hex_digit : ℕ → ℕ
hex_digit n = if ltb n 10 then b'0' + n else b'a' + (n - 10)

-- a number in hexadecimal, of a width in which it fits
unfoldable pub hex_text : ℕ → ℕ → Text
unfolding hex_digit
hex_text zero n = []
hex_text (suc width) n = hex_text width (n / 16) ++ hex_digit (n % 16) ∷ []

-- _escape_character(character)
unfoldable pub escape_character : (ℕ → Text) → ℕ → Text
escape_character category c =
    if c == b'\\'
    then b'\\' ∷ b'\\' ∷ []
    else if c == 10
    then b'\\' ∷ b'n' ∷ []
    else if c == 13
    then b'\\' ∷ b'r' ∷ []
    else if c == 9
    then b'\\' ∷ b't' ∷ []
    else if is_escaped category c
    then (if leb c 0xff
        then b'\\' ∷ b'x' ∷ hex_text 2 c
        else if leb c 0xffff
        then b'\\' ∷ b'u' ∷ hex_text 4 c
        else b'\\' ∷ b'U' ∷ hex_text 8 c)
    else c ∷ []

-- "".join(output), of the pieces with the last one first
unfoldable pub join : List Text → Text
join [] = []
join (piece ∷ before) = join before ++ piece

-- while output and output_length + len(TRUNCATION_MARKER) > max_length: the pieces that are left
unfoldable pub make_room : ℕ → ℕ → List Text → List Text
make_room max_length output_length [] = []
make_room max_length output_length (piece ∷ before) =
    let shorter = make_room max_length (output_length - length piece) before in
    if ltb max_length (output_length + length truncation_marker) then shorter else piece ∷ before

-- for character in str(value)
unfoldable pub sanitize_from : (ℕ → Text) → ℕ → Text → List Text → ℕ → List Text
sanitize_from category max_length [] output output_length = output
sanitize_from category max_length (c ∷ rest) output output_length =
    let escaped = escape_character category c in
    let later =
      sanitize_from category max_length rest (escaped ∷ output) (output_length + length escaped) in
    if ltb max_length (output_length + length escaped)
    then truncation_marker ∷ make_room max_length output_length output
    else later

-- sanitize_log_field(value, max_length)
unfoldable pub sanitize_log_field : (ℕ → Text) → Text → ℕ → Result Text
sanitize_log_field category value max_length =
    if ltb max_length (length truncation_marker)
    then err value_error
    else ok (join (sanitize_from category max_length value [] 0))
