-- ===== src/LogFields/Plain.antt =====
-- A sanitised field is short, and no character of it breaks a log line.
use fruitspy.Prelude.{
  Text, ℕ, zero, suc, ◌+◌, ◌-◌, ◌/◌, ◌%◌, ◌≤◌, ◌≡◌, refl, Bool, true, false, ◌&&◌, List, [], ◌∷◌,
  length, length-append, ltb, leb, if◌then◌else◌, if-elim, ◌==◌, nat_eq, ok, arith, All, All-append,
}
use fruitspy.LogFields.{
  truncation_marker, is_escaped, hex_text, hex_digit, escape_character, join, make_room,
  sanitize_from, sanitize_log_field,
}

make_room-fits :
    (limit n : ℕ) (output : List Text)
    → length truncation_marker ≤ limit
    → length (join output) ≡ n
    → length (join (make_room limit n output)) + length truncation_marker ≤ limit
unfolding make_room join
make_room-fits limit n [] m h = omega (arith, m)
make_room-fits limit n (piece ∷ before) m h =
    let shorter =
      make_room-fits limit (n - length piece) before m
        (omega (arith, h, length-append (join before) piece)) in
    if-elim (λ xs. length (join xs) + length truncation_marker ≤ limit)
      (ltb limit (n + length truncation_marker)) (λ _. shorter)
      (λ fits. ground (arith, fits, h, length-append (join before) piece))

sanitize_from-fits :
    (category : ℕ → Text) (limit : ℕ) (value : Text) (output : List Text) (n : ℕ)
    → length truncation_marker ≤ limit
    → length (join output) ≡ n
    → n ≤ limit
    → length (join (sanitize_from category limit value output n)) ≤ limit
unfolding sanitize_from join
sanitize_from-fits category limit [] output n m h k = omega (arith, h, k)
sanitize_from-fits category limit (c ∷ rest) output n m h k =
    let escaped = escape_character category c in
    if-elim (λ xs. length (join xs) ≤ limit) (ltb limit (n + length escaped))
      (λ long. omega (
        arith,
        make_room-fits limit n output m h,
        length-append (join (make_room limit n output)) truncation_marker,
      ))
      (λ fits.
        sanitize_from-fits category limit rest (escaped ∷ output) (n + length escaped) m
          (omega (arith, h, length-append (join output) escaped)) (ground (arith, fits)))

-- What a log line can hold: no control character, and no separator but the space.
abbrev pub IsPlain : (ℕ → Text) → ℕ → Type 0
IsPlain category c = is_escaped category c ≡ false

-- The documented categories of the printable ASCII characters: none is a control or a separator.
abbrev pub PrintableAscii : (ℕ → Text) → Type 0
PrintableAscii category = (c : ℕ) → 33 ≤ c → c ≤ 126 → IsPlain category c

join_empty : length (join []) ≡ 0
unfolding join
join_empty = refl

module _ (category : ℕ → Text) (printable : PrintableAscii category) where
  hex_text-IsPlain : (width n : ℕ) → All (IsPlain category) (hex_text width n)
  unfolding hex_text hex_digit
  hex_text-IsPlain zero n = tt
  hex_text-IsPlain (suc width) n =
      All-append (IsPlain category) (hex_text width (n / 16)) _ (hex_text-IsPlain width (n / 16))
        (printable (hex_digit (n % 16)) (ground arith) (ground arith), tt)

  -- A backslash, a letter and plain text.
  escape_written :
      (letter : ℕ)
      → 33 ≤ letter
      → letter ≤ 126
      → (rest : Text) → All (IsPlain category) rest
      → All (IsPlain category) (b'\\' ∷ letter ∷ rest)
  escape_written letter low high rest h =
      (printable b'\\' (omega arith) (omega arith), (printable letter low high, h))

  escape_special-IsPlain :
      (c : ℕ)
      → All (IsPlain category) (
          if leb c 0xff
          then b'\\' ∷ b'x' ∷ hex_text 2 c
          else if leb c 0xffff
          then b'\\' ∷ b'u' ∷ hex_text 4 c
          else b'\\' ∷ b'U' ∷ hex_text 8 c)
  escape_special-IsPlain c =
      let P = All (IsPlain category) in
      if-elim P (leb c 0xff)
        (λ _. escape_written b'x' (omega arith) (omega arith) (hex_text 2 c) (hex_text-IsPlain 2 c))
        (λ _.
          if-elim P (leb c 0xffff)
            (λ _.
              escape_written b'u' (omega arith) (omega arith) (hex_text 4 c) (hex_text-IsPlain 4 c))
            (λ _.
              escape_written b'U' (omega arith) (omega arith) (hex_text 8 c)
                (hex_text-IsPlain 8 c)))

  escape_character-IsPlain : (c : ℕ) → All (IsPlain category) (escape_character category c)
  unfolding escape_character
  escape_character-IsPlain c =
      let P = All (IsPlain category) in
      if-elim P (c == b'\\') (λ _. escape_written b'\\' (omega arith) (omega arith) [] tt)
        (λ _.
          if-elim P (c == 10) (λ _. escape_written b'n' (omega arith) (omega arith) [] tt)
            (λ _.
              if-elim P (c == 13) (λ _. escape_written b'r' (omega arith) (omega arith) [] tt)
                (λ _.
                  if-elim P (c == 9) (λ _. escape_written b't' (omega arith) (omega arith) [] tt)
                    (λ _.
                      if-elim P (is_escaped category c) (λ _. escape_special-IsPlain c)
                        (λ clean. (clean, tt))))))

  in_range : Text → Bool
  in_range [] = true
  in_range (c ∷ rest) = leb 33 c && leb c 126 && in_range rest

  in_range-IsPlain : (t : Text) → in_range t ≡ true → All (IsPlain category) t
  unfolding in_range
  in_range-IsPlain [] h = tt
  in_range-IsPlain (c ∷ rest) h = (
    printable c (ground (arith, h)) (ground (arith, h)),
    in_range-IsPlain rest (ground (arith, h)),
  )

  marker-IsPlain : All (IsPlain category) truncation_marker
  unfolding in_range
  marker-IsPlain = in_range-IsPlain truncation_marker refl

  make_room-IsPlain :
      (limit n : ℕ) (output : List Text)
      → All (All (IsPlain category)) output
      → All (All (IsPlain category)) (make_room limit n output)
  unfolding make_room
  make_room-IsPlain limit n [] h = tt
  make_room-IsPlain limit n (piece ∷ before) h =
      if-elim (All (All (IsPlain category))) (ltb limit (n + length truncation_marker))
        (λ _. make_room-IsPlain limit (n - length piece) before h.1) (λ _. h)

  join-IsPlain :
      (output : List Text)
      → All (All (IsPlain category)) output
      → All (IsPlain category) (join output)
  unfolding join
  join-IsPlain [] h = tt
  join-IsPlain (piece ∷ before) h =
      All-append (IsPlain category) (join before) piece (join-IsPlain before h.1) h.0

  sanitize_from-IsPlain :
      (limit : ℕ) (value : Text) (output : List Text) (n : ℕ)
      → All (All (IsPlain category)) output
      → All (All (IsPlain category)) (sanitize_from category limit value output n)
  unfolding sanitize_from
  sanitize_from-IsPlain limit [] output n h = h
  sanitize_from-IsPlain limit (c ∷ rest) output n h =
      let escaped = escape_character category c in
      if-elim (All (All (IsPlain category))) (ltb limit (n + length escaped))
        (λ _. (marker-IsPlain, make_room-IsPlain limit n output h))
        (λ _.
          sanitize_from-IsPlain limit rest (escaped ∷ output) (n + length escaped)
            (escape_character-IsPlain c, h))

  -- Where no printable ASCII character is a control or a separator, a limit that has room for the
  -- truncation marker is enough: any value is sanitised to a text within the limit, without control
  -- characters and without separators but the space.
  pub sanitize_log_field_lem :
      (value : Text) (limit : ℕ)
      → length truncation_marker ≤ limit
      → (t : Text) × (sanitize_log_field category value limit ≡ ok t)
        × (length t ≤ limit)
        × All (IsPlain category) t
  unfolding sanitize_log_field
  sanitize_log_field_lem value limit m =
      let pieces = sanitize_from category limit value [] 0 in
      (
        join pieces,
        ground (arith, m),
        sanitize_from-fits category limit value [] 0 m (join_empty) (omega arith),
        join-IsPlain pieces (sanitize_from-IsPlain limit value [] 0 tt),
      )
