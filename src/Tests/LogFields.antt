-- ===== src/Tests/LogFields.antt =====
-- A text with a line break, sanitised for a log line.
use fruitspy.Prelude.{
  Text, ℕ, ◌≤◌, ◌≡◌, ◌∷◌, text, length, ltb, if◌then◌else◌, ok, arith, All, ◌++◌,
}
use fruitspy.LogFields.{is_escaped, sanitize_log_field}
use fruitspy.LogFields.Plain.{IsPlain, PrintableAscii, sanitize_log_field_lem}

-- the category of a control character below the space, and a letter's
abbrev category : ℕ → Text
category c = if ltb c 32 then text "Cc" else text "Ll"

category_printable : PrintableAscii category
unfolding is_escaped
category_printable c low high = ground arith

abbrev broken : Text
broken = text "first" ++ 10 ∷ 7 ∷ text "second"

sanitize_log_field_example :
    (t : Text) × (sanitize_log_field category broken 20 ≡ ok t)
    × (length t ≤ 20)
    × All (IsPlain category) t
sanitize_log_field_example =
    sanitize_log_field_lem category category_printable broken 20 (omega arith)
