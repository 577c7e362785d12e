-- ===== src/Prelude/Xor.antt =====
-- Exclusive or of bytes, as Python's `^` on numbers: it is undone by the same operand.
use Prim.Native.Nat.{
  ℕ, zero, suc, ◌+◌, ◌*◌, ◌/◌, ◌%◌, ◌≤◌, ◌<◌, bit_xor, digits, differ, bit_xor-bitwise,
}
use mathlib.Core.Path.{◌≡◌, refl, ap, ◌∙◌}
use native.Mathlib.Omega.{arith}

abbrev xor_digits : ℕ → ℕ → ℕ → ℕ
xor_digits n a b = digits (λ y. y) differ n a b

xor_digits-enough : (n m a b : ℕ) → a ≤ n → a ≤ m → xor_digits n a b ≡ xor_digits m a b
xor_digits-enough zero zero a b p q = refl
xor_digits-enough zero (suc m) zero b p q = refl
xor_digits-enough zero (suc m) (suc a) b p q = absurd (omega (arith, p))
xor_digits-enough (suc n) zero zero b p q = refl
xor_digits-enough (suc n) zero (suc a) b p q = absurd (omega (arith, q))
xor_digits-enough (suc n) (suc m) zero b p q = refl
xor_digits-enough (suc n) (suc m) (suc a) b p q =
    let halves = xor_digits-enough n m (suc a / 2) (b / 2) (omega arith) (omega arith) in
    omega (arith, halves)

zero-bit_xor : (b : ℕ) → bit_xor 0 b ≡ b
zero-bit_xor b = bit_xor-bitwise 0 b

differ-le : (x y : ℕ) → x < 2 → y < 2 → differ x y < 2
differ-le zero y p q = q
differ-le (suc zero) zero p q = p
differ-le (suc zero) (suc y) p q = omega (arith, q)
differ-le (suc (suc x)) y p q = absurd (omega (arith, p))

-- The lowest digit, and the others.
bit_xor-halves : (a b : ℕ) → bit_xor a b ≡ bit_xor (a / 2) (b / 2) * 2 + differ (a % 2) (b % 2)
bit_xor-halves zero b = omega (arith, zero-bit_xor b, zero-bit_xor (b / 2))
bit_xor-halves (suc a) b =
    let whole = bit_xor-bitwise (suc a) b in
    let part = bit_xor-bitwise (suc a / 2) (b / 2) in
    let same = xor_digits-enough a (suc a / 2) (suc a / 2) (b / 2) (omega arith) (omega arith) in
    omega (arith, whole, part, same)

differ_undo : (x y : ℕ) → x < 2 → y < 2 → differ (differ x y) y ≡ x
differ_undo zero zero p q = refl
differ_undo zero (suc zero) p q = refl
differ_undo zero (suc (suc y)) p q = absurd (omega (arith, q))
differ_undo (suc zero) zero p q = refl
differ_undo (suc zero) (suc zero) p q = refl
differ_undo (suc zero) (suc (suc y)) p q = absurd (omega (arith, q))
differ_undo (suc (suc x)) y p q = absurd (omega (arith, p))

differ_comm : (x y : ℕ) → differ x y ≡ differ y x
differ_comm zero zero = refl
differ_comm zero (suc y) = refl
differ_comm (suc x) zero = refl
differ_comm (suc x) (suc y) = differ_comm x y

bit_xor_comm_within : (n a b : ℕ) → a + b ≤ n → bit_xor a b ≡ bit_xor b a
bit_xor_comm_within zero zero zero h = refl
bit_xor_comm_within zero (suc a) b h = absurd (omega (arith, h))
bit_xor_comm_within zero zero (suc b) h = absurd (omega (arith, h))
bit_xor_comm_within (suc n) a b h =
    let rest = bit_xor_comm_within n (a / 2) (b / 2) (omega (arith, h)) in
    omega (arith, bit_xor-halves a b, bit_xor-halves b a, differ_comm (a % 2) (b % 2), rest)

pub bit_xor_comm : (a b : ℕ) → bit_xor a b ≡ bit_xor b a
bit_xor_comm a b = bit_xor_comm_within (a + b) a b (omega arith)

bit_xor_undo_within : (n a b : ℕ) → a + b ≤ n → bit_xor (bit_xor a b) b ≡ a
bit_xor_undo_within zero zero zero h = refl
bit_xor_undo_within zero (suc a) b h = absurd (omega (arith, h))
bit_xor_undo_within zero zero (suc b) h = absurd (omega (arith, h))
bit_xor_undo_within (suc n) a b h =
    let rest = bit_xor_undo_within n (a / 2) (b / 2) (omega (arith, h)) in
    let low = differ-le (a % 2) (b % 2) (omega arith) (omega arith) in
    let halves = bit_xor-halves a b in
    let high : bit_xor a b / 2 ≡ bit_xor (a / 2) (b / 2) = omega (arith, halves, low) in
    let digit : bit_xor a b % 2 ≡ differ (a % 2) (b % 2) = omega (arith, halves, low) in
    let again = rw (high, digit) at (bit_xor-halves (bit_xor a b) b) in
    omega (arith, again, rest, differ_undo (a % 2) (b % 2) (omega arith) (omega arith))

pub bit_xor_undo : (a b : ℕ) → bit_xor (bit_xor a b) b ≡ a
bit_xor_undo a b = bit_xor_undo_within (a + b) a b (omega arith)

pub bit_xor_undo_left : (a b : ℕ) → bit_xor a (bit_xor a b) ≡ b
bit_xor_undo_left a b =
    bit_xor_comm a (bit_xor a b) ∙ ap (λ (x : ℕ). bit_xor x a) (bit_xor_comm a b) ∙ bit_xor_undo b a
