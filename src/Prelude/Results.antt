-- ===== src/Prelude/Results.antt =====
-- What a method raises, and its result.
use mathlib.Core.Path.{◌≡◌, refl}
use mathlib.Core.Option.{Option, none, some}

pub data Error : Type 0 where
  value_error os_error key_error struct_error index_error : Error
  -- NatPeerClaimRejected, by its reason
  session_full index_claimed endpoint_claimed : Error

pub data Result {ℓ} (A : Type ℓ) : Type ℓ where
  ok : A → Result A
  err : Error → Result A

infixl 5 ◌>>=◌
abbrev pub ◌>>=◌ {ℓ κ} : {A : Type ℓ} {B : Type κ} → Result A → (A → Result B) → Result B
ok a >>= f = f a
err e >>= f = err e

-- a value that may be missing, where the source raises for a missing one
abbrev pub or_raise {ℓ} : {A : Type ℓ} → Error → Option A → Result A
or_raise e none = err e
or_raise e (some a) = ok a

-- the next step of a computation that may give nothing
abbrev pub and_then {ℓ κ} : {A : Type ℓ} {B : Type κ} → Option A → (A → Option B) → Option B
and_then none f = none
and_then (some a) f = f a

-- the next step of a computation that may raise, or give nothing
abbrev pub and_next {ℓ κ} :
    {A : Type ℓ} {B : Type κ} → Option A → (A → Result (Option B)) → Result (Option B)
and_next none f = ok none
and_next (some a) f = f a

-- A computation that succeeds: its first step gave a value, and the rest succeeds on it.
pub bind-elim {ℓ κ μ} :
    {A : Type ℓ} {B : Type κ} (r : Result A) (f : A → Result B) {b : B} (P : Type μ)
    → ((a : A) → r ≡ ok a → f a ≡ ok b → P)
    → (r >>= f) ≡ ok b
    → P
bind-elim (ok a) f P go h = go a refl h
bind-elim (err e) f P go h = absurd (cc)
