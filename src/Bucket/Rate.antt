-- ===== src/Bucket/Rate.antt =====
-- What a token bucket promises: over any run of calls it grants no more than its balance and the
-- refill of the time that passed, and it never holds more than its burst.
use fruitspy.Prelude.{
  ℕ, ◌+◌, ◌-◌, ◌*◌, ◌≤◌, ◌≡◌, Bool, Option, none, some, List, [], ◌∷◌, arith, if◌then◌else◌, ap,
}
use fruitspy.Clock.{second}
use fruitspy.Bucket.{TokenBucket, create, spend, allow}

-- A run of calls, each a cost and the clock reading of the call.
abbrev pub Calls : Type 0
Calls = List (ℕ × ℕ)

-- The cost that one call grants, and the bucket that it leaves; a refused call grants nothing.
abbrev pub granted_by : ℕ → Option (Bool × TokenBucket) → ℕ
granted_by cost none = 0
granted_by cost (some (ok, b)) = if ok then cost else 0

abbrev pub left_by : TokenBucket → Option (Bool × TokenBucket) → TokenBucket
left_by b none = b
left_by b (some (ok, c)) = c

unfoldable pub granted : TokenBucket → Calls → ℕ
granted b [] = 0
granted b ((cost, now) ∷ calls) =
    granted_by cost (allow cost now b) + granted (left_by b (allow cost now b)) calls

unfoldable pub run : TokenBucket → Calls → TokenBucket
run b [] = b
run b ((cost, now) ∷ calls) = run (left_by b (allow cost now b)) calls

-- The readings do not go backwards from `t`, and none is past `last`.
abbrev pub InOrder : ℕ → Calls → ℕ → Type 0
InOrder t [] last = t ≤ last
InOrder t ((cost, now) ∷ calls) last = (t ≤ now) × InOrder now calls last

InOrder-le : (t : ℕ) (calls : Calls) (last : ℕ) → InOrder t calls last → t ≤ last
InOrder-le t [] last h = h
InOrder-le t ((cost, now) ∷ calls) last h = omega (arith, InOrder-le now calls last h.1)

spend_balance :
    (cost now : ℕ) (b : TokenBucket)
    → (if (spend cost now b).0 then cost else 0) * second + (spend cost now b).1.tokens
      ≤ b.tokens + (now - b.updated_at) * b.rate_per_second
unfolding spend
spend_balance cost now b = ground arith

pub rate-spend :
    (cost now : ℕ) (b : TokenBucket) → (spend cost now b).1.rate_per_second ≡ b.rate_per_second
unfolding spend
rate-spend cost now b = ground arith

pub burst-spend : (cost now : ℕ) (b : TokenBucket) → (spend cost now b).1.burst ≡ b.burst
unfolding spend
burst-spend cost now b = ground arith

pub updated_at-spend : (cost now : ℕ) (b : TokenBucket) → (spend cost now b).1.updated_at ≡ now
unfolding spend
updated_at-spend cost now b = ground arith

-- A bucket that holds at most its burst.
abbrev pub IsWithin : TokenBucket → Type 0
IsWithin b = b.tokens ≤ b.burst * second

pub create-IsWithin : (rate burst now : ℕ) → IsWithin (create rate burst now)
unfolding create
create-IsWithin rate burst now = omega arith

-- Whatever the cost and the reading, a call leaves the balance within the burst.
pub spend-IsWithin : (cost now : ℕ) (b : TokenBucket) → IsWithin (spend cost now b).1
unfolding spend
spend-IsWithin cost now b = ground arith

refill_split :
    (rate t now last : ℕ)
    → t ≤ now
    → now ≤ last
    → (now - t) * rate + (last - now) * rate ≡ (last - t) * rate
refill_split rate t now last p q = grind arith

InOrder-earlier :
    (t u : ℕ) (calls : Calls) (last : ℕ) → u ≤ t → InOrder t calls last → InOrder u calls last
InOrder-earlier t u [] last h o = omega arith
InOrder-earlier t u ((cost, now) ∷ calls) last h o = (omega arith, o.1)

-- One call of `allow`, granted, refused or raising.
record Step (b c : TokenBucket) (amount now : ℕ) : Type 0 where
  same_rate : c.rate_per_second ≡ b.rate_per_second
  later : b.updated_at ≤ c.updated_at
  by_now : c.updated_at ≤ now
  balance :
      amount * second + c.tokens ≤ b.tokens + (c.updated_at - b.updated_at) * b.rate_per_second

allow-Step :
    (cost now : ℕ) (b : TokenBucket)
    → b.updated_at ≤ now
    → Step b (left_by b (allow cost now b)) (granted_by cost (allow cost now b)) now
unfolding allow
allow-Step cost now b h = ground arith

-- Over any run of calls, at readings that do not go backwards from the bucket's last one and end
-- by `last`: the granted costs and the final balance together are at most the balance at the
-- start and the refill of the time from the bucket's last reading to `last`.
pub granted_bound :
    (b : TokenBucket) (calls : Calls) (last : ℕ)
    → InOrder b.updated_at calls last
    → granted b calls * second + (run b calls).tokens
      ≤ b.tokens + (last - b.updated_at) * b.rate_per_second
unfolding granted run
granted_bound b [] last h = omega arith
granted_bound b ((cost, now) ∷ calls) last h =
    let r = allow cost now b in
    let c = left_by b r in
    let s = allow-Step cost now b h.0 in
    let o = InOrder-earlier now c.updated_at calls last s.by_now h.1 in
    omega (
      arith,
      granted_bound c calls last o,
      s.balance,
      ap (λ (t : ℕ). (last - c.updated_at) * t) s.same_rate,
      refill_split b.rate_per_second b.updated_at c.updated_at last s.later
          (InOrder-le c.updated_at calls last o),
    )
