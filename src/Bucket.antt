-- ===== src/Bucket.antt =====
-- `TokenBucket` of server/fruitspy/admission.py. Balances are in billionths of a token.
pub mod Rate
use fruitspy.Prelude.{
  ℕ, ◌+◌, ◌-◌, ◌*◌, min, Bool, true, false, Option, none, some, ltb, if◌then◌else◌,
}
use fruitspy.Clock.{second}

pub record TokenBucket : Type 0 where
  pub rate_per_second : ℕ
  pub burst : ℕ
  pub tokens : ℕ
  pub updated_at : ℕ

-- TokenBucket(rate, burst), built at `now`
unfoldable pub create : ℕ → ℕ → ℕ → TokenBucket
create rate burst now = record {
  rate_per_second = rate;
  burst = burst;
  tokens = burst * second;
  updated_at = now;
}

-- The balance after a refill: elapsed time counts from the last reading, and never below 0.
unfoldable pub refill : ℕ → TokenBucket → TokenBucket
refill now b = record b {
  tokens = min (b.burst * second) (b.tokens + (now - b.updated_at) * b.rate_per_second);
  updated_at = now;
}

-- allow(cost) behind its guard
unfoldable pub spend : ℕ → ℕ → TokenBucket → Bool × TokenBucket
unfolding refill
spend cost now b =
    let r = refill now b in
    if ltb r.tokens (cost * second)
    then (false, r)
    else (true, record r { tokens = r.tokens - cost * second })

-- allow(cost): `none` is the ValueError of a cost below 1, which leaves the bucket alone
unfoldable pub allow : ℕ → ℕ → TokenBucket → Option (Bool × TokenBucket)
unfolding spend
allow cost now b = if ltb cost 1 then none else some (spend cost now b)
