-- ===== src/Clock.antt =====
-- Readings of `time.monotonic()` and of the event loop's clock, counted in nanoseconds, and
-- durations in seconds. A rate per second times a number of nanoseconds is a number of billionths,
-- so token balances are kept in billionths and no rounding takes place: the rounding of floating
-- point numbers is not modelled.
-- An operation that reads the clock several times takes `clock : ℕ → ℕ`, its successive readings.
use fruitspy.Prelude.{ℕ, ◌+◌, ◌*◌, ◌≤◌, Bool, leb}

abbrev pub second : ℕ
second = 1_000_000_000

abbrev pub seconds : ℕ → ℕ
seconds n = n * second

-- now - last_seen <= ttl, for a ttl of whole seconds
abbrev pub is_fresh : ℕ → ℕ → ℕ → Bool
is_fresh ttl now last_seen = leb now (last_seen + seconds ttl)

-- What is documented of the clock: it does not go backwards.
abbrev pub Monotonic : (ℕ → ℕ) → Type 0
Monotonic clock = (i j : ℕ) → i ≤ j → clock i ≤ clock j
