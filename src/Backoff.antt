-- ===== src/Backoff.antt =====
-- pkg/utils/exponential_backoff/delay.go: the delays between the retries of a failed task. Durations are nanoseconds in
-- 64 bits with a sign, kept as their bits. Retries are counted from 0. The powers of two that are used fit a float64.
pub mod Bounds
mod Tests
use shell_operator.Base.{
  ltb, ◌==◌, ◌&&◌, ◌-◌, leb, ◌+◌, if◌then◌else◌, ◌^◌, Bool, ◌%◌, ◌*◌, ℕ, true, nat_key, string_key,
  arith,
}

abbrev pub millisecond : ℕ
millisecond = 1000000

abbrev pub second : ℕ
second = 1000 * millisecond

abbrev pub max_exponential_backoff_delay : ℕ
max_exponential_backoff_delay = 32 * second

-- int(log 32 / log 2)
abbrev pub exponential_calculations_count : ℕ
exponential_calculations_count = 5

abbrev pub exponential_delay_random_ms : ℕ
exponential_delay_random_ms = 1000

abbrev pub wrapped : ℕ → ℕ
wrapped n = n % 2 ^ 64

abbrev pub is_negative : ℕ → Bool
is_negative n = leb (2 ^ 63) n

abbrev pub negated : ℕ → ℕ
negated n = wrapped (2 ^ 64 - n)

-- `a > b` for the signed values.
abbrev pub is_greater : ℕ → ℕ → Bool
is_greater a b =
    if is_negative a then is_negative b && ltb b a else if is_negative b then true else ltb b a

-- Duration.Truncate by a positive duration, which rounds to zero.
abbrev pub truncate : ℕ → ℕ → ℕ
truncate m d = if is_negative d then negated (negated d - negated d % m) else d - d % m

-- The delay that is added to the initial one, for a retry that is not the first try.
unfoldable pub exponential_part : ℕ → ℕ → ℕ
exponential_part max_delay retry_count =
    if leb retry_count exponential_calculations_count
    then second * 2 ^ (retry_count - 1)
    else max_delay

-- `random` is the answer of `rand.Int64N`, below exponential_delay_random_ms.
unfoldable pub calculate_delay_with_max : ℕ → ℕ → ℕ → ℕ → ℕ
unfolding exponential_part
calculate_delay_with_max random initial_delay max_delay retry_count =
    let sum =
      wrapped (initial_delay + exponential_part max_delay retry_count + random * millisecond) in
    let delay = truncate (100 * millisecond) sum in
    if retry_count == 0
    then initial_delay
    else if is_greater delay max_delay
    then max_delay
    else delay

unfoldable pub calculate_delay : ℕ → ℕ → ℕ → ℕ
unfolding calculate_delay_with_max
calculate_delay random initial_delay retry_count =
    calculate_delay_with_max random initial_delay max_exponential_backoff_delay retry_count
