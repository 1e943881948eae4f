-- ===== src/Backoff/Tests.antt =====
-- Delays of pkg/utils/exponential_backoff/delay.go for failed tasks of a queue, whose initial delay is five seconds.
use shell_operator.Base.{◌⊎◌, ◌≤◌, ◌*◌, ◌≡◌, map, nat_key, string_key, arith, refl, [], ◌∷◌}
use shell_operator.Backoff.{
  second, calculate_delay, calculate_delay_with_max, max_exponential_backoff_delay,
}
use shell_operator.Backoff.Bounds.{calculate_delay_with_max-bounds}

calculate_delay_with_max-bounds_example :
    let d = calculate_delay_with_max 999 (5 * second) max_exponential_backoff_delay 2 in
    (5 * second ≤ d)
    × (d ≤ max_exponential_backoff_delay)
    × (d ≤ calculate_delay_with_max 0 (5 * second) max_exponential_backoff_delay 3)
    × ((2 ≤ 5) ⊎ (d ≡ max_exponential_backoff_delay))
calculate_delay_with_max-bounds_example =
    calculate_delay_with_max-bounds (5 * second) max_exponential_backoff_delay (omega arith)
      (omega arith) (omega arith) 999 0 2 (omega arith) (omega arith)

retries :
    map (calculate_delay 850 5000000000) (0 ∷ 1 ∷ 2 ∷ 5 ∷ 6 ∷ [])
    ≡ 5000000000 ∷ 6800000000 ∷ 7800000000 ∷ 21800000000 ∷ 32000000000 ∷ []
unfolding calculate_delay
retries = refl

-- An initial delay near the end of int64 overflows, and the delay is negative: -9223372035800000000.
overflow : calculate_delay 0 9223372036854775807 1 ≡ 9223372037909551616
unfolding calculate_delay
overflow = refl
