-- ===== src/Backoff/Bounds.antt =====
-- The bounds of the delays of pkg/utils/exponential_backoff/delay.go.
use shell_operator.Base.{
  ◌⊎◌, ◌%◌, ◌*◌, ◌≤◌, ◌≡◌, ltb, if◌then◌else◌, ◌-◌, ◌+◌, ◌<◌, ℕ, suc, zero, inr, inl, nat_key,
  string_key, arith, refl,
}
use shell_operator.Backoff.{millisecond, exponential_part, calculate_delay_with_max}

abbrev sum_of : ℕ → ℕ → ℕ → ℕ → ℕ
sum_of random initial_delay max_delay n =
    initial_delay + exponential_part max_delay n + random * millisecond

abbrev cut : ℕ → ℕ
cut n = n - n % 100000000

abbrev at_most : ℕ → ℕ → ℕ
at_most max_delay n = if ltb max_delay n then max_delay else n

-- Without an overflow.
calculate_delay-sum :
    (random initial_delay max_delay k : ℕ)
    → max_delay < 9223372036854775808
    → sum_of random initial_delay max_delay (suc k) < 9223372036854775808
    → calculate_delay_with_max random initial_delay max_delay (suc k)
      ≡ at_most max_delay (cut (sum_of random initial_delay max_delay (suc k)))
unfolding calculate_delay_with_max
calculate_delay-sum random i m k h g = ground arith

exponential_part-late : (m k : ℕ) → 4 < k → exponential_part m (suc k) ≡ m
unfolding exponential_part
exponential_part-late m k h = ground arith

-- The first five retries add one, two, four, eight and sixteen seconds.
exponential_part-doubles :
    (m k : ℕ) → k < 4 → exponential_part m (suc (suc k)) ≡ 2 * exponential_part m (suc k)
unfolding exponential_part
exponential_part-doubles m zero h = refl
exponential_part-doubles m (suc zero) h = refl
exponential_part-doubles m (suc (suc zero)) h = refl
exponential_part-doubles m (suc (suc (suc zero))) h = refl
exponential_part-doubles m (suc (suc (suc (suc k)))) h = omega arith

exponential_part-early :
    (m k : ℕ)
    → k < 5
    → (1000000000 ≤ exponential_part m (suc k)) × (exponential_part m (suc k) ≤ 16000000000)
unfolding exponential_part
exponential_part-early m zero h = (omega arith, omega arith)
exponential_part-early m (suc zero) h = (omega arith, omega arith)
exponential_part-early m (suc (suc zero)) h = (omega arith, omega arith)
exponential_part-early m (suc (suc (suc zero))) h = (omega arith, omega arith)
exponential_part-early m (suc (suc (suc (suc zero)))) h = (omega arith, omega arith)
exponential_part-early m (suc (suc (suc (suc (suc k))))) h = omega arith

split : (a b : ℕ) → (a < b) ⊎ (b ≤ a)
split a b = ground arith

module _ (initial_delay max_delay : ℕ) (least : 100000000 ≤ initial_delay)
    (order : initial_delay ≤ max_delay) (bound : max_delay ≤ 2305843009213693952) where
  abbrev delay : ℕ → ℕ → ℕ
  delay random n = calculate_delay_with_max random initial_delay max_delay n

  sum_of-bound :
      (random k : ℕ)
      → random < 1000
      → sum_of random initial_delay max_delay (suc k) < 9223372036854775808
  sum_of-bound random k h = elim (split k 5) [
    | inl e ↦ let p = exponential_part-early max_delay k e in omega arith
    | inr e ↦ let p = exponential_part-late max_delay k (omega arith) in omega arith
  ]

  delay-sum :
      (random k : ℕ)
      → random < 1000
      → delay random (suc k)
        ≡ at_most max_delay (cut (sum_of random initial_delay max_delay (suc k)))
  delay-sum random k h =
      calculate_delay-sum random initial_delay max_delay k (omega arith) (sum_of-bound random k h)

  delay-late : (random k : ℕ) → random < 1000 → 4 < k → delay random (suc k) ≡ max_delay
  delay-late random k h e =
      let p = exponential_part-late max_delay k e in let q = delay-sum random k h in ground arith

  delay-least : (random k : ℕ) → random < 1000 → initial_delay ≤ delay random (suc k)
  delay-least random k h = elim (split k 5) [
    | inl e ↦
        let p = exponential_part-early max_delay k e in let q = delay-sum random k h in ground arith
    | inr e ↦ let q = delay-late random k h (omega arith) in omega arith
  ]

  delay-most : (random k : ℕ) → random < 1000 → delay random (suc k) ≤ max_delay
  delay-most random k h = let q = delay-sum random k h in ground arith

  delay-grows :
      (random later k : ℕ)
      → random < 1000
      → later < 1000
      → delay random (suc k) ≤ delay later (suc (suc k))
  delay-grows random later k h g = elim (split k 4) [
    | inr e ↦
        let q = delay-late later (suc k) g (omega arith) in
        let m = delay-most random k h in omega arith
    | inl e ↦
        let d = exponential_part-doubles max_delay k e in
        let p = exponential_part-early max_delay k (omega arith) in
        let q = delay-sum random k h in let r = delay-sum later (suc k) g in ground arith
  ]

  -- If the initial delay is at least 100 milliseconds, and the maximum at least the initial delay and at most 2^61
  -- nanoseconds, then for all random parts: the delay of a retry lies between the two, the delay of the
  -- next retry is no shorter, and after the fifth retry it is the maximum.
  pub calculate_delay_with_max-bounds :
      (random later n : ℕ)
      → random < 1000
      → later < 1000
      → let d = calculate_delay_with_max random initial_delay max_delay n in
        (initial_delay ≤ d)
        × (d ≤ max_delay)
        × (d ≤ calculate_delay_with_max later initial_delay max_delay (suc n))
        × ((n ≤ 5) ⊎ (d ≡ max_delay))
  unfolding calculate_delay_with_max
  calculate_delay_with_max-bounds random later zero h g =
      (omega arith, order, delay-least later zero g, inl (omega arith))
  calculate_delay_with_max-bounds random later (suc k) h g = (
    delay-least random k h,
    delay-most random k h,
    delay-grows random later k h g,
    elim (split k 5) [
      | inl e ↦ inl (omega arith)
      | inr e ↦ inr (delay-late random k h (omega arith))
    ],
  )
