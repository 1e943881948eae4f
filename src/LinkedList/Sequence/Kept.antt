-- ===== src/LinkedList/Sequence/Kept.antt =====
-- A list after removals is what a test of the handles lets stay.
use shell_operator.Base.{ℕ, ◌≡◌, Bool, nat_key, List, [], ◌∷◌, not, keep, refl, arith, false}
use shell_operator.LinkedList.Sequence.{Element, holds, IsDistinct, without}

module _ {T : Type 0} where
  pub absent_keep :
      (h : ℕ) (xs : List (Element T))
      → holds h xs ≡ false
      → keep (λ x. not (nat_key.same x.handle h)) xs ≡ xs
  absent_keep h [] a = refl
  absent_keep h (x ∷ xs) a = ground (arith, absent_keep h xs)

  pub without-keep :
      (h : ℕ) (xs : List (Element T))
      → IsDistinct xs
      → without h xs ≡ keep (λ x. not (nat_key.same x.handle h)) xs
  unfolding without
  without-keep h [] d = refl
  without-keep h (x ∷ xs) d = ground (arith, without-keep h xs d.1, absent_keep x.handle xs d.0)

  pub holds-keep :
      (h : ℕ) (p : Element T → Bool) (xs : List (Element T))
      → holds h xs ≡ false
      → holds h (keep p xs) ≡ false
  holds-keep h p [] a = refl
  holds-keep h p (x ∷ xs) a = ground (arith, holds-keep h p xs)

  pub IsDistinct-keep :
      (p : Element T → Bool) (xs : List (Element T)) → IsDistinct xs → IsDistinct (keep p xs)
  IsDistinct-keep p [] d = tt
  IsDistinct-keep p (x ∷ xs) d =
      ground (arith, IsDistinct-keep p xs d.1, holds-keep x.handle p xs d.0)
