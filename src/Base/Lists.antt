-- ===== src/Base/Lists.antt =====
-- Lists over the native numbers, under the library's names, and Boolean filters.
use Prim.Native.Nat.{ℕ, suc, ◌+◌}
use mathlib.Core.Path.{◌≡◌, refl, ap, subst, sym, ◌∙◌}
use mathlib.Core.Bool.{Bool, true, false, ◌||◌, ◌&&◌}
use mathlib.Core.List.{List, [], ◌∷◌, ◌++◌, map, Permᴰ}
use native.Mathlib.Omega.{arith}
use mathlib.Core.List.Permᴰ
use mathlib.Core.Logic.{inl, inr}
use shell_operator.Base.Tests.{if◌then◌else◌, Bool-cases}

module _ {ℓ} {A : Type ℓ} where
  abbrev pub length : List A → ℕ
  length [] = 0
  length (x ∷ xs) = suc (length xs)

  pub length-append : (xs ys : List A) → length (xs ++ ys) ≡ length xs + length ys
  length-append [] ys = omega arith
  length-append (x ∷ xs) ys = omega (arith, length-append xs ys)

  -- The elements that pass a Boolean test, in order.
  abbrev pub keep : (A → Bool) → List A → List A
  keep p [] = []
  keep p (x ∷ xs) = if p x then x ∷ keep p xs else keep p xs

  pub keep-append : (p : A → Bool) (xs ys : List A) → keep p (xs ++ ys) ≡ keep p xs ++ keep p ys
  keep-append p [] ys = refl
  keep-append p (x ∷ xs) ys = ground (arith, keep-append p xs ys)

  abbrev pub any : (A → Bool) → List A → Bool
  any p [] = false
  any p (x ∷ xs) = p x || any p xs

  pub any-append : (p : A → Bool) (xs ys : List A) → any p (xs ++ ys) ≡ (any p xs || any p ys)
  any-append p [] ys = refl
  any-append p (x ∷ xs) ys = ground (arith, any-append p xs ys)

  -- Every element satisfies the predicate.
  abbrev pub All {κ} : (A → Type κ) → List A → Type κ
  All P [] = Unit
  All P (x ∷ xs) = P x × All P xs

  pub All-append {κ} : (P : A → Type κ) (xs ys : List A) → All P xs → All P ys → All P (xs ++ ys)
  All-append P [] ys hx hy = hy
  All-append P (x ∷ xs) ys hx hy = (hx.0, All-append P xs ys hx.1 hy)

pub keep-map {ℓ κ} :
    {A : Type ℓ} {B : Type κ} (p : A → Bool) (f : B → A) (xs : List B)
    → keep p (map f xs) ≡ map f (keep (λ x. p (f x)) xs)
keep-map p f [] = refl
keep-map p f (x ∷ xs) = ground (arith, keep-map p f xs)

module _ {ℓ} {A : Type ℓ} where
  pub keep_all : (xs : List A) → keep (λ _. true) xs ≡ xs
  keep_all [] = refl
  keep_all (x ∷ xs) = ap (λ r. x ∷ r) (keep_all xs)

  pub keep-keep :
      (p r s : A → Bool) (xs : List A)
      → ((x : A) → s x ≡ (r x && p x))
      → keep p (keep r xs) ≡ keep s xs
  keep-keep p r s [] h = refl
  keep-keep p r s (x ∷ xs) h = ground (arith, h x, keep-keep p r s xs h)

  pub keep-cong : (p r : A → Bool) (xs : List A) → ((x : A) → p x ≡ r x) → keep p xs ≡ keep r xs
  keep-cong p r [] h = refl
  keep-cong p r (x ∷ xs) h = ground (arith, h x, keep-cong p r xs h)

  pub All-perm {κ} : (P : A → Type κ) {xs ys : List A} → Permᴰ xs ys → All P ys → All P xs
  All-perm P Permᴰ.nil h = tt
  All-perm P (Permᴰ.cons e d) h = (subst P (sym e) h.0, All-perm P d h.1)
  All-perm P (Permᴰ.swap e f) h = (subst P (sym e) h.1.0, (subst P (sym f) h.0, h.1.1))
  All-perm P (Permᴰ.trans d f) h = All-perm P d (All-perm P f h)

  pub any-perm : (p : A → Bool) {xs ys : List A} → Permᴰ xs ys → any p xs ≡ any p ys
  any-perm p Permᴰ.nil = refl
  any-perm p (Permᴰ.cons e d) = ground (arith, any-perm p d)
  any-perm p (Permᴰ.swap e f) = ground arith
  any-perm p (Permᴰ.trans d f) = any-perm p d ∙ any-perm p f

pub Permᴰ-keep {ℓ} :
    {A : Type ℓ} (p : A → Bool) {xs ys : List A} → Permᴰ xs ys → Permᴰ (keep p xs) (keep p ys)
Permᴰ-keep p Permᴰ.nil = Permᴰ.nil
Permᴰ-keep p (Permᴰ.cons {a = a} {b = b} e d) = elim (Bool-cases (p a)) [
  | inl q ↦ rw (q, (sym (ap p e) ∙ q)) (Permᴰ.cons e (Permᴰ-keep p d))
  | inr q ↦ rw (q, (sym (ap p e) ∙ q)) (Permᴰ-keep p d)
]
Permᴰ-keep p (Permᴰ.swap {a = a} {b = b} {l = l} e f) = elim (Bool-cases (p a)) [
  | inl q ↦ elim (Bool-cases (p b)) [
    | inl r ↦ rw (q, r, (sym (ap p e) ∙ q), (sym (ap p f) ∙ r)) (Permᴰ.swap e f)
    | inr r ↦
        rw (q, r, (sym (ap p e) ∙ q), (sym (ap p f) ∙ r)) (Permᴰ.cons e (Permᴰ.refl (keep p l)))
  ]
  | inr q ↦ elim (Bool-cases (p b)) [
    | inl r ↦
        rw (q, r, (sym (ap p e) ∙ q), (sym (ap p f) ∙ r)) (Permᴰ.cons f (Permᴰ.refl (keep p l)))
    | inr r ↦ rw (q, r, (sym (ap p e) ∙ q), (sym (ap p f) ∙ r)) (Permᴰ.refl (keep p l))
  ]
]
Permᴰ-keep p (Permᴰ.trans d e) = Permᴰ.trans (Permᴰ-keep p d) (Permᴰ-keep p e)
