-- ===== src/LinkedList/Sequence/Splits.antt =====
-- The operations on a list that is split at an element.
use shell_operator.Base.{
  Option-cases, none, some, ◌⊎◌, ◌<◌, any-append, ℕ, suc, ◌≡◌, nat_key, List, [], ◌∷◌, ◌++◌, false,
  true, refl, arith, inl, inr, ap,
}
use shell_operator.LinkedList.Sequence.{
  last, first, Element, holds, behind, ahead, without, IsDistinct, IsBelow, Listed,
}

module _ {T : Type 0} where
  pub not-holds_fresh : (n : ℕ) (xs : List (Element T)) → IsBelow n xs → holds n xs ≡ false
  not-holds_fresh n [] b = refl
  not-holds_fresh n (x ∷ xs) b = ground (arith, not-holds_fresh n xs b.1)

  pub IsBelow-suc : (n : ℕ) (xs : List (Element T)) → IsBelow n xs → IsBelow (suc n) xs
  IsBelow-suc n [] b = tt
  IsBelow-suc n (x ∷ xs) b = (omega arith, IsBelow-suc n xs b.1)

  pub IsBelow-append :
      (n : ℕ) (xs ys : List (Element T)) → IsBelow n xs → IsBelow n ys → IsBelow n (xs ++ ys)
  IsBelow-append n [] ys b c = c
  IsBelow-append n (x ∷ xs) ys b c = (b.0, IsBelow-append n xs ys b.1 c)

  pub holds-Listed :
      (e : Element T) (xs : List (Element T)) → Listed e xs → holds e.handle xs ≡ true
  holds-Listed e [] l = absurd l
  holds-Listed e (x ∷ xs) (inl p) = ground arith
  holds-Listed e (x ∷ xs) (inr l) = ground (arith, holds-Listed e xs l)

  -- The split of a list at an element of it.
  pub record Split (e : Element T) (xs : List (Element T)) : Type 0 where
    pub before : List (Element T)
    pub after : List (Element T)
    pub joined : xs ≡ before ++ e ∷ after

  pub Split-at : (e : Element T) (xs : List (Element T)) → Listed e xs → Split e xs
  Split-at e [] l = absurd l
  Split-at e (x ∷ xs) (inl p) = record { before = []; after = xs; joined = ap (λ y. y ∷ xs) p }
  Split-at e (x ∷ xs) (inr l) =
      let s = Split-at e xs l in
      record { before = x ∷ s.before; after = s.after; joined = ap (λ r. x ∷ r) s.joined }

  pub Listed-middle : (e : Element T) (xs ys : List (Element T)) → Listed e (xs ++ e ∷ ys)
  Listed-middle e [] ys = inl refl
  Listed-middle e (x ∷ xs) ys = inr (Listed-middle e xs ys)

  pub behind_middle :
      (n e : Element T) (xs ys : List (Element T))
      → IsDistinct (xs ++ e ∷ ys)
      → behind n e.handle (xs ++ e ∷ ys) ≡ xs ++ e ∷ n ∷ ys
  unfolding behind
  behind_middle n e [] ys d = ground arith
  behind_middle n e (x ∷ xs) ys d =
      ground
        (arith, behind_middle n e xs ys d.1, holds-Listed e (xs ++ e ∷ ys) (Listed-middle e xs ys))

  pub ahead_middle :
      (n e : Element T) (xs ys : List (Element T))
      → IsDistinct (xs ++ e ∷ ys)
      → ahead n e.handle (xs ++ e ∷ ys) ≡ xs ++ n ∷ e ∷ ys
  unfolding ahead
  ahead_middle n e [] ys d = ground arith
  ahead_middle n e (x ∷ xs) ys d =
      ground
        (arith, ahead_middle n e xs ys d.1, holds-Listed e (xs ++ e ∷ ys) (Listed-middle e xs ys))

  pub without-absent : (h : ℕ) (xs : List (Element T)) → holds h xs ≡ false → without h xs ≡ xs
  unfolding without
  without-absent h [] p = refl
  without-absent h (x ∷ xs) p = ground (arith, without-absent h xs)

  pub without_middle :
      (e : Element T) (xs ys : List (Element T))
      → IsDistinct (xs ++ e ∷ ys)
      → without e.handle (xs ++ e ∷ ys) ≡ xs ++ ys
  unfolding without
  without_middle e [] ys d = ground arith
  without_middle e (x ∷ xs) ys d =
      ground
        (arith, without_middle e xs ys d.1, holds-Listed e (xs ++ e ∷ ys) (Listed-middle e xs ys))

  pub without_absent : (h : ℕ) (xs : List (Element T)) → holds h xs ≡ false → without h xs ≡ xs
  unfolding without
  without_absent h [] p = refl
  without_absent h (x ∷ xs) p = ground (arith, without_absent h xs)

  pub IsDistinct-insert :
      (n : Element T) (xs ys : List (Element T))
      → holds n.handle (xs ++ ys) ≡ false
      → IsDistinct (xs ++ ys)
      → IsDistinct (xs ++ n ∷ ys)
  IsDistinct-insert n [] ys p d = (p, d)
  IsDistinct-insert n (x ∷ xs) ys p d = ground (
    arith,
    IsDistinct-insert n xs ys,
    any-append (λ y. nat_key.same y.handle x.handle) xs ys,
    any-append (λ y. nat_key.same y.handle x.handle) xs (n ∷ ys),
  )

  pub IsDistinct-omit :
      (e : Element T) (xs ys : List (Element T)) → IsDistinct (xs ++ e ∷ ys) → IsDistinct (xs ++ ys)
  IsDistinct-omit e [] ys d = d.1
  IsDistinct-omit e (x ∷ xs) ys d = ground (
    arith,
    IsDistinct-omit e xs ys d.1,
    any-append (λ y. nat_key.same y.handle x.handle) xs ys,
    any-append (λ y. nat_key.same y.handle x.handle) xs (e ∷ ys),
  )

  pub holds_omitted :
      (e : Element T) (xs ys : List (Element T))
      → IsDistinct (xs ++ e ∷ ys)
      → holds e.handle (xs ++ ys) ≡ false
  holds_omitted e [] ys d = d.0
  holds_omitted e (x ∷ xs) ys d = ground (
    arith,
    holds_omitted e xs ys d.1,
    any-append (λ y. nat_key.same y.handle x.handle) xs (e ∷ ys),
  )

  pub IsBelow-insert :
      (m : ℕ) (n : Element T) (xs ys : List (Element T))
      → n.handle < m
      → IsBelow m (xs ++ ys)
      → IsBelow m (xs ++ n ∷ ys)
  IsBelow-insert m n [] ys p b = (p, b)
  IsBelow-insert m n (x ∷ xs) ys p b = (b.0, IsBelow-insert m n xs ys p b.1)

  pub IsBelow-omit :
      (m : ℕ) (e : Element T) (xs ys : List (Element T))
      → IsBelow m (xs ++ e ∷ ys)
      → IsBelow m (xs ++ ys)
  IsBelow-omit m e [] ys b = b.1
  IsBelow-omit m e (x ∷ xs) ys b = (b.0, IsBelow-omit m e xs ys b.1)

  pub Listed-insert :
      (e n : Element T) (xs ys : List (Element T)) → Listed e (xs ++ ys) → Listed e (xs ++ n ∷ ys)
  Listed-insert e n [] ys l = inr l
  Listed-insert e n (x ∷ xs) ys (inl p) = inl p
  Listed-insert e n (x ∷ xs) ys (inr l) = inr (Listed-insert e n xs ys l)

  pub Listed-omit :
      (e n : Element T) (xs ys : List (Element T))
      → Listed e (xs ++ n ∷ ys)
      → (n ≡ e) ⊎ Listed e (xs ++ ys)
  Listed-omit e n [] ys l = l
  Listed-omit e n (x ∷ xs) ys (inl p) = inr (inl p)
  Listed-omit e n (x ∷ xs) ys (inr l) = elim (Listed-omit e n xs ys l) [
    | inl p ↦ inl p
    | inr m ↦ inr (inr m)
  ]

  pub first-split :
      (xs : List (Element T)) (e : Element T)
      → first xs ≡ some e
      → (ys : List (Element T)) × (xs ≡ e ∷ ys)
  first-split [] e p = cc
  first-split (x ∷ xs) e p = (xs, cc)

  pub first-eq-none : (xs : List (Element T)) → first xs ≡ none → xs ≡ []
  first-eq-none [] p = refl
  first-eq-none (x ∷ xs) p = cc

  pub last-eq-none : (xs : List (Element T)) → last xs ≡ none → xs ≡ []
  last-eq-none [] p = refl
  last-eq-none (x ∷ xs) p = ground arith

  pub last-split :
      (xs : List (Element T)) (e : Element T)
      → last xs ≡ some e
      → (ys : List (Element T)) × (xs ≡ ys ++ e ∷ [])
  last-split [] e p = cc
  last-split (x ∷ xs) e p = elim (Option-cases (last xs)) [
    | inl q ↦ ([], ground (arith, last-eq-none xs q))
    | inr (l, q) ↦ let (ys, r) = last-split xs l q in (x ∷ ys, ground arith)
  ]
