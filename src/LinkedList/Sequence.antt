-- ===== src/LinkedList/Sequence.antt =====
-- What pkg/utils/list/list.go promises its clients: a list is a sequence of elements. An element is
-- a pointer, told apart by its handle, to a value that never changes; `fresh` is the next pointer.
pub mod Splits
pub mod Kept
use shell_operator.Base.{
  ℕ, suc, ◌≡◌, Bool, ◌==◌, nat_key, if◌then◌else◌, List, [], ◌∷◌, ◌++◌, map, Option, none, some,
  any, ◌<◌, false, ◌⊎◌, length,
}

pub record Element (T : Type 0) : Type 0 where
  pub handle : ℕ
  pub value : T

pub record Sequence (T : Type 0) : Type 0 where
  pub elements : List (Element T)
  pub fresh : ℕ

module _ {T : Type 0} where
  abbrev pub empty : Sequence T
  empty = record { elements = []; fresh = 0 }

  abbrev pub len : Sequence T → ℕ
  len s = length s.elements

  -- Some element of the list has this handle: `e.list == l` in the source.
  abbrev pub holds : ℕ → List (Element T) → Bool
  holds h = any (λ x. x.handle == h)

  abbrev pub first : List (Element T) → Option (Element T)
  first [] = none
  first (e ∷ es) = some e

  abbrev pub last : List (Element T) → Option (Element T)
  last [] = none
  last (e ∷ es) = elim (last es) [ none ↦ some e | some l ↦ some l ]

  abbrev pub front : Sequence T → Option (Element T)
  front s = first s.elements

  abbrev pub back : Sequence T → Option (Element T)
  back s = last s.elements

  abbrev pub new_element : T → Sequence T → Element T
  new_element v s = record { handle = s.fresh; value = v }

  abbrev pub values : List (Element T) → List T
  values = map (λ e. e.value)

  unfoldable pub behind : Element T → ℕ → List (Element T) → List (Element T)
  behind e h [] = []
  behind e h (x ∷ xs) = if x.handle == h then x ∷ e ∷ xs else x ∷ behind e h xs

  pub ahead : Element T → ℕ → List (Element T) → List (Element T)
  ahead e h [] = []
  ahead e h (x ∷ xs) = if x.handle == h then e ∷ x ∷ xs else x ∷ ahead e h xs

  unfoldable pub without : ℕ → List (Element T) → List (Element T)
  without h [] = []
  without h (x ∷ xs) = if x.handle == h then xs else x ∷ without h xs

  unfoldable pub push_front : T → Sequence T → Element T × Sequence T
  push_front v s =
      let e = new_element v s in (e, record { elements = e ∷ s.elements; fresh = suc s.fresh })

  unfoldable pub push_back : T → Sequence T → Element T × Sequence T
  push_back v s =
      let e = new_element v s in
      (e, record { elements = s.elements ++ e ∷ []; fresh = suc s.fresh })

  -- `none`, and no change, if the mark is not in the list.
  unfoldable pub insert_after : T → Element T → Sequence T → Option (Element T) × Sequence T
  insert_after v mark s =
      if holds mark.handle s.elements
      then (
        some (new_element v s),
        record { elements = behind (new_element v s) mark.handle s.elements; fresh = suc s.fresh },
      )
      else (none, s)

  unfoldable pub insert_before : T → Element T → Sequence T → Option (Element T) × Sequence T
  insert_before v mark s =
      if holds mark.handle s.elements
      then (
        some (new_element v s),
        record { elements = ahead (new_element v s) mark.handle s.elements; fresh = suc s.fresh },
      )
      else (none, s)

  unfoldable pub remove : Element T → Sequence T → T × Sequence T
  remove e s = (e.value, record s { elements = without e.handle s.elements })

  -- No pointer occurs twice.
  abbrev pub IsDistinct : List (Element T) → Type 0
  IsDistinct [] = Unit {0}
  IsDistinct (x ∷ xs) = (holds x.handle xs ≡ false) × IsDistinct xs

  -- Every pointer has been handed out before.
  abbrev pub IsBelow : ℕ → List (Element T) → Type 0
  IsBelow n [] = Unit {0}
  IsBelow n (x ∷ xs) = (x.handle < n) × IsBelow n xs

  abbrev pub Listed : Element T → List (Element T) → Type 0
  Listed e [] = ⊥
  Listed e (x ∷ xs) = (x ≡ e) ⊎ Listed e xs
