-- ===== src/Storage/Steps.antt =====
-- Every operation of pkg/task/queue/task_storage.go keeps the index sound, and complete if the ids are new.
use mathlib.Core.List.{append-nil, append_assoc}
use shell_operator.Base.{
  ◌≡◌, string_key, List, [], ◌∷◌, ◌++◌, none, some, String, lookup, refl, sym, subst, ◌∙◌,
}
use shell_operator.LinkedList.Sequence.{Element, IsDistinct, Listed, new_element}
use shell_operator.LinkedList.Sequence.Splits.{
  holds-Listed, Split-at, Listed-middle, behind_middle, ahead_middle, without_middle,
}
use shell_operator.Storage.{
  HasId, get_id, TaskStorage, add_first_one, add_last_one, remove_element, add_after_one,
  add_before_one, remove_indexed,
}
use shell_operator.Storage.Index.{
  IsSound, IsIndexed, joined_with, omitted, insert-IsSound, omit-IsSound, insert-IsIndexed,
  omit-IsIndexed,
}

module _ {T : Type 0} ⦃i : HasId T⦄ where
  -- Each operation on one element is an insertion or an omission at a split of the list.
  pub add_first_one-joined :
      (t : T) (s : TaskStorage T)
      → add_first_one t s ≡ joined_with [] (new_element t s.items) s.items.elements s
  unfolding add_first_one
  add_first_one-joined t s = refl

  pub add_last_one-joined :
      (t : T) (s : TaskStorage T)
      → add_last_one t s ≡ joined_with s.items.elements (new_element t s.items) [] s
  unfolding add_last_one
  add_last_one-joined t s = refl

  pub add_after_one-joined :
      (m : Element T) (t : T) (s : TaskStorage T) (xs ys : List (Element T))
      → s.items.elements ≡ xs ++ m ∷ ys
      → IsDistinct s.items.elements
      → add_after_one m t s ≡ joined_with (xs ++ m ∷ []) (new_element t s.items) ys s
  unfolding add_after_one
  add_after_one-joined m t s xs ys e d = rw (
    e,
    holds-Listed m (xs ++ m ∷ ys) (Listed-middle m xs ys),
    behind_middle (new_element t s.items) m xs ys (subst IsDistinct e d),
    append_assoc xs (m ∷ []) (new_element t s.items ∷ ys),
  )

  pub add_before_one-joined :
      (m : Element T) (t : T) (s : TaskStorage T) (xs ys : List (Element T))
      → s.items.elements ≡ xs ++ m ∷ ys
      → IsDistinct s.items.elements
      → add_before_one m t s ≡ joined_with xs (new_element t s.items) (m ∷ ys) s
  unfolding add_before_one
  add_before_one-joined m t s xs ys e d = rw (
    e,
    holds-Listed m (xs ++ m ∷ ys) (Listed-middle m xs ys),
    ahead_middle (new_element t s.items) m xs ys (subst IsDistinct e d),
  )

  pub remove_element-omitted :
      (m : Element T) (s : TaskStorage T) (xs ys : List (Element T))
      → s.items.elements ≡ xs ++ m ∷ ys
      → IsDistinct s.items.elements
      → remove_element m s ≡ (m.value, omitted xs m ys s)
  unfolding remove_element
  remove_element-omitted m s xs ys e d = rw (e, without_middle m xs ys (subst IsDistinct e d))

  pub remove_indexed-omitted :
      (m : Element T) (s : TaskStorage T) (xs ys : List (Element T))
      → s.items.elements ≡ xs ++ m ∷ ys
      → IsDistinct s.items.elements
      → remove_indexed (get_id m.value) m s ≡ (some m.value, omitted xs m ys s)
  unfolding remove_indexed
  remove_indexed-omitted m s xs ys e d = rw (e, without_middle m xs ys (subst IsDistinct e d))

  pub add_first_one-IsSound : (t : T) (s : TaskStorage T) → IsSound s → IsSound (add_first_one t s)
  add_first_one-IsSound t s v =
      rw (add_first_one-joined t s)
        (insert-IsSound s (new_element t s.items) [] s.items.elements refl refl v)

  pub add_last_one-IsSound : (t : T) (s : TaskStorage T) → IsSound s → IsSound (add_last_one t s)
  add_last_one-IsSound t s v = rw (add_last_one-joined t s) (
      insert-IsSound s (new_element t s.items) s.items.elements []
        (sym (append-nil s.items.elements)) refl v)

  pub add_after_one-IsSound :
      (m : Element T) (t : T) (s : TaskStorage T)
      → Listed m s.items.elements
      → IsSound s
      → IsSound (add_after_one m t s)
  add_after_one-IsSound m t s l v =
      let p = Split-at m s.items.elements l in
      rw (add_after_one-joined m t s p.before p.after p.joined v.distinct) (
        insert-IsSound s (new_element t s.items) (p.before ++ m ∷ []) p.after
          (p.joined ∙ sym (append_assoc p.before (m ∷ []) p.after)) refl v)

  pub add_before_one-IsSound :
      (m : Element T) (t : T) (s : TaskStorage T)
      → Listed m s.items.elements
      → IsSound s
      → IsSound (add_before_one m t s)
  add_before_one-IsSound m t s l v =
      let p = Split-at m s.items.elements l in
      rw (add_before_one-joined m t s p.before p.after p.joined v.distinct)
        (insert-IsSound s (new_element t s.items) p.before (m ∷ p.after) p.joined refl v)

  pub remove_element-IsSound :
      (m : Element T) (s : TaskStorage T)
      → Listed m s.items.elements
      → IsSound s
      → IsSound (remove_element m s).1
  remove_element-IsSound m s l v =
      let p = Split-at m s.items.elements l in
      rw (remove_element-omitted m s p.before p.after p.joined v.distinct)
        (omit-IsSound s m p.before p.after p.joined v)

  pub remove_indexed-IsSound :
      (id : String) (m : Element T) (s : TaskStorage T)
      → Listed m s.items.elements
      → get_id m.value ≡ id
      → IsSound s
      → IsSound (remove_indexed id m s).1
  remove_indexed-IsSound id m s l named v =
      let p = Split-at m s.items.elements l in
      subst (λ k. IsSound (remove_indexed k m s).1) named
        (rw (remove_indexed-omitted m s p.before p.after p.joined v.distinct)
          (omit-IsSound s m p.before p.after p.joined v))

  -- The same, for an index that is complete, when the new id is not in use.
  abbrev pub IsNew : T → TaskStorage T → Type 0
  IsNew t s = lookup (get_id t) s.id_index ≡ none

  pub add_first_one-IsIndexed :
      (t : T) (s : TaskStorage T) → IsNew t s → IsIndexed s → IsIndexed (add_first_one t s)
  add_first_one-IsIndexed t s new v =
      rw (add_first_one-joined t s)
        (insert-IsIndexed s (new_element t s.items) [] s.items.elements refl refl new v)

  pub add_last_one-IsIndexed :
      (t : T) (s : TaskStorage T) → IsNew t s → IsIndexed s → IsIndexed (add_last_one t s)
  add_last_one-IsIndexed t s new v = rw (add_last_one-joined t s) (
      insert-IsIndexed s (new_element t s.items) s.items.elements []
        (sym (append-nil s.items.elements)) refl new v)

  pub add_after_one-IsIndexed :
      (m : Element T) (t : T) (s : TaskStorage T)
      → Listed m s.items.elements
      → IsNew t s
      → IsIndexed s
      → IsIndexed (add_after_one m t s)
  add_after_one-IsIndexed m t s l new v =
      let p = Split-at m s.items.elements l in
      rw (add_after_one-joined m t s p.before p.after p.joined v.sound.distinct) (
        insert-IsIndexed s (new_element t s.items) (p.before ++ m ∷ []) p.after
          (p.joined ∙ sym (append_assoc p.before (m ∷ []) p.after)) refl new v)

  pub add_before_one-IsIndexed :
      (m : Element T) (t : T) (s : TaskStorage T)
      → Listed m s.items.elements
      → IsNew t s
      → IsIndexed s
      → IsIndexed (add_before_one m t s)
  add_before_one-IsIndexed m t s l new v =
      let p = Split-at m s.items.elements l in
      rw (add_before_one-joined m t s p.before p.after p.joined v.sound.distinct)
        (insert-IsIndexed s (new_element t s.items) p.before (m ∷ p.after) p.joined refl new v)

  pub remove_element-IsIndexed :
      (m : Element T) (s : TaskStorage T)
      → Listed m s.items.elements
      → IsIndexed s
      → IsIndexed (remove_element m s).1
  remove_element-IsIndexed m s l v =
      let p = Split-at m s.items.elements l in
      rw (remove_element-omitted m s p.before p.after p.joined v.sound.distinct)
        (omit-IsIndexed s m p.before p.after p.joined v)

  pub remove_indexed-IsIndexed :
      (id : String) (m : Element T) (s : TaskStorage T)
      → Listed m s.items.elements
      → get_id m.value ≡ id
      → IsIndexed s
      → IsIndexed (remove_indexed id m s).1
  remove_indexed-IsIndexed id m s l named v =
      let p = Split-at m s.items.elements l in
      subst (λ k. IsIndexed (remove_indexed k m s).1) named
        (rw (remove_indexed-omitted m s p.before p.after p.joined v.sound.distinct)
          (omit-IsIndexed s m p.before p.after p.joined v))
