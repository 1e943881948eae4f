-- ===== src/Storage/Index.antt =====
-- The index of pkg/task/queue/task_storage.go agrees with the list, whatever the calls.
use shell_operator.Base.{
  ◌∙◌, lookup-insert_ne, lookup-delete_ne, lookup-insert_self, subst, lookup-delete_cases,
  lookup-insert_cases, suc, ◌≡◌, string_key, List, ◌∷◌, ◌++◌, none, some, String, lookup, insert,
  delete, inl, inr, sym, arith,
}
use shell_operator.LinkedList.Sequence.{Element, IsDistinct, IsBelow, Listed}
use shell_operator.LinkedList.Sequence.Splits.{
  not-holds_fresh, IsBelow-suc, holds-Listed, Listed-middle, IsDistinct-insert, IsDistinct-omit,
  holds_omitted, IsBelow-insert, IsBelow-omit, Listed-insert, Listed-omit,
}
use shell_operator.Storage.{HasId, get_id, TaskStorage}

module _ {T : Type 0} ⦃i : HasId T⦄ where
  -- Pointers are distinct, and an index entry leads to an element of the list with that id.
  pub record IsSound (s : TaskStorage T) : Type 0 where
    pub distinct : IsDistinct s.items.elements
    pub below : IsBelow s.items.fresh s.items.elements
    pub indexed :
        (id : String) (e : Element T)
        → lookup id s.id_index ≡ some e
        → Listed e s.items.elements × (get_id e.value ≡ id)

  -- Moreover every element is found under its id, so no two tasks of the queue share an id.
  pub record IsIndexed (s : TaskStorage T) : Type 0 where
    pub sound : IsSound s
    pub complete :
        (e : Element T) → Listed e s.items.elements → lookup (get_id e.value) s.id_index ≡ some e

  abbrev pub joined_with :
      List (Element T) → Element T → List (Element T) → TaskStorage T → TaskStorage T
  joined_with xs n ys s = record {
    items = record { elements = xs ++ n ∷ ys; fresh = suc s.items.fresh };
    id_index = insert (get_id n.value) n s.id_index;
  }

  abbrev pub omitted :
      List (Element T) → Element T → List (Element T) → TaskStorage T → TaskStorage T
  omitted xs e ys s = record {
    items = record { elements = xs ++ ys; fresh = s.items.fresh };
    id_index = delete (get_id e.value) s.id_index;
  }

  pub insert-IsSound :
      (s : TaskStorage T) (n : Element T) (xs ys : List (Element T))
      → s.items.elements ≡ xs ++ ys
      → n.handle ≡ s.items.fresh
      → IsSound s
      → IsSound (joined_with xs n ys s)
  insert-IsSound s n xs ys e h v = record {
    distinct =
        IsDistinct-insert n xs ys
          (rw (h, ← e) (not-holds_fresh s.items.fresh s.items.elements v.below))
          (rw (← e) v.distinct);
    below =
        IsBelow-insert (suc s.items.fresh) n xs ys (omega arith)
          (rw (← e) (IsBelow-suc s.items.fresh s.items.elements v.below));
    indexed = λ id x p. elim (lookup-insert_cases (get_id n.value) id n x s.id_index p) [
      | inl (named, found) ↦
          (subst (λ y. Listed y (xs ++ n ∷ ys)) found (Listed-middle n xs ys), rw (← found) named)
      | inr (_, old) ↦
          let (listed, named) = v.indexed id x old in
          (Listed-insert x n xs ys (subst (Listed x) e listed), named)
    ];
  }

  pub omit-IsSound :
      (s : TaskStorage T) (e : Element T) (xs ys : List (Element T))
      → s.items.elements ≡ xs ++ e ∷ ys
      → IsSound s
      → IsSound (omitted xs e ys s)
  omit-IsSound s e xs ys p v = record {
    distinct = IsDistinct-omit e xs ys (rw (← p) v.distinct);
    below = IsBelow-omit s.items.fresh e xs ys (rw (← p) v.below);
    indexed = λ id x q.
        let (differ, old) = lookup-delete_cases (get_id e.value) id x s.id_index q in
        let (listed, named) = v.indexed id x old in
        elim (Listed-omit x e xs ys (subst (Listed x) p listed)) [
          | inl same ↦ absurd (differ (rw same named))
          | inr other ↦ (other, named)
        ];
  }

  pub insert-IsIndexed :
      (s : TaskStorage T) (n : Element T) (xs ys : List (Element T))
      → s.items.elements ≡ xs ++ ys
      → n.handle ≡ s.items.fresh
      → lookup (get_id n.value) s.id_index ≡ none
      → IsIndexed s
      → IsIndexed (joined_with xs n ys s)
  insert-IsIndexed s n xs ys e h new v = record {
    sound = insert-IsSound s n xs ys e h v.sound;
    complete = λ x l. elim (Listed-omit x n xs ys l) [
      | inl same ↦
          subst (λ y. lookup (get_id y.value) (insert (get_id n.value) n s.id_index) ≡ some y) same
            (lookup-insert_self (get_id n.value) n s.id_index)
      | inr old ↦
          let found = v.complete x (subst (Listed x) (sym e) old) in
          lookup-insert_ne (get_id n.value) (get_id x.value) n s.id_index (λ q. cc) ∙ found
    ];
  }

  pub omit-IsIndexed :
      (s : TaskStorage T) (e : Element T) (xs ys : List (Element T))
      → s.items.elements ≡ xs ++ e ∷ ys
      → IsIndexed s
      → IsIndexed (omitted xs e ys s)
  omit-IsIndexed s e xs ys p v = record {
    sound = omit-IsSound s e xs ys p v.sound;
    complete = λ x l.
        let found = v.complete x (subst (Listed x) (sym p) (Listed-insert x e xs ys l)) in
        let this = v.complete e (subst (Listed e) (sym p) (Listed-middle e xs ys)) in
        let gone = holds_omitted e xs ys (subst IsDistinct p v.sound.distinct) in
        lookup-delete_ne (get_id e.value) (get_id x.value) s.id_index
          (λ q. cc (holds-Listed x (xs ++ ys) l))
        ∙ found;
  }
