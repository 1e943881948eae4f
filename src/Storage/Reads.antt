-- ===== src/Storage/Reads.antt =====
-- What Get, GetFirst, GetLast and the removals of pkg/task/queue/task_storage.go answer.
use mathlib.Core.List.{append-nil, map-append, Memᴰ}
use shell_operator.Base.{
  ◌≡◌, string_key, List, [], ◌∷◌, ◌++◌, none, some, String, lookup, ◌⊎◌, inl, inr, refl, sym, arith,
  ◌↔◌, Option-cases, subst, ◌∙◌, ap,
}
use shell_operator.LinkedList.Sequence.{Element, Listed, front, back, values}
use shell_operator.LinkedList.Sequence.Splits.{first-split, last-split, first-eq-none, last-eq-none}
use shell_operator.Storage.{
  HasId, get_id, TaskStorage, get_snapshot, get, remove_first, remove_last, remove_element,
}
use shell_operator.Storage.Index.{IsSound, IsIndexed}
use shell_operator.Storage.Steps

module _ {T : Type 0} ⦃i : HasId T⦄ where
  value-Memᴰ : (e : Element T) (es : List (Element T)) → Listed e es → Memᴰ e.value (values es)
  value-Memᴰ e [] l = absurd l
  value-Memᴰ e (x ∷ es) (inl p) = Memᴰ.head (ap (λ q. q.value) (sym p))
  value-Memᴰ e (x ∷ es) (inr l) = Memᴰ.tail (value-Memᴰ e es l)

  Memᴰ-value :
      (t : T) (es : List (Element T))
      → Memᴰ t (values es)
      → (e : Element T) × Listed e es × (e.value ≡ t)
  Memᴰ-value t [] m = elim m [ ]
  Memᴰ-value t (x ∷ es) (Memᴰ.head p) = (x, inl refl, sym p)
  Memᴰ-value t (x ∷ es) (Memᴰ.tail m) = let (e, l, q) = Memᴰ-value t es m in (e, inr l, q)

  found-eq :
      (k : String) (e : Element T) (s : TaskStorage T)
      → lookup k s.id_index ≡ some e
      → get k s ≡ some e.value
  unfolding get
  found-eq k e s h = rw (h, get)

  get-some :
      (k : String) (t : T) (s : TaskStorage T)
      → get k s ≡ some t
      → (e : Element T) × (lookup k s.id_index ≡ some e) × (e.value ≡ t)
  unfolding get
  get-some k t s h = elim (Option-cases (lookup k s.id_index)) [
    | inl q ↦ absurd (cc (rw (q, get) at h))
    | inr (e, q) ↦ (e, q, ground arith)
  ]

  -- When the index is complete, Get finds a task under an id exactly if the task is in the queue
  -- and has that id.
  pub get_iff :
      (k : String) (t : T) (s : TaskStorage T)
      → IsIndexed s
      → (get k s ≡ some t) ↔ (Memᴰ t (get_snapshot s) × (get_id t ≡ k))
  get_iff k t s v = (
    λ h.
        let (e, q, r) = get-some k t s h in
        let (l, named) = v.sound.indexed k e q in
        (
          subst (λ u. Memᴰ u (get_snapshot s)) r (value-Memᴰ e _ l),
          ap (λ u. get_id u) (sym r) ∙ named,
        ),
    λ (m, named).
        let (e, l, r) = Memᴰ-value t _ m in
        subst (λ j. get j s ≡ some t) (ap (λ u. get_id u) r ∙ named)
          (found-eq (get_id e.value) e s (v.complete e l) ∙ ap some r),
  )

  remove_first-empty : (s : TaskStorage T) → front s.items ≡ none → remove_first s ≡ (none, s)
  unfolding remove_first
  remove_first-empty s e = rw (e, remove_first)

  remove_first-found :
      (m : Element T) (s : TaskStorage T)
      → front s.items ≡ some m
      → remove_first s ≡ (some m.value, (remove_element m s).1)
  unfolding remove_first
  remove_first-found m s e = rw (e, remove_first)

  -- When the index is sound, RemoveFirst splits the first task off the snapshot; on an empty queue
  -- it answers nil and changes nothing.
  pub remove_first-snapshot :
      (s : TaskStorage T)
      → IsSound s
      → (get_snapshot s ≡ []) × (remove_first s ≡ (none, s))
        ⊎ ((t : T) × ((remove_first s).0 ≡ some t)
            × (get_snapshot s ≡ t ∷ get_snapshot (remove_first s).1))
  remove_first-snapshot s v = elim (Option-cases (front s.items)) [
    | inl e ↦ inl (ap values (first-eq-none s.items.elements e), remove_first-empty s e)
    | inr (m, e) ↦
        let (ys, q) = first-split s.items.elements m e in
        let r = Steps.remove_element-omitted m s [] ys q v.distinct in
        inr (m.value, ap (λ w. w.0) (remove_first-found m s e), rw (remove_first-found m s e, r, q))
  ]

  remove_last-empty : (s : TaskStorage T) → back s.items ≡ none → remove_last s ≡ (none, s)
  unfolding remove_last
  remove_last-empty s e = rw (e, remove_last)

  remove_last-found :
      (m : Element T) (s : TaskStorage T)
      → back s.items ≡ some m
      → remove_last s ≡ (some m.value, (remove_element m s).1)
  unfolding remove_last
  remove_last-found m s e = rw (e, remove_last)

  -- When the index is sound, RemoveLast splits the last task off the snapshot; on an empty queue it
  -- answers nil and changes nothing.
  pub remove_last-snapshot :
      (s : TaskStorage T)
      → IsSound s
      → (get_snapshot s ≡ []) × (remove_last s ≡ (none, s))
        ⊎ ((t : T) × ((remove_last s).0 ≡ some t)
            × (get_snapshot s ≡ get_snapshot (remove_last s).1 ++ t ∷ []))
  remove_last-snapshot s v = elim (Option-cases (back s.items)) [
    | inl e ↦ inl (ap values (last-eq-none s.items.elements e), remove_last-empty s e)
    | inr (m, e) ↦
        let (ys, q) = last-split s.items.elements m e in
        let r = Steps.remove_element-omitted m s ys [] q v.distinct in
        inr (
          m.value,
          ap (λ w. w.0) (remove_last-found m s e),
          rw (remove_last-found m s e, r, q, append-nil ys)
              (map-append (λ (w : Element T). w.value) ys (m ∷ [])),
        )
  ]
