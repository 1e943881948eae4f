-- ===== src/Storage/Places.antt =====
-- pkg/task/queue/task_storage.go: where added tasks, and a task that is looked for, stand in the list.
use mathlib.Core.List.{append-nil, append_assoc, map-append}
use shell_operator.Base.{
  ◌≡◌, ◌≢◌, string_key, List, [], ◌∷◌, ◌++◌, some, String, lookup, refl, sym, arith, All,
  lookup-insert_ne, subst, ◌∙◌, ap,
}
use shell_operator.LinkedList.Sequence.{Element, Listed, new_element, values}
use shell_operator.LinkedList.Sequence.Splits.{Listed-middle}
use shell_operator.Storage.{
  HasId, get_id, TaskStorage, add_first, add_last_one, add_last, add_after_one, add_after_mark,
  get_snapshot,
}
use shell_operator.Storage.Index.{IsSound, IsIndexed}
use shell_operator.Storage.Steps
use shell_operator.Storage.Calls

module _ {T : Type 0} ⦃i : HasId T⦄ where
  pub snapshot-add_first :
      (ts : List T) (s : TaskStorage T) → get_snapshot (add_first ts s) ≡ ts ++ get_snapshot s
  unfolding add_first
  snapshot-add_first [] s = refl
  snapshot-add_first (t ∷ ts) s =
      rw (Steps.add_first_one-joined t (add_first ts s)) (ap (λ r. t ∷ r) (snapshot-add_first ts s))

  pub snapshot-add_last :
      (ts : List T) (s : TaskStorage T) → get_snapshot (add_last ts s) ≡ get_snapshot s ++ ts
  unfolding add_last
  snapshot-add_last [] s = sym (append-nil (get_snapshot s))
  snapshot-add_last (t ∷ ts) s =
      snapshot-add_last ts (add_last_one t s)
      ∙ rw (
        Steps.add_last_one-joined t s,
        map-append (λ (e : Element T). e.value) s.items.elements,
        append_assoc (get_snapshot s) (t ∷ []) ts,
      )

  -- What `add_after_mark` leaves: the new elements stand right behind the mark.
  pub record Inserted (m : Element T) (ts : List T) (xs ys : List (Element T)) (s : TaskStorage T)
      : Type 0 where
    pub new : List (Element T)
    pub in_order : values new ≡ ts
    pub place : s.items.elements ≡ xs ++ m ∷ (new ++ ys)

  pub add_after_mark-Inserted :
      (m : Element T) (ts : List T) (s : TaskStorage T) (xs ys : List (Element T))
      → s.items.elements ≡ xs ++ m ∷ ys
      → IsSound s
      → Inserted m ts xs ys (add_after_mark m ts s)
  unfolding add_after_mark
  add_after_mark-Inserted m [] s xs ys e v = record { new = []; in_order = refl; place = e }
  add_after_mark-Inserted m (t ∷ ts) s xs ys e v =
      let r = add_after_mark-Inserted m ts s xs ys e v in
      let (w, _) = Calls.add_after_mark-IsSound m ts s (rw e (Listed-middle m xs ys)) v in
      let s' = add_after_mark m ts s in
      let n = new_element t s'.items in
      record {
        new = n ∷ r.new;
        in_order = ap (λ q. t ∷ q) r.in_order;
        place =
            rw (Steps.add_after_one-joined m t s' xs (r.new ++ ys) r.place w.distinct)
              (append_assoc xs (m ∷ []) (n ∷ (r.new ++ ys)));
      }

  pub add_after_one-lookup :
      (k : String) (m : Element T) (t : T) (s : TaskStorage T)
      → get_id t ≢ k
      → lookup k (add_after_one m t s).id_index ≡ lookup k s.id_index
  unfolding add_after_one
  add_after_one-lookup k m t s h =
      ground (arith, lookup-insert_ne (get_id t) k (new_element t s.items) s.id_index h)

  pub add_after_mark-lookup :
      (k : String) (m : Element T) (ts : List T) (s : TaskStorage T)
      → All (λ t. get_id t ≢ k) ts
      → lookup k (add_after_mark m ts s).id_index ≡ lookup k s.id_index
  unfolding add_after_mark
  add_after_mark-lookup k m [] s h = refl
  add_after_mark-lookup k m (t ∷ ts) s h =
      add_after_one-lookup k m t (add_after_mark m ts s) h.0 ∙ add_after_mark-lookup k m ts s h.1

  pub record ValueSplit (pre : List T) (t : T) (post : List T) (es : List (Element T))
      : Type 0 where
    pub before : List (Element T)
    pub at : Element T
    pub after : List (Element T)
    pub joined : es ≡ before ++ at ∷ after
    pub values_before : values before ≡ pre
    pub value_at : at.value ≡ t
    pub values_after : values after ≡ post

  pub split_values :
      (pre : List T) (t : T) (post : List T) (es : List (Element T))
      → values es ≡ pre ++ t ∷ post
      → ValueSplit pre t post es
  split_values [] t post [] h = cc
  split_values (p ∷ pre) t post [] h = cc
  split_values [] t post (e ∷ es) h = record {
    before = [];
    at = e;
    after = es;
    joined = refl;
    values_before = refl;
    value_at = cc;
    values_after = cc;
  }
  split_values (p ∷ pre) t post (e ∷ es) h =
      let r = split_values pre t post es (cc) in
      record {
        before = e ∷ r.before;
        at = r.at;
        after = r.after;
        joined = ap (λ q. e ∷ q) r.joined;
        values_before = cc (r.values_before);
        value_at = r.value_at;
        values_after = r.values_after;
      }

  pub values-middle :
      (xs : List (Element T)) (m : Element T) (ys : List (Element T))
      → values (xs ++ m ∷ ys) ≡ values xs ++ m.value ∷ values ys
  values-middle xs m ys = map-append (λ (e : Element T). e.value) xs (m ∷ ys)

  pub snapshot-Inserted :
      (m : Element T) (ts : List T) (xs ys : List (Element T)) (s : TaskStorage T)
      → Inserted m ts xs ys s
      → get_snapshot s ≡ values xs ++ m.value ∷ (ts ++ values ys)
  snapshot-Inserted m ts xs ys s r = rw (
    r.place,
    values-middle xs m (r.new ++ ys),
    map-append (λ (e : Element T). e.value) r.new ys,
    r.in_order,
  )

  -- Where a task of the snapshot stands in the list, and that its id leads there.
  pub locate :
      (s : TaskStorage T) (pre post : List T) (t : T)
      → IsIndexed s
      → get_snapshot s ≡ pre ++ t ∷ post
      → (p : ValueSplit pre t post s.items.elements) × (lookup (get_id t) s.id_index ≡ some p.at)
  locate s pre post t v h =
      let p = split_values pre t post s.items.elements h in
      (
        p,
        subst (λ q. lookup (get_id q) s.id_index ≡ some p.at) p.value_at
            (v.complete p.at
              (subst (Listed p.at) (sym p.joined) (Listed-middle p.at p.before p.after))),
      )
