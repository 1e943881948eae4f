-- ===== src/Contexts/Grouped.antt =====
-- compactBindingContexts of pkg/task/queue/task_queue.go keeps the ungrouped contexts in order and the
-- last context of every group, in whatever order Go walks the map of groups.
use mathlib.Core.List.{Permᴰ, append-nil}
use shell_operator.Base.{
  ◌≡◌, ◌≢◌, Bool, ◌==◌, string_key, nat_key, if◌then◌else◌, List, [], ◌∷◌, ◌++◌, String, insert,
  true, inl, inr, refl, arith, Bool-cases, keep, keep-append, keep-map, length, ltb, eq_iff, ◌∙◌,
  ap, ◌≤◌,
}
use shell_operator.Task.{BindingContext}
use shell_operator.Contexts.{
  is_grouped, is_ungrouped, last_for_group, map_values, compact_binding_contexts,
}

abbrev pub in_group : String → BindingContext → Bool
in_group g c = c.group == g

abbrev entry_in : String → String × BindingContext → Bool
entry_in g e = e.1.group == g

-- Each entry stands under its context's group, and no group has two entries.
abbrev IsGroupMap : List (String × BindingContext) → Type 0
IsGroupMap [] = Unit {0}
IsGroupMap ((k, c) ∷ m) = (c.group ≡ k) × (keep (entry_in k) m ≡ []) × IsGroupMap m

keep-insert :
    (g : String) (c : BindingContext) (m : List (String × BindingContext))
    → IsGroupMap m
    → keep (entry_in g) (insert c.group c m)
      ≡ (if c.group == g then (c.group, c) ∷ [] else keep (entry_in g) m)
unfolding insert
keep-insert g c [] w = refl
keep-insert g c ((j, d) ∷ m) w =
    ground (
      arith,
      keep-insert g c m w.2,
      eq_iff c.group g,
      eq_iff j c.group,
      eq_iff d.group g,
      eq_iff j g,
    )

insert-IsGroupMap :
    (c : BindingContext) (m : List (String × BindingContext))
    → IsGroupMap m
    → IsGroupMap (insert c.group c m)
unfolding insert
insert-IsGroupMap c [] w = (refl, refl, tt)
insert-IsGroupMap c ((j, d) ∷ m) w =
    ground
      (arith, insert-IsGroupMap c m w.2, keep-insert j c m w.2, eq_iff j c.group, eq_iff c.group j)

-- The last element of a list, or what came before it.
abbrev pub latest {ℓ} : {A : Type ℓ} → List A → List A → List A
latest before [] = before
latest before (x ∷ xs) = latest (x ∷ []) xs

last_for_group-latest :
    (g : String) (cs : List BindingContext) (m : List (String × BindingContext))
    → g ≢ ""
    → IsGroupMap m
    → map_values (keep (entry_in g) (last_for_group cs m))
      ≡ latest (map_values (keep (entry_in g) m)) (keep (in_group g) cs)
unfolding last_for_group
last_for_group-latest g [] m ne w = refl
last_for_group-latest g (c ∷ cs) m ne w = ground (
  arith,
  last_for_group-latest g cs m ne w,
  last_for_group-latest g cs (insert c.group c m) ne (insert-IsGroupMap c m w),
  keep-insert g c m w,
  eq_iff c.group "",
  eq_iff c.group g,
)

last_for_group-IsGroupMap :
    (cs : List BindingContext) (m : List (String × BindingContext))
    → IsGroupMap m
    → IsGroupMap (last_for_group cs m)
unfolding last_for_group
last_for_group-IsGroupMap [] m w = w
last_for_group-IsGroupMap (c ∷ cs) m w = ground (
  arith,
  last_for_group-IsGroupMap cs m w,
  last_for_group-IsGroupMap cs (insert c.group c m) (insert-IsGroupMap c m w),
)

no_ungrouped_entry :
    (cs : List BindingContext) (m : List (String × BindingContext))
    → IsGroupMap m
    → keep (entry_in "") (last_for_group cs m) ≡ keep (entry_in "") m
unfolding last_for_group
no_ungrouped_entry [] m w = refl
no_ungrouped_entry (c ∷ cs) m w = ground (
  arith,
  no_ungrouped_entry cs m w,
  no_ungrouped_entry cs (insert c.group c m) (insert-IsGroupMap c m w),
  keep-insert "" c m w,
)

one_entry :
    (g : String) (m : List (String × BindingContext))
    → IsGroupMap m
    → length (keep (entry_in g) m) ≤ 1
one_entry g [] w = omega arith
one_entry g ((k, c) ∷ m) w = ground (arith, one_entry g m w.2, eq_iff c.group g, eq_iff k g)

-- A walk of the map, in any order, that visits each entry once.
abbrev pub IsRangeOrder : {A : Type 0} → (List A → List A) → Type 0
IsRangeOrder {A} order = (m : List A) → Permᴰ (order m) m

length-keep-perm :
    {A : Type 0} (p : A → Bool) {xs ys : List A}
    → Permᴰ xs ys
    → length (keep p xs) ≡ length (keep p ys)
length-keep-perm p Permᴰ.nil = refl
length-keep-perm p (Permᴰ.cons e d) = ground (arith, length-keep-perm p d)
length-keep-perm p (Permᴰ.swap e f) = ground arith
length-keep-perm p (Permᴰ.trans d f) = length-keep-perm p d ∙ length-keep-perm p f

-- A test that one entry passes at most finds the same in any order.
pub keep-perm :
    {A : Type 0} (p : A → Bool) {xs ys : List A}
    → Permᴰ xs ys
    → length (keep p ys) ≤ 1
    → keep p xs ≡ keep p ys
keep-perm p Permᴰ.nil h = refl
keep-perm p (Permᴰ.cons e d) h = ground (arith, keep-perm p d)
keep-perm p (Permᴰ.swap e f) h = ground arith
keep-perm p (Permᴰ.trans d f) h =
    keep-perm p d (omega (arith, length-keep-perm p f)) ∙ keep-perm p f h

keep-keep_ungrouped :
    (cs : List BindingContext) → keep is_ungrouped (keep is_ungrouped cs) ≡ keep is_ungrouped cs
keep-keep_ungrouped [] = refl
keep-keep_ungrouped (c ∷ cs) = ground (arith, keep-keep_ungrouped cs)

in_group-ungrouped :
    (g : String) (cs : List BindingContext) → g ≢ "" → keep (in_group g) (keep is_ungrouped cs) ≡ []
in_group-ungrouped g [] ne = refl
in_group-ungrouped g (c ∷ cs) ne =
    ground (arith, in_group-ungrouped g cs ne, eq_iff c.group g, eq_iff c.group "")

none_grouped :
    (g : String) (cs : List BindingContext)
    → g ≢ ""
    → length (keep is_grouped cs) ≡ 0
    → keep (in_group g) cs ≡ []
none_grouped g [] ne h = refl
none_grouped g (c ∷ cs) ne h =
    ground (arith, none_grouped g cs ne, eq_iff c.group g, eq_iff c.group "")

module _ (order : List (String × BindingContext) → List (String × BindingContext))
    (walks : IsRangeOrder order) where
  grouped_part : List BindingContext → List BindingContext
  grouped_part cs = map_values (order (last_for_group cs []))

  grouped_part-latest :
      (g : String) (cs : List BindingContext)
      → g ≢ ""
      → keep (in_group g) (grouped_part cs) ≡ latest [] (keep (in_group g) cs)
  unfolding grouped_part
  grouped_part-latest g cs ne =
      let m = last_for_group cs [] in
      keep-map (in_group g) (λ e. e.1) (order m)
      ∙ ap map_values
          (keep-perm (entry_in g) (walks m) (one_entry g m (last_for_group-IsGroupMap cs [] tt)))
      ∙ last_for_group-latest g cs [] ne tt

  grouped_part_grouped : (cs : List BindingContext) → keep is_ungrouped (grouped_part cs) ≡ []
  unfolding grouped_part
  grouped_part_grouped cs =
      let m = last_for_group cs [] in
      keep-map is_ungrouped (λ e. e.1) (order m)
      ∙ ap map_values (
          keep-perm (entry_in "") (walks m) (one_entry "" m (last_for_group-IsGroupMap cs [] tt))
          ∙ no_ungrouped_entry cs [] tt)

  compact_cases :
      (P : List BindingContext → Type 0) (cs : List BindingContext)
      → (ltb (length cs) 2 ≡ true → P cs)
      → (length (keep is_grouped cs) ≡ 0 → P cs)
      → P (keep is_ungrouped cs ++ grouped_part cs)
      → P (compact_binding_contexts order cs)
  unfolding compact_binding_contexts grouped_part
  compact_cases P cs short plain merged = elim (Bool-cases (ltb (length cs) 2)) [
    | inl h ↦ rw (h, compact_binding_contexts) (short h)
    | inr h ↦ elim (Bool-cases (nat_key.same (length (keep is_grouped cs)) 0)) [
      | inl k ↦
          rw (h, k, compact_binding_contexts)
            (plain ((nat_key.same_iff (length (keep is_grouped cs)) 0).0 k))
      | inr k ↦ rw (h, k, compact_binding_contexts) merged
    ]
  ]

  short_latest :
      (g : String) (cs : List BindingContext)
      → ltb (length cs) 2 ≡ true
      → keep (in_group g) cs ≡ latest [] (keep (in_group g) cs)
  short_latest g [] h = refl
  short_latest g (c ∷ []) h = ground arith
  short_latest g (c ∷ d ∷ cs) h = absurd (ground arith)

  -- For every group, compactBindingContexts keeps the last context of the group and no other of it,
  -- in whatever order Go walks the map of groups.
  pub compact_binding_contexts-group :
      (g : String) (cs : List BindingContext)
      → g ≢ ""
      → keep (in_group g) (compact_binding_contexts order cs) ≡ latest [] (keep (in_group g) cs)
  compact_binding_contexts-group g cs ne =
      compact_cases (λ r. keep (in_group g) r ≡ latest [] (keep (in_group g) cs)) cs
        (short_latest g cs) (λ k. let e = none_grouped g cs ne k in rw e)
        (keep-append (in_group g) (keep is_ungrouped cs) (grouped_part cs)
          ∙ ap (λ r. r ++ keep (in_group g) (grouped_part cs)) (in_group-ungrouped g cs ne)
          ∙ grouped_part-latest g cs ne)

  -- compactBindingContexts keeps the ungrouped contexts, in their order, in whatever order Go walks
  -- the map of groups.
  pub compact_binding_contexts-ungrouped :
      (cs : List BindingContext)
      → keep is_ungrouped (compact_binding_contexts order cs) ≡ keep is_ungrouped cs
  compact_binding_contexts-ungrouped cs =
      compact_cases (λ r. keep is_ungrouped r ≡ keep is_ungrouped cs) cs (λ _. refl) (λ _. refl)
        (keep-append is_ungrouped (keep is_ungrouped cs) (grouped_part cs)
          ∙ ap (λ r. keep is_ungrouped (keep is_ungrouped cs) ++ r) (grouped_part_grouped cs)
          ∙ append-nil (keep is_ungrouped (keep is_ungrouped cs))
          ∙ keep-keep_ungrouped cs)
