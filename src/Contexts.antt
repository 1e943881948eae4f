-- ===== src/Contexts.antt =====
-- The two ways in which binding contexts of one hook are compacted: compactBindingContexts of
-- pkg/task/queue/task_queue.go and the last loop of pkg/shell-operator/combine_binding_context.go.
pub mod Grouped
pub mod Adjacent
mod Tests
use shell_operator.Base.{
  Bool, ◌==◌, string_key, nat_key, if◌then◌else◌, List, [], ◌∷◌, String, false, ◌+◌, ◌&&◌, ◌++◌,
  not, ltb, keep, length, insert, map,
}
use shell_operator.Task.{BindingContext}

abbrev pub is_grouped : BindingContext → Bool
is_grouped bc = not (bc.group == "")

abbrev pub is_ungrouped : BindingContext → Bool
is_ungrouped bc = bc.group == ""

-- The map from each group to the last context of it, in the order in which the groups first occur.
unfoldable pub last_for_group :
    List BindingContext → List (String × BindingContext) → List (String × BindingContext)
last_for_group [] m = m
last_for_group (c ∷ cs) m = last_for_group cs (if is_grouped c then insert c.group c m else m)

abbrev pub map_values : {A : Type 0} → List (String × A) → List A
map_values = map (λ e. e.1)

-- `range_order` is the order in which Go happens to walk the map. The source holds indices into the
-- slice where this has the contexts themselves.
unfoldable pub compact_binding_contexts :
    (List (String × BindingContext) → List (String × BindingContext))
    → List BindingContext
    → List BindingContext
unfolding last_for_group
compact_binding_contexts range_order cs =
    if ltb (length cs) 2
    then cs
    else if nat_key.same (length (keep is_grouped cs)) 0
    then cs
    else keep is_ungrouped cs ++ map_values (range_order (last_for_group cs []))

-- A context is dropped if the next one belongs to the same group.
abbrev pub superseded_by_next : BindingContext → List BindingContext → Bool
superseded_by_next c [] = false
superseded_by_next c (d ∷ ds) = is_grouped c && (d.group == c.group)

unfoldable pub compact_adjacent : List BindingContext → List BindingContext
compact_adjacent [] = []
compact_adjacent (c ∷ cs) =
    if superseded_by_next c cs then compact_adjacent cs else c ∷ compact_adjacent cs
