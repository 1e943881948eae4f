-- ===== src/Contexts/Tests.antt =====
-- The two compactions of binding contexts at concrete contexts.
use mathlib.Core.List.Permᴰ
use shell_operator.Base.{none, ◌≡◌, string_key, List, [], ◌∷◌, String, refl, keep, differ}
use shell_operator.Task.{BindingContext}
use shell_operator.Contexts.{compact_binding_contexts, compact_adjacent}
use shell_operator.Contexts.Grouped.{IsRangeOrder, in_group, latest, compact_binding_contexts-group}
use shell_operator.Contexts.Adjacent.{
  HasNoRuns, compact_adjacent-HasNoRuns, compact_adjacent-latest, compact_binding_contexts-reorders,
}

abbrev context : String → String → BindingContext
context group name = record {
  version = "v1";
  binding_type = "kubernetes";
  include_snapshots = [];
  group = group;
  binding = name;
  event_type = "Event";
  watch_event = none;
  from_version = "";
  to_version = "";
}

abbrev some_contexts : List BindingContext
some_contexts =
    context "g" "one" ∷ context "g" "two" ∷ context "" "alone" ∷ context "g" "three" ∷ []

abbrev as_it_is : {A : Type 0} → List A → List A
as_it_is m = m

as_it_is-IsRangeOrder : {A : Type 0} → IsRangeOrder {A = A} as_it_is
as_it_is-IsRangeOrder m = Permᴰ.refl m

compact_binding_contexts-group_example :
    keep (in_group "g") (compact_binding_contexts as_it_is some_contexts)
    ≡ latest [] (keep (in_group "g") some_contexts)
compact_binding_contexts-group_example =
    compact_binding_contexts-group as_it_is as_it_is-IsRangeOrder "g" some_contexts
      (differ "g" "" refl)

compact_adjacent-HasNoRuns_example : HasNoRuns (compact_adjacent some_contexts)
compact_adjacent-HasNoRuns_example = compact_adjacent-HasNoRuns some_contexts

compact_adjacent-latest_example :
    latest [] (keep (in_group "g") (compact_adjacent some_contexts))
    ≡ latest [] (keep (in_group "g") some_contexts)
compact_adjacent-latest_example = compact_adjacent-latest "g" [] some_contexts

compact_binding_contexts-reorders_example :
    (compact_binding_contexts as_it_is (context "g" "one" ∷ context "" "alone" ∷ [])
      ≡ context "" "alone" ∷ context "g" "one" ∷ [])
    × (compact_adjacent (context "g" "one" ∷ context "" "alone" ∷ [])
        ≡ context "g" "one" ∷ context "" "alone" ∷ [])
compact_binding_contexts-reorders_example =
    compact_binding_contexts-reorders as_it_is (context "g" "one") (context "" "alone")
      as_it_is-IsRangeOrder (differ "g" "" refl) refl
