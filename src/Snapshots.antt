-- ===== src/Snapshots.antt =====
-- Snapshots for binding contexts: UpdateSnapshots of pkg/hook/controller/hook_controller.go, over SnapshotsFor of
-- pkg/hook/controller/kubernetes_bindings_controller.go. A slice of objects is none where Go has nil.
use shell_operator.Base.{
  ◌+◌, ◌==◌, lookup, insert, if◌then◌else◌, ℕ, List, Option, Bool, String, some, none, nat_key,
  string_key, arith, [], ◌∷◌,
}
pub mod Cache
pub mod Included
pub mod Consistent
mod Tests
use shell_operator.Task.{BindingContext, on_kubernetes_event, context_is_synchronization}
use shell_operator.Bindings.{MonitorCalls, OnKubernetesEventConfig, World, get_monitor}

abbrev pub type_schedule : String
type_schedule = "schedule"

abbrev pub kubernetes_validating : String
kubernetes_validating = "kubernetesValidating"

abbrev pub kubernetes_mutating : String
kubernetes_mutating = "kubernetesMutating"

abbrev pub kubernetes_conversion : String
kubernetes_conversion = "kubernetesCustomResourceConversion"

-- A binding of another kind, seen by its name and `includeSnapshotsFrom`.
pub record IncludingBinding : Type 0 where
  pub binding_name : String
  pub include_snapshots_from : List String

-- The bindings of one hook; `has_kubernetes_controller` is false for a nil controller.
pub record HookController : Type 0 where
  pub has_kubernetes_controller : Bool
  pub kubernetes_bindings : List OnKubernetesEventConfig
  pub schedule_bindings : List IncludingBinding
  pub validating_bindings : List IncludingBinding
  pub mutating_bindings : List IncludingBinding
  pub conversion_bindings : List IncludingBinding

-- A binding context with its objects and snapshots.
pub record FullContext (R : Type 0) : Type 0 where
  pub context : BindingContext
  pub objects : Option (List R)
  pub snapshots : List (String × List R)

abbrev pub including : List IncludingBinding → String → List String
including [] name = []
including (b ∷ bs) name =
    if name == b.binding_name then b.include_snapshots_from else including bs name

abbrev pub kubernetes_including : List OnKubernetesEventConfig → String → List String
kubernetes_including [] name = []
kubernetes_including (b ∷ bs) name =
    if name == b.binding_name then b.include_snapshots_from else kubernetes_including bs name

unfoldable pub get_include_snapshots_from : HookController → String → String → List String
get_include_snapshots_from hc type name =
    if type == on_kubernetes_event
    then kubernetes_including hc.kubernetes_bindings name
    else if type == type_schedule
    then including hc.schedule_bindings name
    else if type == kubernetes_validating
    then including hc.validating_bindings name
    else if type == kubernetes_mutating
    then including hc.mutating_bindings name
    else if type == kubernetes_conversion
    then including hc.conversion_bindings name
    else []

abbrev pub include_of : {R : Type 0} → HookController → FullContext R → List String
include_of hc c = get_include_snapshots_from hc c.context.binding_type c.context.binding

abbrev pub or_empty {ℓ} : {A : Type ℓ} → Option (List A) → List A
or_empty none = []
or_empty (some xs) = xs

abbrev pub monitor_of : List OnKubernetesEventConfig → String → Option String
monitor_of [] name = none
monitor_of (b ∷ bs) name = if name == b.binding_name then some b.monitor_id else monitor_of bs name

-- `cache` of UpdateSnapshots, with the monitors and the number of calls of SnapshotsFor.
pub record Fetched (M R : Type 0) : Type 0 where
  pub world : World M
  pub cache : List (String × Option (List R))
  pub calls_made : ℕ

module _ {M R : Type 0} (calls : MonitorCalls M R) where
  abbrev monitor_snapshot : String → World M → Option (List R) × World M
  monitor_snapshot id w = elim (get_monitor calls id w) [
    | none ↦ (none, w)
    | some m ↦
        let (objects, m') = calls.snapshot m in
        (some objects, record w { monitors = insert id m' w.monitors })
  ]

  unfoldable pub snapshots_for : String → World M → Option (List R) × World M
  snapshots_for name w = elim (monitor_of w.bindings name) [
    | none ↦ (none, w)
    | some id ↦ monitor_snapshot id w
  ]

  -- `others` is what events and other hooks do to the monitors before each call of SnapshotsFor.
  module _ (others : ℕ → World M → World M) where
    unfoldable pub fetch : String → Fetched M R → Fetched M R
    unfolding snapshots_for
    fetch name f = elim (lookup name f.cache) [
      | some _ ↦ f
      | none ↦
          let (objects, w) = snapshots_for name (others f.calls_made f.world) in
          record { world = w; cache = insert name objects f.cache; calls_made = f.calls_made + 1 }
    ]

    -- `cache[bindingName]`
    abbrev pub cached : String → Fetched M R → Option (List R)
    cached name f = elim (lookup name f.cache) [ none ↦ none | some objects ↦ objects ]

    -- The loop over the names in `includeSnapshotsFrom`.
    unfoldable pub include :
        List String → List (String × List R) → Fetched M R → List (String × List R) × Fetched M R
    unfolding fetch
    include [] snapshots f = (snapshots, f)
    include (name ∷ names) snapshots f =
        let f' = fetch name f in
        include names (insert name (or_empty (cached name f')) snapshots) f'

    -- The body of the loop over the contexts.
    unfoldable pub update_context :
        HookController → FullContext R → Fetched M R → FullContext R × Fetched M R
    unfolding include fetch
    update_context hc c f =
        let (snapshots, f') = include (include_of hc c) [] f in
        let f'' = fetch c.context.binding f' in
        if context_is_synchronization c.context
        then (record c { snapshots = snapshots; objects = cached c.context.binding f'' }, f'')
        else (record c { snapshots = snapshots }, f')

    unfoldable pub update_contexts :
        HookController → List (FullContext R) → Fetched M R → List (FullContext R) × Fetched M R
    unfolding update_context
    update_contexts hc [] f = ([], f)
    update_contexts hc (c ∷ cs) f =
        let (c', f') = update_context hc c f in
        let (cs', f'') = update_contexts hc cs f' in (c' ∷ cs', f'')

    unfoldable pub update_snapshots :
        HookController → List (FullContext R) → World M → List (FullContext R) × Fetched M R
    unfolding update_contexts
    update_snapshots hc cs w =
        let f : Fetched M R = record { world = w; cache = []; calls_made = 0 } in
        if hc.has_kubernetes_controller then update_contexts hc cs f else (cs, f)
