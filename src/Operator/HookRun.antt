-- ===== src/Operator/HookRun.antt =====
-- taskHandleHookRun and handleRunHook of pkg/shell-operator/operator.go. The hook's process, the parser and the executor
-- of object patches and the storage of the hook's metrics are parameters.
use Prim.Native.String.{◌++◌ as append}
use shell_operator.Base.{
  not, ◌==◌, keep, ◌&&◌, if◌then◌else◌, Bool, ℕ, List, Option, String, true, some, none, nat_key,
  [], ◌∷◌, string_key,
}
use shell_operator.Task.{
  Task, HookMetadata, hook, is_synchronization, on_kubernetes_event, type_synchronization,
  update_metadata,
}
use shell_operator.Queue.{TaskQueue, with_heap}
use shell_operator.Combine.{
  CombineResult, CombineOutcome, panics, nothing, combines, combine_binding_context_for_hook,
}

-- What a finished hook leaves in its files.
pub record HookResult : Type 0 where
  pub kubernetes_patch_bytes : String
  pub metrics : String
  pub admission_response : Option String
  pub conversion_response : Option String

-- Hook.Run answers a result, or an error, with or without a result.
pub data RunOutcome : Type 0 where
  ran : HookResult → RunOutcome
  failed : Option HookResult → String → RunOutcome

pub data Parsed (P : Type 0) : Type 0 where
  operations : List P → Parsed P
  malformed : String → Parsed P

-- An operation on Kubernetes objects, seen by GetPatchStatusOperationsOnHookError: whether it is a patch, of
-- which subresource, and whether it ignores errors of the hook.
pub record PatchOperation : Type 0 where
  pub number : ℕ
  pub is_patch : Bool
  pub subresource : String
  pub ignore_hook_error : Bool

-- The run of a hook with the binding contexts of the metadata, ParseOperations, ExecuteOperations, which answers
-- an error if one operation fails, and ApplyBatchOperations.
pub record Runner : Type 0 where
  pub run : HookMetadata → RunOutcome
  pub parse_operations : String → Parsed PatchOperation
  pub execute_operations : List PatchOperation → Option String
  pub apply_metrics : String → Option String

-- What handleRunHook has done. `executed` lists the operations given to ExecuteOperations; the responses are kept as
-- properties of the task.
pub record HookHandled : Type 0 where
  pub error : Option String
  pub executed : List PatchOperation
  pub applied : List String
  pub admission_prop : Option String
  pub conversion_prop : Option String

abbrev not_done : Option String → HookHandled
not_done error = record {
  error = error;
  executed = [];
  applied = [];
  admission_prop = none;
  conversion_prop = none;
}

unfoldable pub is_status_patch : PatchOperation → Bool
is_status_patch op = op.is_patch && (op.subresource == "/status" && op.ignore_hook_error)

abbrev pub get_patch_status_operations_on_hook_error : List PatchOperation → List PatchOperation
get_patch_status_operations_on_hook_error = keep is_status_patch

abbrev patch_error : String → String → String
patch_error err msg = append err (append ": couldn't patch status: " msg)

abbrev executed_with : List PatchOperation → Option String → HookHandled
executed_with ops error = record (not_done error) { executed = ops }

-- A hook has failed with an error: the status patches that ignore errors are still executed.
unfoldable pub after_failure : Runner → Option HookResult → String → HookHandled
unfolding is_status_patch
after_failure r none err = not_done (some err)
after_failure r (some result) err =
    if result.kubernetes_patch_bytes == ""
    then not_done (some err)
    else elim (r.parse_operations result.kubernetes_patch_bytes) [
      | malformed msg ↦ not_done (some (patch_error err msg))
      | operations ops ↦
          let status_ops = get_patch_status_operations_on_hook_error ops in
          elim (r.execute_operations status_ops) [
            | some msg ↦ executed_with status_ops (some (patch_error err msg))
            | none ↦ executed_with status_ops (some err)
          ]
    ]

-- The operations to execute after a run, or the error of the parser.
abbrev parsed_patch : Runner → HookResult → Parsed PatchOperation
parsed_patch r result =
    if result.kubernetes_patch_bytes == ""
    then operations []
    else r.parse_operations result.kubernetes_patch_bytes

-- ExecuteOperations is called only if there are bytes.
abbrev execute_patch : Runner → HookResult → List PatchOperation → Option String
execute_patch r result ops =
    if result.kubernetes_patch_bytes == "" then none else r.execute_operations ops

unfoldable pub after_run : Runner → HookResult → HookHandled
after_run r result = elim (parsed_patch r result) [
  | malformed msg ↦ not_done (some msg)
  | operations ops ↦ elim (execute_patch r result ops) [
    | some msg ↦ executed_with ops (some msg)
    | none ↦ elim (r.apply_metrics result.metrics) [
      | some msg ↦ record (executed_with ops (some msg)) { applied = result.metrics ∷ [] }
      | none ↦ record {
        error = none;
        executed = ops;
        applied = result.metrics ∷ [];
        admission_prop = result.admission_response;
        conversion_prop = result.conversion_response;
      }
    ]
  ]
]

unfoldable pub handle_run_hook : Runner → HookMetadata → HookHandled
unfolding after_failure after_run
handle_run_hook r m = elim (r.run m) [
  | failed result err ↦ after_failure r result err
  | ran result ↦ after_run r result
]

-- Version v0 hooks know no Synchronization, and a binding may be set to have none.
unfoldable pub should_run_hook : String → HookMetadata → Bool
should_run_hook version m =
    if is_synchronization m then not (version == "v0") && m.execute_on_synchronization else true

-- A Synchronization without a group stays alone. None: the first of no binding contexts is read.
unfoldable pub should_combine : HookMetadata → Option Bool
should_combine m =
    if m.binding_type == on_kubernetes_event
    then elim m.binding_context [
      | [] ↦ none
      | c ∷ cs ↦ some (not (c.event_type == type_synchronization && m.group == ""))
    ]
    else some true

abbrev pub some_or : List String → List String → List String
some_or [] old = old
some_or (x ∷ xs) old = x ∷ xs

abbrev pub combined_metadata : CombineResult → HookMetadata → HookMetadata
combined_metadata r m = record m {
  binding_context = r.binding_contexts;
  monitor_ids = some_or r.monitor_ids m.monitor_ids;
}

-- The metadata with which the hook runs, and the queue without the combined tasks.
unfoldable pub take_combined :
    HookMetadata → Task → CombineOutcome × TaskQueue → Option (HookMetadata × TaskQueue)
take_combined m t (panics, q) = none
take_combined m t (nothing, q) = some (m, q)
take_combined m t (combines r, q) =
    let m' = combined_metadata r m in some (m', with_heap (update_metadata (hook m') t) q)

unfoldable pub prepare :
    String → HookMetadata → Task → TaskQueue → Option (HookMetadata × TaskQueue)
unfolding take_combined should_combine
prepare version m t q =
    if version == "v1"
    then elim (should_combine m) [
      | none ↦ none
      | some b ↦ if b then take_combined m t (combine_binding_context_for_hook q t) else some (m, q)
    ]
    else some (m, q)
