-- ===== src/Snapshots/Tests.antt =====
-- Contexts of one run of a hook that get their snapshots, pkg/hook/controller/hook_controller.go. A monitor is the list of
-- its objects, and a new object comes before each read.
use shell_operator.Base.{
  insert, Option, ◌≡◌, map, String, ℕ, List, false, true, some, none, nat_key, string_key, refl, [],
  ◌∷◌,
}
use shell_operator.Task.{context_is_synchronization, on_kubernetes_event, type_synchronization}
use shell_operator.Bindings.{MonitorCalls, OnKubernetesEventConfig, World}
use shell_operator.Snapshots.{
  get_include_snapshots_from, HookController, FullContext, type_schedule, update_snapshots,
}
use shell_operator.Snapshots.Cache.{IsRead}
use shell_operator.Snapshots.Included.{AreShown}
use shell_operator.Snapshots.Consistent.{update_snapshots-AreShown}

abbrev objects_only : MonitorCalls (List ℕ) ℕ
objects_only = record {
  new_monitor = λ id kind version. none;
  start = λ m. m;
  stop = λ m. m;
  enable = λ m. m;
  snapshot = λ m. (m, m);
}

abbrev pods_binding : OnKubernetesEventConfig
pods_binding = record {
  binding_name = "pods";
  allow_failure = false;
  monitor_id = "m1";
  include_snapshots_from = "pods" ∷ "nodes" ∷ [];
  queue = "main";
  group = "";
  execute_hook_on_synchronization = true;
}

abbrev pods_hook : HookController
pods_hook = record {
  has_kubernetes_controller = true;
  kubernetes_bindings = pods_binding ∷ [];
  schedule_bindings = record { binding_name = "hourly"; include_snapshots_from = "pods" ∷ [] } ∷ [];
  validating_bindings = [];
  mutating_bindings = [];
  conversion_bindings = [];
}

abbrev pods_world : World (List ℕ)
pods_world = record {
  monitors = ("m1", 7 ∷ []) ∷ [];
  stopped = [];
  sent = [];
  kinds = [];
  bindings = pods_binding ∷ [];
  links = [];
}

abbrev one_more : ℕ → World (List ℕ) → World (List ℕ)
one_more n w = record w { monitors = map (λ e. (e.0, n ∷ e.1)) w.monitors }

abbrev context_for : String → String → String → FullContext ℕ
context_for type binding event = record {
  context = record {
    version = "v1";
    binding_type = type;
    include_snapshots = [];
    group = "";
    binding = binding;
    event_type = event;
    watch_event = none;
    from_version = "";
    to_version = "";
  };
  objects = none;
  snapshots = [];
}

abbrev two_contexts : List (FullContext ℕ)
two_contexts =
    context_for type_schedule "hourly" ""
    ∷ context_for on_kubernetes_event "pods" type_synchronization
    ∷ []

update_snapshots-AreShown_example :
    let (cs', f) = update_snapshots objects_only one_more pods_hook two_contexts pods_world in
    AreShown pods_hook f.cache two_contexts cs' × IsRead objects_only one_more pods_world f
update_snapshots-AreShown_example =
    update_snapshots-AreShown objects_only one_more pods_hook two_contexts pods_world refl

abbrev shown : FullContext ℕ → Option (List ℕ) × List (String × List ℕ)
shown c = (c.objects, c.snapshots)

-- The second context shows the pods as they were for the first, and nothing for a binding that is not there.
shown_pods :
    map shown (update_snapshots objects_only one_more pods_hook two_contexts pods_world).0
    ≡ (none, ("pods", 0 ∷ 7 ∷ []) ∷ [])
      ∷ (some (0 ∷ 7 ∷ []), ("pods", 0 ∷ 7 ∷ []) ∷ ("nodes", []) ∷ [])
      ∷ []
unfolding update_snapshots context_is_synchronization get_include_snapshots_from insert
shown_pods = refl
