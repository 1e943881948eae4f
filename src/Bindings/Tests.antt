-- ===== src/Bindings/Tests.antt =====
-- Runs of the controller of kubernetes bindings, pkg/hook/controller/kubernetes_bindings_controller.go. A monitor is its kind, and
-- whether it has been started and passes its events on.
use shell_operator.Base.{
  insert, ◌==◌, has_key, if◌then◌else◌, lookup, All, Bool, ◌≡◌, String, inr, false, true, some,
  none, nat_key, string_key, refl, [], ◌∷◌,
}
use shell_operator.Bindings.{
  MonitorCalls, OnKubernetesEventConfig, World, answers, errs, panics, enable_kubernetes_bindings,
  update_monitor, unlock_events,
}
use shell_operator.Bindings.Single.{IsLive, synchronization_infos}
use shell_operator.Bindings.Enable.{enable_kubernetes_bindings-answers}
use shell_operator.Bindings.Update.{update_monitor-missing}

abbrev Watcher : Type 0
Watcher = String × Bool × Bool

abbrev watchers : MonitorCalls Watcher String
watchers = record {
  new_monitor = λ id kind version. if kind == "Unknown" then none else some (kind, false, false);
  start = λ m. (m.0, true, m.2);
  stop = λ m. (m.0, false, m.2);
  enable = λ m. (m.0, m.1, true);
  snapshot = λ m. ([], m);
}

abbrev binding_to : String → String → OnKubernetesEventConfig
binding_to name id = record {
  binding_name = name;
  allow_failure = false;
  monitor_id = id;
  include_snapshots_from = [];
  queue = "main";
  group = "";
  execute_hook_on_synchronization = true;
}

-- The first binding has a link, and its monitor is gone; the second is live.
abbrev world : World Watcher
world = record {
  monitors = ("m2", ("Node", true, true)) ∷ [];
  stopped = [];
  sent = [];
  kinds = ("m1", ("Pod", "v1")) ∷ ("m2", ("Node", "v1")) ∷ [];
  bindings = binding_to "pods" "m1" ∷ binding_to "nodes" "m2" ∷ [];
  links = ("m1", binding_to "pods" "m1") ∷ ("m2", binding_to "nodes" "m2") ∷ [];
}

enable_kubernetes_bindings-answers_example :
    let (r, w') = enable_kubernetes_bindings watchers world in
    (r ≡ answers (synchronization_infos world.bindings))
    × All (IsLive watchers w') world.bindings
    × ((k : String)
        → has_key k world.links ≡ true
        → has_key k world.monitors ≡ true
        → lookup k w'.monitors ≡ lookup k world.monitors)
    × (enable_kubernetes_bindings watchers w' ≡ (r, w'))
enable_kubernetes_bindings-answers_example =
    enable_kubernetes_bindings-answers watchers world (refl, (refl, tt)) (inr refl, (inr refl, tt))
      (((("Pod", false, false)), refl), (((("Node", false, false)), refl), tt))

enabled_monitors :
    (enable_kubernetes_bindings watchers world).1.monitors
    ≡ ("m2", ("Node", true, true)) ∷ ("m1", ("Pod", true, false)) ∷ []
unfolding enable_kubernetes_bindings insert
enabled_monitors = refl

update_monitor-missing_example :
    let (r, w') = update_monitor watchers "m2" "Unknown" "v2" world in
    (r ≡ errs)
    × (lookup "m2" w'.monitors ≡ none)
    × (w'.links ≡ world.links)
    × (unlock_events watchers w' ≡ panics)
update_monitor-missing_example =
    update_monitor-missing watchers "m2" "Unknown" "v2" (binding_to "nodes" "m2") world refl refl
