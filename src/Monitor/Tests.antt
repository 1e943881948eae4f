-- ===== src/Monitor/Tests.antt =====
-- Runs of a monitor of pkg/kube_events_manager/monitor.go, over informers that are flags: whether they pass events on.
use shell_operator.Base.{
  String, arith, delete, ◌==◌, insert, if◌then◌else◌, length, lookup, map, ◌≡◌, List, Bool, false,
  true, some, none, nat_key, string_key, refl, [], ◌∷◌,
}
use shell_operator.Monitor.{
  Running, created, set_events_enabled, enable_varying, enable_static, create_for_names, Monitor,
  InformerCalls, create_informers_for_namespace, add_namespace, delete_namespace, enable_all_events,
  start_monitor,
}
use shell_operator.Monitor.Late.{AreOff, late_namespace-AreOff}
use shell_operator.Monitor.Unlocked.{
  Call, adds_namespace, deletes_namespace, enables, starts, run, IsOn, run-IsOn, add_namespaces,
  failed_namespace-kept,
}

-- Informers of the namespace "forbidden" cannot be created.
abbrev flags : InformerCalls Bool
flags = record {
  create = λ ns n. if ns == "forbidden" then none else some false;
  enable = λ _. true;
}

abbrev labelled : Monitor Bool
labelled = record {
  selectors = record {
    object_names = some ("a" ∷ "b" ∷ []);
    namespace_selector = some (record { name_selector = none; has_label_selector = true });
  };
  is_empty_config = false;
  resource_informers = [];
  has_namespace_informer = false;
  varying_informers = [];
  static_namespaces = [];
  cancel_for_ns = [];
  events_enabled = false;
}

abbrev flag : Bool → Bool
flag b = b

enabled : (i : Bool) → flag (flags.enable i) ≡ true
enabled i = refl

abbrev calls : List Call
calls = adds_namespace "x" ∷ starts ∷ enables ∷ adds_namespace "y" ∷ deletes_namespace "x" ∷ []

calls_enable : (run flags calls labelled).events_enabled ≡ true
unfolding run add_namespace delete_namespace enable_all_events enable_static enable_varying
    start_monitor insert
calls_enable = refl

run-IsOn_example : IsOn flag (run flags calls labelled)
run-IsOn_example = run-IsOn flag flags enabled calls labelled (λ q. cc) calls_enable

-- The later namespace has two informers, one for each name.
calls_informers : map (λ e. length e.1) (run flags calls labelled).varying_informers ≡ 2 ∷ []
unfolding run add_namespace delete_namespace enable_all_events enable_static enable_varying
    start_monitor insert delete create_informers_for_namespace
calls_informers = refl

-- Informers can be created anywhere.
abbrev all_flags : InformerCalls Bool
all_flags = record { create = λ ns n. some false; enable = λ _. true }

forbidden : create_informers_for_namespace flags "forbidden" labelled ≡ none
unfolding create_informers_for_namespace
forbidden = refl

failed_namespace-kept_example :
    let m =
      add_namespaces ((all_flags, "forbidden") ∷ []) (add_namespace flags "forbidden" labelled) in
    lookup "forbidden" m.varying_informers ≡ some []
failed_namespace-kept_example =
    failed_namespace-kept flags "forbidden" labelled ((all_flags, "forbidden") ∷ []) refl refl
      forbidden

new_flags : (ns n : String) (i : Bool) → all_flags.create ns n ≡ some i → flag i ≡ false
new_flags ns n i h = ground (arith, h)

abbrev two_flags : List (Running Bool)
two_flags = created false ∷ created false ∷ []

late_namespace-AreOff_example :
    let m' =
      set_events_enabled all_flags (
        add_namespace all_flags "x"
          (enable_varying all_flags (enable_static all_flags labelled))) in
    (m'.events_enabled ≡ true)
    × ((late : List (Running Bool)) × (lookup "x" m'.varying_informers ≡ some late)
        × (length late ≡ 2)
        × AreOff flag all_flags new_flags late)
unfolding create_informers_for_namespace create_for_names
late_namespace-AreOff_example =
    late_namespace-AreOff flag all_flags new_flags "x" two_flags labelled refl refl refl refl
