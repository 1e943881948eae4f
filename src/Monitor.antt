-- ===== src/Monitor.antt =====
-- pkg/kube_events_manager/monitor.go: the informers of one monitor. Some are there from the start; others come and go with the
-- namespaces that a selector of labels finds. The creation of one informer, which asks the API server, is a
-- parameter, and contexts are Boolean flags.
pub mod Unlocked
pub mod Late
mod Tests
use mathlib.Core.Option
use shell_operator.Base.{
  delete, ◌++◌, has_key, ◌==◌, insert, if◌then◌else◌, map, String, Bool, List, Option, false, true,
  some, none, nat_key, arith, [], ◌∷◌, string_key,
}

-- The selectors of pkg/kube_events_manager/monitor_config.go that choose informers.
pub record NamespaceSelector : Type 0 where
  pub name_selector : Option (List String)
  pub has_label_selector : Bool

pub record Selectors : Type 0 where
  pub object_names : Option (List String)
  pub namespace_selector : Option NamespaceSelector

abbrev pub names : Selectors → List String
names s = elim s.object_names [ none ↦ [] | some ns ↦ ns ]

abbrev matched_namespaces : Option (List String) → List String
matched_namespaces none = "" ∷ []
matched_namespaces (some []) = "" ∷ []
matched_namespaces (some (n ∷ ns)) = n ∷ ns

unfoldable pub namespaces : Selectors → List String
namespaces s = elim s.namespace_selector [
  | none ↦ "" ∷ []
  | some n ↦ if n.has_label_selector then [] else matched_namespaces n.name_selector
]

-- An informer with its context: whether it has been started, and whether its context is done.
pub record Running (I : Type 0) : Type 0 where
  pub informer : I
  pub started : Bool
  pub cancelled : Bool

abbrev pub created : {I : Type 0} → I → Running I
created i = record { informer = i; started = false; cancelled = false }

pub record Monitor (I : Type 0) : Type 0 where
  pub selectors : Selectors
  pub is_empty_config : Bool
  pub resource_informers : List (Running I)
  pub has_namespace_informer : Bool
  pub varying_informers : List (String × List (Running I))
  pub static_namespaces : List (String × Bool)
  pub cancel_for_ns : List (String × Bool)
  pub events_enabled : Bool

-- What a monitor asks of an informer: newResourceInformer with createSharedInformer, for a namespace and a name of
-- objects, and enableKubeEventCb.
pub record InformerCalls (I : Type 0) : Type 0 where
  pub create : String → String → Option I
  pub enable : I → I

module _ {I : Type 0} (calls : InformerCalls I) where
  -- The first failure ends the loop.
  unfoldable pub create_for_names : String → List String → Option (List (Running I))
  create_for_names ns [] = some []
  create_for_names ns (n ∷ rest) =
      let others = create_for_names ns rest in
      elim (calls.create ns n) [ none ↦ none | some i ↦ Option.map (λ is. created i ∷ is) others ]

  abbrev pub or_all_names : List String → List String
  or_all_names [] = "" ∷ []
  or_all_names (n ∷ ns) = n ∷ ns

  unfoldable pub create_informers_for_namespace : String → Monitor I → Option (List (Running I))
  unfolding create_for_names
  create_informers_for_namespace ns m = create_for_names ns (or_all_names (names m.selectors))

  -- The loop over the namespaces of the configuration.
  unfoldable pub create_static : List String → Monitor I → Option (Monitor I)
  create_static [] m = some m
  create_static (ns ∷ rest) m =
      let m' =
        if ns == ""
        then m
        else record m { static_namespaces = insert ns true m.static_namespaces } in
      let continue = λ (is : List (Running I)).
        create_static rest (record m' { resource_informers = m'.resource_informers ++ is }) in
      elim (create_informers_for_namespace ns m') [ none ↦ none | some is ↦ continue is ]

  -- A failure is only logged, and leaves no informers.
  abbrev pub created_or_none : Option (List (Running I)) → List (Running I)
  created_or_none none = []
  created_or_none (some is) = is

  -- The loop over the namespaces that exist when the monitor is created.
  unfoldable pub create_varying : List String → Monitor I → Monitor I
  create_varying [] m = m
  create_varying (ns ∷ rest) m =
      let is = created_or_none (create_informers_for_namespace ns m) in
      create_varying rest (
        if has_key ns m.static_namespaces
        then m
        else record m { varying_informers = insert ns is m.varying_informers })

  abbrev has_labels : Selectors → Bool
  has_labels s = elim s.namespace_selector [ none ↦ false | some n ↦ n.has_label_selector ]

  -- `existing` are the namespaces that the namespace informer lists, or none if it cannot be created.
  unfoldable pub create_informers : Option (List String) → Monitor I → Option (Monitor I)
  unfolding create_static create_varying
  create_informers existing m =
      if m.is_empty_config then some m else elim (create_static (namespaces m.selectors) m) [
        | none ↦ none
        | some m' ↦
            if has_labels m'.selectors
            then elim existing [
              | none ↦ none
              | some nss ↦ some (create_varying nss (record m' { has_namespace_informer = true }))
            ]
            else some m'
      ]

  abbrev pub enable_running : Running I → Running I
  enable_running r = record r { informer = calls.enable r.informer }

  -- `withContext`, `enableKubeEventCb` and `start` on a new informer.
  abbrev start_new : Bool → Running I → Running I
  start_new enabled r = record (if enabled then enable_running r else r) {
    started = true;
    cancelled = false;
  }

  -- The callback on a namespace that is there.
  unfoldable pub add_namespace : String → Monitor I → Monitor I
  add_namespace ns m =
      if has_key ns m.static_namespaces
      then m
      else if has_key ns m.varying_informers
      then m
      else let is = created_or_none (create_informers_for_namespace ns m) in
        record m {
          varying_informers = insert ns (map (start_new m.events_enabled) is) m.varying_informers;
          cancel_for_ns = insert ns true m.cancel_for_ns;
        }

  -- The callback on a deleted namespace. Its informers are cancelled, and forgotten.
  unfoldable pub delete_namespace : String → Monitor I → Monitor I
  delete_namespace ns m =
      if has_key ns m.static_namespaces
      then m
      else if has_key ns m.cancel_for_ns
      then record m {
        varying_informers = delete ns m.varying_informers;
        cancel_for_ns = delete ns m.cancel_for_ns;
      }
      else m

  -- EnableKubeEventCb holds no lock over its three steps, so the callbacks on namespaces may come in between.
  unfoldable pub enable_static : Monitor I → Monitor I
  enable_static m = record m { resource_informers = map enable_running m.resource_informers }

  unfoldable pub enable_varying : Monitor I → Monitor I
  enable_varying m = record m {
    varying_informers = map (λ e. (e.0, map enable_running e.1)) m.varying_informers;
  }

  abbrev pub set_events_enabled : Monitor I → Monitor I
  set_events_enabled m = record m { events_enabled = true }

  -- The call without anything in between.
  unfoldable pub enable_all_events : Monitor I → Monitor I
  unfolding enable_static enable_varying
  enable_all_events m = set_events_enabled (enable_varying (enable_static m))

abbrev start_running : {I : Type 0} → Running I → Running I
start_running r = record r { started = true; cancelled = false }

unfoldable pub store_cancels :
    {I : Type 0} → List (String × List (Running I)) → List (String × Bool) → List (String × Bool)
store_cancels [] cs = cs
store_cancels (e ∷ es) cs = store_cancels es (insert e.0 true cs)

-- The namespace informer, which starts too, makes the calls of add_namespace and delete_namespace.
unfoldable pub start_monitor : {I : Type 0} → Monitor I → Monitor I
unfolding store_cancels
start_monitor m = record m {
  resource_informers = map start_running m.resource_informers;
  varying_informers = map (λ e. (e.0, map start_running e.1)) m.varying_informers;
  cancel_for_ns = store_cancels m.varying_informers m.cancel_for_ns;
}

abbrev cancel_running : {I : Type 0} → Running I → Running I
cancel_running r = record r { cancelled = true }

-- The context of the monitor is the parent of those of all informers.
unfoldable pub stop_monitor : {I : Type 0} → Monitor I → Monitor I
stop_monitor m = record m {
  resource_informers = map cancel_running m.resource_informers;
  varying_informers = map (λ e. (e.0, map cancel_running e.1)) m.varying_informers;
}
