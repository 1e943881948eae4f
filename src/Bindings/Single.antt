-- ===== src/Bindings/Single.antt =====
-- What EnableKubernetesBindings of pkg/hook/controller/kubernetes_bindings_controller.go does for one binding.
use shell_operator.Base.{
  Option, differ, subst, eq_iff, ◌∙◌, Bool-cases, lookup-insert_ne, ◌≢◌, lookup-insert_self, ◌⊎◌,
  ◌&&◌, ◌==◌, map, String, has_key, insert, ◌≡◌, lookup, any, List, inr, inl, false, true, some,
  none, nat_key, arith, refl, [], ◌∷◌, string_key,
}
use shell_operator.Bindings.{
  BindingContext, WatchEventType, convert_kube_event_to_binding_context, MonitorCalls,
  OnKubernetesEventConfig, World, answers, info_of, kind_of, synchronization_of, has_monitor,
  enable_binding, BindingExecutionInfo,
}

abbrev pub Configs : Type 0
Configs = List OnKubernetesEventConfig

-- Every binding has a monitor of its own.
abbrev pub AreDistinct : Configs → Type 0
AreDistinct [] = Unit
AreDistinct (c ∷ cs) = (any (λ d. d.monitor_id == c.monitor_id) cs ≡ false) × AreDistinct cs

-- A link that is there already is one to the binding itself.
abbrev pub IsLinkedOrNot :
    List (String × OnKubernetesEventConfig) → OnKubernetesEventConfig → Type 0
IsLinkedOrNot links c = (lookup c.monitor_id links ≡ none) ⊎ (lookup c.monitor_id links ≡ some c)

-- The context that a binding is to show for a type of events, and for a watch event if there is one.
abbrev pub shown_context : String → Option WatchEventType → OnKubernetesEventConfig → BindingContext
shown_context type watch_event c = record {
  version = "";
  binding_type = "kubernetes";
  include_snapshots = c.include_snapshots_from;
  group = c.group;
  binding = c.binding_name;
  event_type = type;
  watch_event = watch_event;
  from_version = "";
  to_version = "";
}

-- One Synchronization, with the settings of the binding.
abbrev pub synchronization_info : OnKubernetesEventConfig → BindingExecutionInfo
synchronization_info c = record {
  binding_context = shown_context "Synchronization" none c ∷ [];
  include_snapshots = c.include_snapshots_from;
  allow_failure = c.allow_failure;
  queue_name = c.queue;
  binding = c.binding_name;
  group = c.group;
  kubernetes_binding = some c;
}

abbrev pub synchronization_infos : Configs → List BindingExecutionInfo
synchronization_infos = map synchronization_info

pub info_of-synchronization :
    (id : String) (c : OnKubernetesEventConfig)
    → info_of (synchronization_of id) c ≡ synchronization_info c
unfolding convert_kube_event_to_binding_context
info_of-synchronization id c = refl

module _ {M R : Type 0} (calls : MonitorCalls M R) where
  abbrev pub CanCreate : List (String × (String × String)) → OnKubernetesEventConfig → Type 0
  CanCreate kinds c =
      (m : M) × (calls.new_monitor c.monitor_id (kind_of c.monitor_id kinds).0
          (kind_of c.monitor_id kinds).1
        ≡ some m)

  -- The binding has a link and a monitor.
  abbrev pub IsLive : World M → OnKubernetesEventConfig → Type 0
  IsLive w c = (lookup c.monitor_id w.links ≡ some c) × (has_monitor calls c.monitor_id w ≡ true)

  pub enable_binding-live :
      (c : OnKubernetesEventConfig) (w : World M)
      → IsLive w c
      → enable_binding calls c w ≡ answers w
  unfolding enable_binding
  enable_binding-live c w (l, h) =
      let b : has_key c.monitor_id w.links ≡ true = rw (l, has_key) refl in rw (b, h) refl

  -- The world after a monitor has been made for a binding.
  abbrev made : OnKubernetesEventConfig → M → World M → World M
  made c m w = record w {
    monitors = insert c.monitor_id (calls.start m) (insert c.monitor_id m w.monitors);
    links = insert c.monitor_id c w.links;
  }

  enable_binding-made :
      (c : OnKubernetesEventConfig) (w : World M) (m : M)
      → (has_key c.monitor_id w.links && has_monitor calls c.monitor_id w) ≡ false
      → calls.new_monitor c.monitor_id
          (kind_of c.monitor_id w.kinds).0
          (kind_of c.monitor_id w.kinds).1
        ≡ some m
      → enable_binding calls c w ≡ answers (made c m w)
  unfolding enable_binding
  enable_binding-made c w m q e = rw (q, e, lookup-insert_self c.monitor_id m w.monitors) refl

  -- What enabling one binding does: the others' links and monitors stay, and so do the live ones.
  pub record IsEnabled (c : OnKubernetesEventConfig) (w w' : World M) : Type 0 where
    pub enables : enable_binding calls c w ≡ answers w'
    pub live : IsLive w' c
    pub kinds_same : w'.kinds ≡ w.kinds
    pub bindings_same : w'.bindings ≡ w.bindings
    pub links_same : (k : String) → c.monitor_id ≢ k → lookup k w'.links ≡ lookup k w.links
    pub monitors_same : (k : String) → c.monitor_id ≢ k → lookup k w'.monitors ≡ lookup k w.monitors
    pub live_same :
        (k : String)
        → has_key k w.links ≡ true
        → has_monitor calls k w ≡ true
        → lookup k w'.monitors ≡ lookup k w.monitors

  pub has_key-some {ℓ} :
      {V : Type ℓ} (k : String) (v : V) (m : List (String × V))
      → lookup k m ≡ some v
      → has_key k m ≡ true
  has_key-some k v m h = rw (h, has_key) refl

  -- A link that is there is one to the binding.
  linked_self :
      (c : OnKubernetesEventConfig) (links : List (String × OnKubernetesEventConfig))
      → IsLinkedOrNot links c
      → has_key c.monitor_id links ≡ true
      → lookup c.monitor_id links ≡ some c
  linked_self c links (inl h) q = let b = rw (h, has_key) at q in cc
  linked_self c links (inr h) q = h

  made-IsEnabled :
      (c : OnKubernetesEventConfig) (w : World M) (m : M)
      → (has_key c.monitor_id w.links && has_monitor calls c.monitor_id w) ≡ false
      → calls.new_monitor c.monitor_id
          (kind_of c.monitor_id w.kinds).0
          (kind_of c.monitor_id w.kinds).1
        ≡ some m
      → IsEnabled c w (made c m w)
  made-IsEnabled c w m q e =
      let ms = insert c.monitor_id m w.monitors in
      record {
        enables = enable_binding-made c w m q e;
        live = (
          lookup-insert_self c.monitor_id c w.links,
          has_key-some c.monitor_id (calls.start m) (insert c.monitor_id (calls.start m) ms)
              (lookup-insert_self c.monitor_id (calls.start m) ms),
        );
        kinds_same = refl;
        bindings_same = refl;
        links_same = λ k n. lookup-insert_ne c.monitor_id k c w.links n;
        monitors_same = λ k n.
            lookup-insert_ne c.monitor_id k (calls.start m) ms n
            ∙ lookup-insert_ne c.monitor_id k m w.monitors n;
        live_same = λ k l h. elim (Bool-cases (c.monitor_id == k)) [
          | inl p ↦
              let s : c.monitor_id ≡ k = (eq_iff c.monitor_id k).0 p in
              let x = subst (λ j. (has_key j w.links && has_monitor calls j w) ≡ false) s q in
              let y = rw (l, h) at x in cc
          | inr p ↦
              let n = differ c.monitor_id k p in
              lookup-insert_ne c.monitor_id k (calls.start m) ms n
              ∙ lookup-insert_ne c.monitor_id k m w.monitors n
        ];
      }

  pub enable_binding-IsEnabled :
      (c : OnKubernetesEventConfig) (w : World M)
      → IsLinkedOrNot w.links c
      → CanCreate w.kinds c
      → (w' : World M) × IsEnabled c w w'
  enable_binding-IsEnabled c w l (m, e) =
      elim (Bool-cases (has_key c.monitor_id w.links && has_monitor calls c.monitor_id w)) [
        | inr q ↦ (made c m w, made-IsEnabled c w m q e)
        | inl q ↦
            let a : has_key c.monitor_id w.links ≡ true = ground arith in
            let h : has_monitor calls c.monitor_id w ≡ true = ground arith in
            let live : IsLive w c = (linked_self c w.links l a, h) in
            (
              w,
              record {
                enables = enable_binding-live c w live;
                live = live;
                kinds_same = refl;
                bindings_same = refl;
                links_same = λ k n. refl;
                monitors_same = λ k n. refl;
                live_same = λ k l h. refl;
              },
            )
      ]
