-- ===== src/Bindings/Enable.antt =====
-- EnableKubernetesBindings of pkg/hook/controller/kubernetes_bindings_controller.go, from any state of links and monitors.
use shell_operator.Base.{
  ap, sym, differ, subst, eq_iff, ◌∙◌, All, Bool-cases, ◌⊎◌, ◌==◌, String, has_key, ◌≡◌, lookup,
  any, List, inr, inl, false, true, some, none, nat_key, arith, refl, [], ◌∷◌, string_key,
}
use shell_operator.Bindings.{
  with_info, MonitorCalls, OnKubernetesEventConfig, World, Outcome, answers, has_monitor,
  enable_binding, enable_loop, enable_kubernetes_bindings, handle_event, BindingExecutionInfo,
}
use shell_operator.Bindings.Single.{
  Configs, AreDistinct, IsLinkedOrNot, synchronization_infos, synchronization_info,
  info_of-synchronization, CanCreate, IsLive, IsEnabled, has_key-some, enable_binding-live,
  enable_binding-IsEnabled,
}

module _ {M R : Type 0} (calls : MonitorCalls M R) where
  enable_loop-step :
      (c : OnKubernetesEventConfig) (cs : Configs) (w w' : World M)
      → enable_binding calls c w ≡ answers w'
      → lookup c.monitor_id w'.links ≡ some c
      → enable_loop calls (c ∷ cs) w
        ≡ with_info calls (synchronization_info c) (enable_loop calls cs w')
  unfolding enable_loop
  enable_loop-step c cs w w' e l =
      rw (e, enable_loop)
        (rw (l, handle_event)
          (ap (λ x. with_info calls x (enable_loop calls cs w'))
            (info_of-synchronization c.monitor_id c)))

  -- Where every binding is live, nothing happens.
  enable_loop-live :
      (cs : Configs) (w : World M)
      → All (IsLive calls w) cs
      → enable_loop calls cs w ≡ (answers (synchronization_infos cs), w)
  unfolding enable_loop
  enable_loop-live [] w h = refl
  enable_loop-live (c ∷ cs) w h =
      enable_loop-step c cs w w (enable_binding-live calls c w h.0) h.0.0
      ∙ rw (enable_loop-live cs w h.1) refl

  -- What the loop does, for the bindings that are left.
  record IsAllEnabled (cs : Configs) (w : World M) : Type 0 where
    bindings_same : (enable_loop calls cs w).1.bindings ≡ w.bindings
    infos : (enable_loop calls cs w).0 ≡ answers (synchronization_infos cs)
    live : All (IsLive calls (enable_loop calls cs w).1) cs
    others_same :
        (k : String)
        → any (λ d. d.monitor_id == k) cs ≡ false
        → (lookup k (enable_loop calls cs w).1.links ≡ lookup k w.links)
          × (lookup k (enable_loop calls cs w).1.monitors ≡ lookup k w.monitors)
    live_same :
        (k : String)
        → has_key k w.links ≡ true
        → has_monitor calls k w ≡ true
        → lookup k (enable_loop calls cs w).1.monitors ≡ lookup k w.monitors

  with_info-answers :
      (info : BindingExecutionInfo) (r : Outcome (List BindingExecutionInfo) × World M)
      (infos : List BindingExecutionInfo)
      → r.0 ≡ answers infos
      → with_info calls info r ≡ (answers (info ∷ infos), r.1)
  with_info-answers info (o, w) infos h = rw h refl

  has_key-same {ℓ} :
      {V : Type ℓ} (k : String) (m m' : List (String × V))
      → lookup k m ≡ lookup k m'
      → has_key k m ≡ has_key k m'
  has_key-same k m m' h = rw (h, has_key) refl

  others_same-cons :
      (c : OnKubernetesEventConfig) (cs : Configs) (w w' : World M) (k : String)
      → any (λ d. d.monitor_id == k) (c ∷ cs) ≡ false
      → IsEnabled calls c w w'
      → IsAllEnabled cs w'
      → (lookup k (enable_loop calls cs w').1.links ≡ lookup k w.links)
        × (lookup k (enable_loop calls cs w').1.monitors ≡ lookup k w.monitors)
  others_same-cons c cs w w' k a e ih =
      let n = differ c.monitor_id k (ground arith) in
      let (ls, ms) = ih.others_same k (ground arith) in
      (ls ∙ e.links_same k n, ms ∙ e.monitors_same k n)

  linked_after :
      (c : OnKubernetesEventConfig) (w w' : World M) (k : String)
      → has_key k w.links ≡ true
      → IsEnabled calls c w w'
      → has_key k w'.links ≡ true
  linked_after c w w' k l e = elim (Bool-cases (c.monitor_id == k)) [
    | inl p ↦
        let s : c.monitor_id ≡ k = (eq_iff c.monitor_id k).0 p in
        subst (λ j. has_key j w'.links ≡ true) s
          (has_key-some calls c.monitor_id c w'.links e.live.0)
    | inr p ↦ has_key-same k w'.links w.links (e.links_same k (differ c.monitor_id k p)) ∙ l
  ]

  IsLinkedOrNot-kept :
      (c : OnKubernetesEventConfig) (cs : Configs) (w w' : World M)
      → any (λ d. d.monitor_id == c.monitor_id) cs ≡ false
      → IsEnabled calls c w w'
      → All (IsLinkedOrNot w.links) cs
      → All (IsLinkedOrNot w'.links) cs
  IsLinkedOrNot-kept c [] w w' d e h = tt
  IsLinkedOrNot-kept c (x ∷ xs) w w' d e h =
      let n = differ x.monitor_id c.monitor_id (ground arith) in
      let s = e.links_same x.monitor_id (λ p. n (sym p)) in
      (
        subst (λ o. (o ≡ none) ⊎ (o ≡ some x)) (sym s) h.0,
        IsLinkedOrNot-kept c xs w w' (ground arith) e h.1,
      )

  IsAllEnabled-cons :
      (c : OnKubernetesEventConfig) (cs : Configs) (w w' : World M)
      → any (λ d. d.monitor_id == c.monitor_id) cs ≡ false
      → IsEnabled calls c w w'
      → IsAllEnabled cs w'
      → IsAllEnabled (c ∷ cs) w
  IsAllEnabled-cons c cs w w' d e ih =
      let r = enable_loop calls cs w' in
      let q =
        enable_loop-step c cs w w' e.enables e.live.0
        ∙ with_info-answers (synchronization_info c) r (synchronization_infos cs) ih.infos in
      let same = ih.others_same c.monitor_id d in
      let last : IsLive calls r.1 c =
        (same.0 ∙ e.live.0, has_key-same c.monitor_id r.1.monitors w'.monitors same.1 ∙ e.live.1) in
      record {
        bindings_same = ap (λ x. x.1.bindings) q ∙ ih.bindings_same ∙ e.bindings_same;
        infos = ap (λ x. x.0) q;
        live = subst (λ x. All (IsLive calls x.1) (c ∷ cs)) (sym q) (last, ih.live);
        others_same = λ k a. rw q (others_same-cons c cs w w' k a e ih);
        live_same = λ k l h. rw q (
            ih.live_same k (linked_after c w w' k l e)
              (has_key-same k w'.monitors w.monitors (e.live_same k l h) ∙ h)
            ∙ e.live_same k l h);
      }

  all_enabled :
      (cs : Configs) (w : World M)
      → AreDistinct cs
      → All (IsLinkedOrNot w.links) cs
      → All (CanCreate calls w.kinds) cs
      → IsAllEnabled cs w
  unfolding enable_loop
  all_enabled [] w d l n = record {
    bindings_same = refl;
    infos = refl;
    live = tt;
    others_same = λ k q. (refl, refl);
    live_same = λ k q r. refl;
  }
  all_enabled (c ∷ cs) w d l n =
      let (w', e) = enable_binding-IsEnabled calls c w l.0 n.0 in
      IsAllEnabled-cons c cs w w' d.0 e (
        all_enabled cs w' d.1 (IsLinkedOrNot-kept c cs w w' d.0 e l.1)
          (subst (λ x. All (CanCreate calls x) cs) (sym e.kinds_same) n.1))

  -- From any links and monitors, as after a failed enable, after disabling or when monitors have been
  -- stopped elsewhere: if every binding has a monitor id of its own, no other binding's link under it, and
  -- a monitor that can be created, then EnableKubernetesBindings answers one Synchronization for each
  -- binding, in their order and with the binding's settings. Each binding then has a link and a
  -- monitor, a monitor with a link is left as it was, and a second call answers the same and changes nothing.
  pub enable_kubernetes_bindings-answers :
      (w : World M)
      → AreDistinct w.bindings
      → All (IsLinkedOrNot w.links) w.bindings
      → All (CanCreate calls w.kinds) w.bindings
      → let (r, w') = enable_kubernetes_bindings calls w in
        (r ≡ answers (synchronization_infos w.bindings))
        × All (IsLive calls w') w.bindings
        × ((k : String)
            → has_key k w.links ≡ true
            → has_monitor calls k w ≡ true
            → lookup k w'.monitors ≡ lookup k w.monitors)
        × (enable_kubernetes_bindings calls w' ≡ (r, w'))
  unfolding enable_kubernetes_bindings
  enable_kubernetes_bindings-answers w d l n =
      let e = all_enabled w.bindings w d l n in
      let w' = (enable_loop calls w.bindings w).1 in
      (
        e.infos,
        e.live,
        e.live_same,
        ap (λ x. enable_loop calls x w') e.bindings_same
            ∙ enable_loop-live w.bindings w' e.live
            ∙ ap (λ x. (x, w')) (sym e.infos),
      )
