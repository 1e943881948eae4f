-- ===== src/Snapshots/Consistent.antt =====
-- The snapshots that UpdateSnapshots of pkg/hook/controller/hook_controller.go gives to the contexts of one run of a hook.
use shell_operator.Base.{
  ◌==◌, any, Bool, if◌then◌else◌, sym, ap, subst, Bool-cases, ◌∙◌, List, ◌≡◌, ℕ, String, inr, inl,
  false, true, some, nat_key, string_key, refl, [], ◌∷◌,
}
use shell_operator.Task.{context_is_synchronization}
use shell_operator.Bindings.{MonitorCalls, World}
use shell_operator.Snapshots.{
  HookController, FullContext, Fetched, fetch, include, include_of, update_context, update_contexts,
  update_snapshots,
}
use shell_operator.Snapshots.Cache.{
  IsGrown, IsGrown_refl, IsGrown_trans, IsRead, start-IsRead, fetch-IsRead, fetch-IsGrown,
  fetch-lookup, cached-some,
}
use shell_operator.Snapshots.Included.{
  get_include_snapshots_from-table, included_names, IsShown, AreShown, IsShown-grown,
  include-IsRead, include-IsGrown, include-others, include-HasRead,
}

module _ {M R : Type 0} (calls : MonitorCalls M R) (others : ℕ → World M → World M) where
  -- The context is shown as it should be, its names have been read, and what had been read before stays.
  record IsStep (w : World M) (hc : HookController) (c : FullContext R) (f : Fetched M R)
      (r : FullContext R × Fetched M R) : Type 0 where
    shown : IsShown hc r.1.cache c r.0
    grown : IsGrown f.cache r.1.cache
    read : IsRead calls others w f → IsRead calls others w r.1

  same_names :
      (hc : HookController) (c : FullContext R) (k : String) (b : Bool)
      → any (λ n. n == k) (included_names hc c) ≡ b
      → any (λ n. n == k) (include_of hc c) ≡ b
  same_names hc c k b e =
      ap (λ names. any (λ n. n == k) names)
        (get_include_snapshots_from-table hc c.context.binding_type c.context.binding)
      ∙ e

  abbrev included_by :
      HookController → FullContext R → Fetched M R → List (String × List R) × Fetched M R
  included_by hc c f = include calls others (include_of hc c) [] f

  IsStep-synchronization :
      (w : World M) (hc : HookController) (c : FullContext R) (f : Fetched M R)
      → context_is_synchronization c.context ≡ true
      → IsStep w hc c f (update_context calls others hc c f)
  unfolding update_context
  IsStep-synchronization w hc c f e =
      let r = included_by hc c f in
      let b = c.context.binding in
      let names = include_of hc c in
      let g = fetch-IsGrown calls others b r.1 in
      let (o, l) = fetch-lookup calls others b r.1 in
      rw (e, update_context)
        (record {
          shown = record {
            same_context = refl;
            included = λ k i.
                let (v, m, s) =
                  include-HasRead calls others names [] f k (same_names hc c k true i) in
                (v, g k v m, s);
            not_included =
                λ k i. include-others calls others names [] f k (same_names hc c k false i);
            synchronization_objects =
                λ q. l ∙ ap some (sym (cached-some calls others b (fetch calls others b r.1) o l));
            other_objects = λ q. cc;
          };
          grown =
              IsGrown_trans f.cache r.1.cache (fetch calls others b r.1).cache
                (include-IsGrown calls others names [] f) g;
          read =
              λ h. fetch-IsRead calls others w b r.1 (include-IsRead calls others w names [] f h);
        })

  IsStep-other :
      (w : World M) (hc : HookController) (c : FullContext R) (f : Fetched M R)
      → context_is_synchronization c.context ≡ false
      → IsStep w hc c f (update_context calls others hc c f)
  unfolding update_context
  IsStep-other w hc c f e =
      let names = include_of hc c in
      rw (e, update_context)
        (record {
          shown = record {
            same_context = refl;
            included = λ k i. include-HasRead calls others names [] f k (same_names hc c k true i);
            not_included =
                λ k i. include-others calls others names [] f k (same_names hc c k false i);
            synchronization_objects = λ q. cc;
            other_objects = λ q. refl;
          };
          grown = include-IsGrown calls others names [] f;
          read = λ h. include-IsRead calls others w names [] f h;
        })

  update_context-IsStep :
      (w : World M) (hc : HookController) (c : FullContext R) (f : Fetched M R)
      → IsStep w hc c f (update_context calls others hc c f)
  update_context-IsStep w hc c f = elim (Bool-cases (context_is_synchronization c.context)) [
    | inl e ↦ IsStep-synchronization w hc c f e
    | inr e ↦ IsStep-other w hc c f e
  ]

  update_contexts-AreShown :
      (w : World M) (hc : HookController) (cs : List (FullContext R)) (f : Fetched M R)
      → IsRead calls others w f
      → let r = update_contexts calls others hc cs f in
        AreShown hc r.1.cache cs r.0 × IsGrown f.cache r.1.cache × IsRead calls others w r.1
  unfolding update_contexts
  update_contexts-AreShown w hc [] f h = (tt, IsGrown_refl f.cache, h)
  update_contexts-AreShown w hc (c ∷ cs) f h =
      let r = update_context calls others hc c f in
      let s = update_context-IsStep w hc c f in
      let (a, g, d) = update_contexts-AreShown w hc cs r.1 (s.read h) in
      let last = (update_contexts calls others hc cs r.1).1 in
      (
        (IsShown-grown hc r.1.cache last.cache c r.0 g s.shown, a),
        IsGrown_trans f.cache r.1.cache last.cache s.grown g,
        d,
      )

  -- UpdateSnapshots with a controller of kubernetes bindings, whatever happens to the monitors between its
  -- calls of SnapshotsFor: the answer has the given contexts in their order. Each holds a snapshot for exactly the
  -- names that the first binding of its type and name includes, and a Synchronization holds the objects
  -- of its own binding; all of them are taken from one map of names, so that contexts which show a name
  -- show the same objects for it. Each name of the map was read once, and the map and the monitors are what reading
  -- these names in their order gives, each from the monitors as they are then: the snapshot of the monitor of the first
  -- binding with that name, and none if there is no such binding or monitor.
  pub update_snapshots-AreShown :
      (hc : HookController) (cs : List (FullContext R)) (w : World M)
      → hc.has_kubernetes_controller ≡ true
      → let (cs', f) = update_snapshots calls others hc cs w in
        AreShown hc f.cache cs cs' × IsRead calls others w f
  unfolding update_snapshots
  update_snapshots-AreShown hc cs w h =
      let start : Fetched M R = record { world = w; cache = []; calls_made = 0 } in
      let (a, _, d) = update_contexts-AreShown w hc cs start (start-IsRead calls others w) in
      subst
        (λ b.
          let r = if b then update_contexts calls others hc cs start else (cs, start) in
          AreShown hc r.1.cache cs r.0 × IsRead calls others w r.1)
        (sym h) (a, d)
