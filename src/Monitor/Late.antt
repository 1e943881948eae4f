-- ===== src/Monitor/Late.antt =====
-- A namespace that comes while EnableKubeEventCb of pkg/kube_events_manager/monitor.go is running.
use shell_operator.Base.{
  suc, Option-cases, ap, arith, length, subst, lookup-insert_self, lookup, has_key, map, ◌≡◌, All,
  Bool, List, String, inr, inl, false, true, some, none, nat_key, string_key, refl, [], ◌∷◌,
}
use shell_operator.Monitor.{
  Monitor, Running, InformerCalls, create_informers_for_namespace, created_or_none, add_namespace,
  enable_running, start_new, created, or_all_names, set_events_enabled, enable_static,
  enable_varying, create_for_names, names,
}

module _ {I : Type 0} (on : I → Bool) (calls : InformerCalls I)
    (off : (ns n : String) (i : I) → calls.create ns n ≡ some i → on i ≡ false) where
  abbrev pub AreOff : List (Running I) → Type 0
  AreOff = All (λ r. on r.informer ≡ false)

  create_for_names-AreOff :
      (ns : String) (objects : List String) (is : List (Running I))
      → create_for_names calls ns objects ≡ some is
      → AreOff is
  unfolding create_for_names
  create_for_names-AreOff ns [] is h = let p : [] ≡ is = ground (arith, h) in subst AreOff p tt
  create_for_names-AreOff ns (n ∷ objects) is h = elim (Option-cases (calls.create ns n)) [
    | inl e ↦ absurd (ground (arith, h, e))
    | inr (i, e) ↦ elim (Option-cases (create_for_names calls ns objects)) [
      | inl q ↦ absurd (ground (arith, h, e, q))
      | inr (js, q) ↦
          let p : created i ∷ js ≡ is = ground (arith, h, e, q) in
          subst AreOff p (off ns n i e, create_for_names-AreOff ns objects js q)
    ]
  ]

  lookup-entries :
      (k : String) (f : Running I → Running I) (es : List (String × List (Running I)))
      → lookup k es ≡ none
      → has_key k (map (λ e. (e.0, map f e.1)) es) ≡ false
  lookup-entries k f [] h = refl
  lookup-entries k f ((j, v) ∷ es) h = ground (arith, lookup-entries k f es)

  length-map_running :
      (f : Running I → Running I) (is : List (Running I)) → length (map f is) ≡ length is
  length-map_running f [] = refl
  length-map_running f (r ∷ rs) = ap suc (length-map_running f rs)

  AreOff-started : (is : List (Running I)) → AreOff is → AreOff (map (start_new calls false) is)
  AreOff-started [] h = tt
  AreOff-started (r ∷ rs) h = (h.0, AreOff-started rs h.1)

  -- New informers hold their events back. If a namespace comes while EnableKubeEventCb has passed over all
  -- informers and has not set `eventsEnabled` yet, then the informers of that namespace hold their events back
  -- although the events of the monitor are enabled in the end.
  pub late_namespace-AreOff :
      (ns : String) (is : List (Running I)) (m : Monitor I)
      → m.events_enabled ≡ false
      → has_key ns m.static_namespaces ≡ false
      → lookup ns m.varying_informers ≡ none
      → create_informers_for_namespace calls ns m ≡ some is
      → let m' =
          set_events_enabled calls
            (add_namespace calls ns (enable_varying calls (enable_static calls m))) in
        (m'.events_enabled ≡ true)
        × ((late : List (Running I)) × (lookup ns m'.varying_informers ≡ some late)
            × (length late ≡ length is)
            × AreOff late)
  unfolding add_namespace enable_varying enable_static create_informers_for_namespace
  late_namespace-AreOff ns is m e s v c =
      let b = lookup-entries ns (enable_running calls) m.varying_informers v in
      let late = map (start_new calls false) is in
      (
        refl,
        (
          late,
          rw (s, b, e) (rw (c, created_or_none) (lookup-insert_self ns late _)),
          length-map_running (start_new calls false) is,
          AreOff-started is
              (create_for_names-AreOff ns (or_all_names calls (names m.selectors)) is c),
        ),
      )
