-- ===== src/Monitor/Unlocked.antt =====
-- Which informers of pkg/kube_events_manager/monitor.go pass their events on.
use shell_operator.Base.{
  differ, lookup-insert_ne, subst, ◌∙◌, sym, lookup-insert_self, eq_iff, lookup, has_key, ◌==◌, map,
  Bool-cases, ◌≡◌, delete, insert, All, Bool, List, String, inr, inl, false, true, some, none,
  nat_key, string_key, refl, [], ◌∷◌,
}
use shell_operator.Monitor.{
  Monitor, Running, InformerCalls, create_informers_for_namespace, created_or_none, add_namespace,
  delete_namespace, enable_all_events, start_monitor, stop_monitor, enable_running, start_new,
}

pub data Call : Type 0 where
  adds_namespace deletes_namespace : String → Call
  enables starts stops : Call

module _ {I : Type 0} (calls : InformerCalls I) where
  abbrev pub step : Call → Monitor I → Monitor I
  step (adds_namespace ns) m = add_namespace calls ns m
  step (deletes_namespace ns) m = delete_namespace calls ns m
  step enables m = enable_all_events calls m
  step starts m = start_monitor m
  step stops m = stop_monitor m

  unfoldable pub run : List Call → Monitor I → Monitor I
  run [] m = m
  run (x ∷ xs) m = run xs (step x m)

module _ {I : Type 0} (on : I → Bool) where
  abbrev pub AreOn : List (Running I) → Type 0
  AreOn = All (λ r. on r.informer ≡ true)

  abbrev pub EntriesOn : List (String × List (Running I)) → Type 0
  EntriesOn = All (λ e. AreOn e.1)

  -- Every informer passes its events on, the static ones and those of namespaces.
  pub record IsOn (m : Monitor I) : Type 0 where
    pub static_on : AreOn m.resource_informers
    pub varying_on : EntriesOn m.varying_informers

  All-insert :
      (k : String) (is : List (Running I)) (es : List (String × List (Running I)))
      → AreOn is
      → EntriesOn es
      → EntriesOn (insert k is es)
  unfolding insert
  All-insert k is [] h hs = (h, tt)
  All-insert k is ((j, v) ∷ es) h hs = elim (Bool-cases (j == k)) [
    | inl q ↦ rw q (h, hs.1)
    | inr q ↦ rw q (hs.0, All-insert k is es h hs.1)
  ]

  All-delete :
      (k : String) (es : List (String × List (Running I))) → EntriesOn es → EntriesOn (delete k es)
  unfolding delete
  All-delete k [] hs = tt
  All-delete k ((j, v) ∷ es) hs = elim (Bool-cases (j == k)) [
    | inl q ↦ rw q (All-delete k es hs.1)
    | inr q ↦ rw q (hs.0, All-delete k es hs.1)
  ]

  -- A change that keeps informers on, of all of them.
  AreOn-map :
      (f : Running I → Running I) (is : List (Running I))
      → ((r : Running I) → on r.informer ≡ true → on (f r).informer ≡ true)
      → AreOn is
      → AreOn (map f is)
  AreOn-map f [] h hs = tt
  AreOn-map f (r ∷ rs) h hs = (h r hs.0, AreOn-map f rs h hs.1)

  EntriesOn-map :
      (f : Running I → Running I) (es : List (String × List (Running I)))
      → ((r : Running I) → on r.informer ≡ true → on (f r).informer ≡ true)
      → EntriesOn es
      → EntriesOn (map (λ e. (e.0, map f e.1)) es)
  EntriesOn-map f [] h hs = tt
  EntriesOn-map f (e ∷ es) h hs = (AreOn-map f e.1 h hs.0, EntriesOn-map f es h hs.1)

  module _ (calls : InformerCalls I) (enabled : (i : I) → on (calls.enable i) ≡ true) where
    all_on :
        (f : Running I → Running I) (is : List (Running I))
        → ((r : Running I) → on (f r).informer ≡ true)
        → AreOn (map f is)
    all_on f [] h = tt
    all_on f (r ∷ rs) h = (h r, all_on f rs h)

    entries_on :
        (es : List (String × List (Running I)))
        → EntriesOn (map (λ e. (e.0, map (enable_running calls) e.1)) es)
    entries_on [] = tt
    entries_on (e ∷ es) =
        (all_on (enable_running calls) e.1 (λ r. enabled r.informer), entries_on es)

    started_on : (b : Bool) → b ≡ true → (r : Running I) → on (start_new calls b r).informer ≡ true
    started_on true h r = enabled r.informer
    started_on false h r = cc

    step-IsOn :
        (x : Call) (m : Monitor I)
        → (m.events_enabled ≡ true → IsOn m)
        → (step calls x m).events_enabled ≡ true
        → IsOn (step calls x m)
    unfolding add_namespace delete_namespace enable_all_events start_monitor stop_monitor
    step-IsOn (adds_namespace ns) m w q = elim (Bool-cases (has_key ns m.static_namespaces)) [
      | inl s ↦ rw s (w (rw s at q))
      | inr s ↦ elim (Bool-cases (has_key ns m.varying_informers)) [
        | inl v ↦ rw (s, v) (w (rw (s, v) at q))
        | inr v ↦
            let e = rw (s, v) at q in
            let is = created_or_none calls (create_informers_for_namespace calls ns m) in
            rw (s, v)
              (record {
                static_on = (w e).static_on;
                varying_on =
                    All-insert ns (map (start_new calls m.events_enabled) is) m.varying_informers
                      (all_on (start_new calls m.events_enabled) is (started_on m.events_enabled e))
                      (w e).varying_on;
              })
      ]
    ]
    step-IsOn (deletes_namespace ns) m w q = elim (Bool-cases (has_key ns m.static_namespaces)) [
      | inl s ↦ rw s (w (rw s at q))
      | inr s ↦ elim (Bool-cases (has_key ns m.cancel_for_ns)) [
        | inr v ↦ rw (s, v) (w (rw (s, v) at q))
        | inl v ↦
            let e = rw (s, v) at q in
            rw (s, v)
              (record {
                static_on = (w e).static_on;
                varying_on = All-delete ns m.varying_informers (w e).varying_on;
              })
      ]
    ]
    step-IsOn enables m w q = record {
      static_on = all_on (enable_running calls) m.resource_informers (λ r. enabled r.informer);
      varying_on = entries_on m.varying_informers;
    }
    step-IsOn starts m w q = record {
      static_on = AreOn-map _ m.resource_informers (λ r h. h) (w q).static_on;
      varying_on = EntriesOn-map _ m.varying_informers (λ r h. h) (w q).varying_on;
    }
    step-IsOn stops m w q = record {
      static_on = AreOn-map _ m.resource_informers (λ r h. h) (w q).static_on;
      varying_on = EntriesOn-map _ m.varying_informers (λ r h. h) (w q).varying_on;
    }

    -- For informers of which enableKubeEventCb makes sure that events pass: if every informer of a monitor
    -- passes its events on once the monitor's events are enabled, then after any calls, one after the other, of
    -- EnableKubeEventCb, Start, Stop and the callbacks on added and deleted namespaces, every informer does
    -- so if events are enabled by then, those of namespaces that have come later included.
    pub run-IsOn :
        (xs : List Call) (m : Monitor I)
        → (m.events_enabled ≡ true → IsOn m)
        → (run calls xs m).events_enabled ≡ true
        → IsOn (run calls xs m)
    unfolding run
    run-IsOn [] m w q = w q
    run-IsOn (x ∷ xs) m w q = run-IsOn xs (step calls x m) (step-IsOn x m w) q

module _ {I : Type 0} where
  -- A later look at a namespace, when the creation of informers may go otherwise than before.
  unfoldable pub add_namespaces : List (InformerCalls I × String) → Monitor I → Monitor I
  add_namespaces [] m = m
  add_namespaces ((calls, ns) ∷ xs) m = add_namespaces xs (add_namespace calls ns m)

  add_namespace-kept :
      (calls : InformerCalls I) (ns k : String) (is : List (Running I)) (m : Monitor I)
      → lookup k m.varying_informers ≡ some is
      → lookup k (add_namespace calls ns m).varying_informers ≡ some is
  unfolding add_namespace
  add_namespace-kept calls ns k is m h = elim (Bool-cases (has_key ns m.static_namespaces)) [
    | inl s ↦ rw s h
    | inr s ↦ elim (Bool-cases (has_key ns m.varying_informers)) [
      | inl v ↦ rw (s, v) h
      | inr v ↦ elim (Bool-cases (ns == k)) [
        | inl q ↦
            let e : ns ≡ k = (eq_iff ns k).0 q in
            let b : has_key k m.varying_informers ≡ true = rw (h, has_key) refl in
            let f = sym b ∙ subst (λ j. has_key j m.varying_informers ≡ false) e v in cc
        | inr q ↦ rw (s, v) (lookup-insert_ne ns k _ m.varying_informers (differ ns k q) ∙ h)
      ]
    ]
  ]

  add_namespaces-kept :
      (xs : List (InformerCalls I × String)) (k : String) (is : List (Running I)) (m : Monitor I)
      → lookup k m.varying_informers ≡ some is
      → lookup k (add_namespaces xs m).varying_informers ≡ some is
  unfolding add_namespaces
  add_namespaces-kept [] k is m h = h
  add_namespaces-kept ((calls, ns) ∷ xs) k is m h =
      add_namespaces-kept xs k is (add_namespace calls ns m) (add_namespace-kept calls ns k is m h)

  add_namespace-failed :
      (calls : InformerCalls I) (ns : String) (m : Monitor I)
      → has_key ns m.static_namespaces ≡ false
      → lookup ns m.varying_informers ≡ none
      → create_informers_for_namespace calls ns m ≡ none
      → lookup ns (add_namespace calls ns m).varying_informers ≡ some []
  unfolding add_namespace
  add_namespace-failed calls ns m s v c =
      let b : has_key ns m.varying_informers ≡ false = rw (v, has_key) refl in
      rw (s, b, c) (lookup-insert_self ns [] m.varying_informers)

  -- If the informers of a new namespace cannot be created, then the namespace is taken to have no
  -- informers, and stays so however often it is added, also when informers could be created by then.
  pub failed_namespace-kept :
      (calls : InformerCalls I) (ns : String) (m : Monitor I) (xs : List (InformerCalls I × String))
      → has_key ns m.static_namespaces ≡ false
      → lookup ns m.varying_informers ≡ none
      → create_informers_for_namespace calls ns m ≡ none
      → lookup ns (add_namespaces xs (add_namespace calls ns m)).varying_informers ≡ some []
  failed_namespace-kept calls ns m xs s v c =
      add_namespaces-kept xs ns [] (add_namespace calls ns m)
        (add_namespace-failed calls ns m s v c)
