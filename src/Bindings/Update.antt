-- ===== src/Bindings/Update.antt =====
-- UpdateMonitor and UnlockEvents of pkg/hook/controller/kubernetes_bindings_controller.go.
use mathlib.Core.Option
use shell_operator.Base.{
  subst, Bool-cases, ==_refl, lookup-insert_ne, eq_iff, sym, lookup-insert, lookup-insert_self,
  lookup-delete, ◌∙◌, ◌≢◌, ap, Option, insert, Option-cases, ◌++◌, ◌==◌, if◌then◌else◌, ◌≡◌, List,
  lookup, String, inr, inl, false, some, none, nat_key, arith, refl, [], ◌∷◌, string_key,
}
use shell_operator.Bindings.{
  MonitorCalls, OnKubernetesEventConfig, World, answers, errs, panics, update_monitor, unlock_all,
  unlock_events, stop_monitor, add_monitor, start_monitor, unlock_events_for, added_event, kind_of,
}

module _ {M R : Type 0} (calls : MonitorCalls M R) where
  stop_monitor-lookup :
      (id k : String) (w : World M)
      → lookup k (stop_monitor calls id w).monitors
        ≡ (if id == k then none else lookup k w.monitors)
  unfolding stop_monitor
  stop_monitor-lookup id k w = elim (Option-cases (lookup id w.monitors)) [
    | inr (m, h) ↦ rw (h, stop_monitor) (lookup-delete id k w.monitors)
    | inl h ↦ elim (Bool-cases (id == k)) [
      | inl q ↦
          let e : id ≡ k = (eq_iff id k).0 q in
          rw (q, h, stop_monitor) (subst (λ j. lookup j w.monitors ≡ none) e h)
      | inr q ↦ rw (q, h, stop_monitor) refl
    ]
  ]

  stop_monitor-same :
      (id : String) (w : World M)
      → ((stop_monitor calls id w).links ≡ w.links) × ((stop_monitor calls id w).sent ≡ w.sent)
  unfolding stop_monitor
  stop_monitor-same id w = elim (Option-cases (lookup id w.monitors)) [
    | inr (m, h) ↦ rw (h, stop_monitor) (refl, refl)
    | inl h ↦ rw (h, stop_monitor) (refl, refl)
  ]

  -- The world in which the monitor is made anew.
  abbrev before_new : String → String → String → World M → World M
  before_new id kind version w = record (stop_monitor calls id w) {
    kinds = insert id (kind, version) w.kinds;
  }

  add_monitor_by :
      (id kind version : String) (w : World M) (o : Option M)
      → kind_of id w.kinds ≡ (kind, version)
      → calls.new_monitor id kind version ≡ o
      → add_monitor calls id w ≡ Option.map (λ m. record w { monitors = insert id m w.monitors }) o
  unfolding add_monitor
  add_monitor_by id kind version w none e n =
      let f = ap (λ k. calls.new_monitor id k.0 k.1) e ∙ n in rw (f, add_monitor) refl
  add_monitor_by id kind version w (some m) e n =
      let f = ap (λ k. calls.new_monitor id k.0 k.1) e ∙ n in rw (f, add_monitor) refl

  add_monitor-new :
      (id kind version : String) (w : World M) (o : Option M)
      → calls.new_monitor id kind version ≡ o
      → add_monitor calls id (before_new id kind version w)
        ≡ Option.map
            (λ m. record (before_new id kind version w) {
              monitors = insert id m (stop_monitor calls id w).monitors;
            })
            o
  add_monitor-new id kind version w o n =
      let e : kind_of id (insert id (kind, version) w.kinds) ≡ (kind, version) =
        rw (lookup-insert_self id (kind, version) w.kinds, kind_of) refl in
      add_monitor_by id kind version (before_new id kind version w) o e n

  start_monitor-some :
      (id : String) (m : M) (w : World M)
      → lookup id w.monitors ≡ some m
      → start_monitor calls id w
        ≡ some (record w { monitors = insert id (calls.start m) w.monitors })
  unfolding start_monitor
  start_monitor-some id m w h = rw (h, start_monitor) refl

  unlock_events_for-some :
      (id : String) (m : M) (w : World M)
      → lookup id w.monitors ≡ some m
      → unlock_events_for calls id w ≡ record w { monitors = insert id (calls.enable m) w.monitors }
  unfolding unlock_events_for
  unlock_events_for-some id m w h = rw (h, unlock_events_for) refl

  -- The world after the monitor has been made anew, started and unlocked.
  abbrev recreated : String → String → String → M → World M → World M
  recreated id kind version m w =
      let w' = before_new id kind version w in
      record w' {
        monitors =
            insert id (calls.enable (calls.start m))
              (insert id (calls.start m) (insert id m w'.monitors));
        sent = w'.sent ++ added_event id ∷ [];
      }

  update_monitor-recreated :
      (id kind version : String) (c : OnKubernetesEventConfig) (m : M) (w : World M)
      → lookup id w.links ≡ some c
      → calls.new_monitor id kind version ≡ some m
      → update_monitor calls id kind version w ≡ (answers tt, recreated id kind version m w)
  unfolding update_monitor
  update_monitor-recreated id kind version c m w l n =
      let w' = before_new id kind version w in
      let ms = insert id m w'.monitors in
      let made = record w' { monitors = ms; sent = w'.sent ++ added_event id ∷ [] } in
      let started = record made { monitors = insert id (calls.start m) ms } in
      rw (l, update_monitor)
        (rw
          (
            add_monitor-new id kind version w (some m) n,
            start_monitor-some id m made (lookup-insert_self id m w'.monitors),
          )
          (ap (λ x. (answers tt, x))
            (unlock_events_for-some id (calls.start m) started
              (lookup-insert_self id (calls.start m) ms))))

  recreated-lookup :
      (id kind version k : String) (m : M) (w : World M)
      → lookup k (recreated id kind version m w).monitors
        ≡ (if id == k then some (calls.enable (calls.start m)) else lookup k w.monitors)
  recreated-lookup id kind version k m w =
      let ms = (stop_monitor calls id w).monitors in
      let ms' = insert id m ms in
      ground (
        arith,
        lookup-insert id k (calls.enable (calls.start m)) (insert id (calls.start m) ms'),
        lookup-insert id k (calls.start m) ms',
        lookup-insert id k m ms,
        stop_monitor-lookup id k w,
      )

  -- If the monitor of a linked binding can be made with the new kind and version, UpdateMonitor puts it,
  -- started and with its events passed on, in the place of the old one; it changes no other monitor and
  -- no link, and sends one Added event without objects.
  pub update_monitor-recreates :
      (id kind version : String) (c : OnKubernetesEventConfig) (m : M) (w : World M)
      → lookup id w.links ≡ some c
      → calls.new_monitor id kind version ≡ some m
      → let (r, w') = update_monitor calls id kind version w in
        (r ≡ answers tt)
        × ((k : String)
            → lookup k w'.monitors
              ≡ (if id == k then some (calls.enable (calls.start m)) else lookup k w.monitors))
        × (w'.links ≡ w.links)
        × (w'.sent ≡ w.sent ++ added_event id ∷ [])
  update_monitor-recreates id kind version c m w l n =
      let (ls, ss) = stop_monitor-same id w in
      rw (update_monitor-recreated id kind version c m w l n) (
        refl,
        λ k. recreated-lookup id kind version k m w,
        ls,
        ap (λ s. s ++ added_event id ∷ []) ss,
      )

  present_ne :
      (j id : String) (m : M) (w : World M)
      → lookup j w.monitors ≡ some m
      → lookup id w.monitors ≡ none
      → j ≢ id
  present_ne j id m w p h e = let q = sym (subst (λ k. lookup k w.monitors ≡ some m) e p) ∙ h in cc

  differ_false : (j id : String) → j ≢ id → (j == id) ≡ false
  differ_false j id n = ground (arith, eq_iff j id)

  unlock_all-missing :
      (id : String) (c : OnKubernetesEventConfig) (ls : List (String × OnKubernetesEventConfig))
      (w : World M)
      → lookup id ls ≡ some c
      → lookup id w.monitors ≡ none
      → unlock_all calls ls w ≡ panics
  unfolding unlock_all
  unlock_all-missing id c [] w l h = cc
  unlock_all-missing id c ((j, d) ∷ ls) w l h = elim (Option-cases (lookup j w.monitors)) [
    | inl q ↦ rw (q, unlock_all) refl
    | inr (m, q) ↦
        let n = present_ne j id m w q h in
        rw (q, unlock_all)
          (unlock_all-missing id c ls (record w { monitors = insert j (calls.enable m) w.monitors })
            (rw (differ_false j id n) at l)
            (lookup-insert_ne j id (calls.enable m) w.monitors n ∙ h))
  ]

  unlock_events-missing :
      (id : String) (c : OnKubernetesEventConfig) (w : World M)
      → lookup id w.links ≡ some c
      → lookup id w.monitors ≡ none
      → unlock_events calls w ≡ panics
  unfolding unlock_events
  unlock_events-missing id c w l h = unlock_all-missing id c w.links w l h

  update_monitor-refused :
      (id kind version : String) (c : OnKubernetesEventConfig) (w : World M)
      → lookup id w.links ≡ some c
      → calls.new_monitor id kind version ≡ none
      → update_monitor calls id kind version w ≡ (errs, before_new id kind version w)
  unfolding update_monitor
  update_monitor-refused id kind version c w l n =
      rw (l, update_monitor) (rw (add_monitor-new id kind version w none n) refl)

  -- If the monitor of a linked binding cannot be made with the new kind and version, UpdateMonitor answers
  -- an error, the old monitor is gone, the link stays, and the next UnlockEvents panics.
  pub update_monitor-missing :
      (id kind version : String) (c : OnKubernetesEventConfig) (w : World M)
      → lookup id w.links ≡ some c
      → calls.new_monitor id kind version ≡ none
      → let (r, w') = update_monitor calls id kind version w in
        (r ≡ errs)
        × (lookup id w'.monitors ≡ none)
        × (w'.links ≡ w.links)
        × (unlock_events calls w' ≡ panics)
  update_monitor-missing id kind version c w l n =
      let (ls, ss) = stop_monitor-same id w in
      let gone : lookup id (stop_monitor calls id w).monitors ≡ none =
        stop_monitor-lookup id id w ∙ rw (==_refl id) refl in
      rw (update_monitor-refused id kind version c w l n)
        (refl, gone, ls, unlock_events-missing id c (before_new id kind version w) (rw ls l) gone)
