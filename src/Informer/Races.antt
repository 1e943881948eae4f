-- ===== src/Informer/Races.antt =====
-- handleWatchEvent of pkg/kube_events_manager/resource_informer.go tests eventCbEnabled and then stores the event, each under the
-- lock, but in two steps: enableKubeEventCb may run in between.
use shell_operator.Base.{
  sym, ◌∙◌, ap, ◌≡◌, List, false, true, some, nat_key, string_key, arith, refl, [], ◌∷◌,
}
use shell_operator.Watch.{WatchEventType, added, modified, deleted, KubeEvent, Library}
use shell_operator.Informer.{
  put_event, ResourceInformer, Watched, handle_watch_event, take_watch_event, pass_event,
  enable_kube_event_cb, get_cached_objects, put_events, filtered_or_cached, update_cache,
}
use shell_operator.Informer.Client.{Call, watches, enables, takes_snapshot, called, call_all}
use shell_operator.Informer.Taken.{take_watch_event_fixed}

module _ {O F : Type 0} (lib : Library O F) where
  abbrev with_buf : List (KubeEvent O F) → ResourceInformer O F → ResourceInformer O F
  with_buf b ei = record ei { event_buf = b }

  -- Once events are passed on, no call reads the buffer.
  called-with_buf :
      (call : Call O) (b : List (KubeEvent O F)) (ei : ResourceInformer O F)
      → ei.event_cb_enabled ≡ true
      → called lib call (with_buf b ei) ≡ with_buf b (called lib call ei)
  unfolding handle_watch_event enable_kube_event_cb get_cached_objects filtered_or_cached
      update_cache
  called-with_buf (watches added object) b ei q = ground arith
  called-with_buf (watches modified object) b ei q = ground arith
  called-with_buf (watches deleted object) b ei q = ground arith
  called-with_buf enables b ei q = ground arith
  called-with_buf takes_snapshot b ei q = ground arith

  called_enabled :
      (call : Call O) (ei : ResourceInformer O F)
      → ei.event_cb_enabled ≡ true
      → (called lib call ei).event_cb_enabled ≡ true
  unfolding handle_watch_event enable_kube_event_cb get_cached_objects filtered_or_cached
      update_cache
  called_enabled (watches added object) ei q = ground arith
  called_enabled (watches modified object) ei q = ground arith
  called_enabled (watches deleted object) ei q = ground arith
  called_enabled enables ei q = ground arith
  called_enabled takes_snapshot ei q = ground arith

  call_all-with_buf :
      (calls : List (Call O)) (b : List (KubeEvent O F)) (ei : ResourceInformer O F)
      → ei.event_cb_enabled ≡ true
      → call_all lib calls (with_buf b ei) ≡ with_buf b (call_all lib calls ei)
  unfolding call_all
  call_all-with_buf [] b ei q = refl
  call_all-with_buf (call ∷ calls) b ei q =
      ap (call_all lib calls) (called-with_buf call b ei q)
      ∙ call_all-with_buf calls b (called lib call ei) (called_enabled call ei q)

  put_event_enabled :
      (ev : KubeEvent O F) (ei : ResourceInformer O F)
      → (put_event ev ei).event_cb_enabled ≡ ei.event_cb_enabled
  unfolding put_event
  put_event_enabled ev ei = ground arith

  stored_last :
      (ev : KubeEvent O F) (ei : ResourceInformer O F)
      → ei.event_buf ≡ []
      → pass_event false ev ei ≡ with_buf (ev ∷ []) ei
  unfolding pass_event
  stored_last ev ei h = rw h refl

  put_events_enabled :
      (evs : List (KubeEvent O F)) (ei : ResourceInformer O F)
      → (put_events evs ei).event_cb_enabled ≡ ei.event_cb_enabled
  unfolding put_events
  put_events_enabled [] ei = refl
  put_events_enabled (ev ∷ evs) ei =
      put_events_enabled evs (put_event ev ei) ∙ put_event_enabled ev ei

  enable_kube_event_cb-state :
      (ei : ResourceInformer O F)
      → ei.event_cb_enabled ≡ false
      → let ei' = enable_kube_event_cb ei in (ei'.event_cb_enabled ≡ true) × (with_buf [] ei' ≡ ei')
  unfolding enable_kube_event_cb
  enable_kube_event_cb-state ei q =
      ground (arith, put_events_enabled ei.event_buf (record ei { event_cb_enabled = true }))

  -- If a watch event yields an event to pass on, handleWatchEvent finds that events are held back, and
  -- enableKubeEventCb runs before the event is stored, then after any further calls the event still
  -- stands in the buffer, and what has been passed on is what would have been had it not happened.
  pub late_event-lost :
      (type : WatchEventType) (object : Watched O) (ev : KubeEvent O F)
      (ei next : ResourceInformer O F)
      → take_watch_event lib type object ei ≡ (some ev, next)
      → ei.event_cb_enabled ≡ false
      → (calls : List (Call O))
      → let enabled = enable_kube_event_cb next in
        let late = call_all lib calls (pass_event next.event_cb_enabled ev enabled) in
        (late.event_buf ≡ ev ∷ []) × (late.emitted ≡ (call_all lib calls enabled).emitted)
  late_event-lost type object ev ei next h q calls =
      let (_, _, same, _, _, _) = take_watch_event_fixed lib type object ei in
      let off : next.event_cb_enabled ≡ false = sym (ap (λ x. x.1.event_cb_enabled) h) ∙ same ∙ q in
      let enabled = enable_kube_event_cb next in
      let (on, empty) = enable_kube_event_cb-state next off in
      let stored : pass_event next.event_cb_enabled ev enabled ≡ with_buf (ev ∷ []) enabled =
        ap (λ b. pass_event b ev enabled) off
        ∙ stored_last ev enabled (ap (λ x. x.event_buf) (sym empty)) in
      let e = ap (call_all lib calls) stored ∙ call_all-with_buf calls (ev ∷ []) enabled on in
      (ap (λ x. x.event_buf) e, ap (λ x. x.emitted) e)
