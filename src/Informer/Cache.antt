-- ===== src/Informer/Cache.antt =====
-- What the cache of an informer holds after watch events: pkg/kube_events_manager/resource_informer.go.
use shell_operator.Base.{
  ap, ◌∙◌, Option-cases, inr, inl, nat_key, refl, [], ◌∷◌, lookup-delete, lookup-insert, ◌==◌,
  if◌then◌else◌, lookup, some, false, arith, none, String, ◌≡◌, Option, List, string_key,
}
use shell_operator.Watch.{
  WatchEventType, added, modified, deleted, ObjectAndFilterResult, MonitorConfig, Library,
  apply_filter, resource_id, remove_full_object,
}
use shell_operator.Informer.{
  ResourceInformer, Watched, watched_object, handle_watch_event, filtered_or_cached, update_cache,
}

module _ {O F : Type 0} (lib : Library O F) where
  unfoldable pub watch_all :
      List (WatchEventType × Watched O) → ResourceInformer O F → ResourceInformer O F
  watch_all [] ei = ei
  watch_all ((type, object) ∷ es) ei = watch_all es (handle_watch_event lib type object ei)

  -- What one event makes of the entry of its object: a deletion ends it, and an object on which the filter
  -- fails leaves it.
  abbrev pub entry_after :
      MonitorConfig O F
      → WatchEventType
      → Option (ObjectAndFilterResult O F)
      → Option (ObjectAndFilterResult O F)
      → Option (ObjectAndFilterResult O F)
  entry_after m deleted filtered old = none
  entry_after m _ none old = old
  entry_after m _ (some r) old =
      some (if m.keep_full_objects_in_memory then r else remove_full_object r)

  -- The entry of one key, by the events about it alone.
  abbrev pub latest :
      MonitorConfig O F
      → List (WatchEventType × Watched O)
      → String
      → Option (ObjectAndFilterResult O F)
      → Option (ObjectAndFilterResult O F)
  latest m [] k r = r
  latest m ((type, object) ∷ es) k r =
      let obj = watched_object object in
      latest m es k
        (if resource_id lib obj == k then entry_after m type (apply_filter lib m obj) r else r)

  -- The parts that no watch event changes.
  pub handle_watch_event_fixed :
      (type : WatchEventType) (object : Watched O) (ei : ResourceInformer O F)
      → let ei' = handle_watch_event lib type object ei in
        (ei'.monitor ≡ ei.monitor)
        × (ei'.stopped ≡ ei.stopped)
        × (ei'.event_cb_enabled ≡ ei.event_cb_enabled)
        × (ei'.has_event_cb ≡ ei.has_event_cb)
  unfolding handle_watch_event update_cache filtered_or_cached
  handle_watch_event_fixed added object ei = ground arith
  handle_watch_event_fixed modified object ei = ground arith
  handle_watch_event_fixed deleted object ei = ground arith

  abbrev trimmed : MonitorConfig O F → ObjectAndFilterResult O F → ObjectAndFilterResult O F
  trimmed m r = if m.keep_full_objects_in_memory then r else remove_full_object r

  stored-lookup :
      (type : WatchEventType) (object : Watched O) (ei : ResourceInformer O F) (k : String)
      (r : ObjectAndFilterResult O F)
      → ei.stopped ≡ false
      → apply_filter lib ei.monitor (watched_object object) ≡ some r
      → lookup k (handle_watch_event lib type object ei).cached_objects ≡ (
          if resource_id lib (watched_object object) == k
          then entry_after ei.monitor type (some r) (lookup k ei.cached_objects)
          else lookup k ei.cached_objects)
  unfolding handle_watch_event update_cache filtered_or_cached
  stored-lookup added object ei k r s f = ground (
    arith,
    lookup-insert (resource_id lib (watched_object object)) k (trimmed ei.monitor r)
        ei.cached_objects,
  )
  stored-lookup modified object ei k r s f = ground (
    arith,
    lookup-insert (resource_id lib (watched_object object)) k (trimmed ei.monitor r)
        ei.cached_objects,
  )
  stored-lookup deleted object ei k r s f =
      ground (arith, lookup-delete (resource_id lib (watched_object object)) k ei.cached_objects)

  refused-lookup :
      (type : WatchEventType) (object : Watched O) (ei : ResourceInformer O F) (k : String)
      → ei.stopped ≡ false
      → apply_filter lib ei.monitor (watched_object object) ≡ none
      → lookup k (handle_watch_event lib type object ei).cached_objects ≡ (
          if resource_id lib (watched_object object) == k
          then entry_after ei.monitor type none (lookup k ei.cached_objects)
          else lookup k ei.cached_objects)
  unfolding handle_watch_event update_cache filtered_or_cached
  refused-lookup added object ei k s f = ground arith
  refused-lookup modified object ei k s f = ground arith
  refused-lookup deleted object ei k s f = ground (
    arith,
    string_key.same_iff (resource_id lib (watched_object object)) k,
    lookup-delete (resource_id lib (watched_object object)) k ei.cached_objects,
  )

  -- The entry of a key after one event.
  pub handle_watch_event-lookup :
      (type : WatchEventType) (object : Watched O) (ei : ResourceInformer O F) (k : String)
      → ei.stopped ≡ false
      → lookup k (handle_watch_event lib type object ei).cached_objects ≡ (
          if resource_id lib (watched_object object) == k
          then entry_after ei.monitor type
              (apply_filter lib ei.monitor (watched_object object))
              (lookup k ei.cached_objects)
          else lookup k ei.cached_objects)
  handle_watch_event-lookup type object ei k s =
      elim (Option-cases (apply_filter lib ei.monitor (watched_object object))) [
        | inl f ↦ rw f (refused-lookup type object ei k s f)
        | inr (r, f) ↦ rw f (stored-lookup type object ei k r s f)
      ]

  -- For an informer that is not stopped, after any watch events: the entry of each key is what the
  -- events about that key alone make of it. A deletion ends the entry, also if the filter fails on the
  -- object or only its last known state is handed over; an addition or a change puts the result of the
  -- filter there, without the object unless full objects are kept; and a failing filter leaves it.
  pub watch_all-lookup :
      (es : List (WatchEventType × Watched O)) (ei : ResourceInformer O F) (k : String)
      → ei.stopped ≡ false
      → lookup k (watch_all es ei).cached_objects
        ≡ latest ei.monitor es k (lookup k ei.cached_objects)
  unfolding watch_all
  watch_all-lookup [] ei k s = refl
  watch_all-lookup ((type, object) ∷ es) ei k s =
      let ei' = handle_watch_event lib type object ei in
      let (same_monitor, same_stopped, _, _) = handle_watch_event_fixed type object ei in
      watch_all-lookup es ei' k (same_stopped ∙ s)
      ∙ ap (λ m. latest m es k (lookup k ei'.cached_objects)) same_monitor
      ∙ ap (latest ei.monitor es k) (handle_watch_event-lookup type object ei k s)
