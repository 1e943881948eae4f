-- ===== src/Informer/Taken.antt =====
-- One watch event in pkg/kube_events_manager/resource_informer.go, and a client's view after it.
use shell_operator.Base.{
  ◌∙◌, if_false, sym, ◌==◌, eq_iff, Bool-cases, lookup, Option-cases, ◌≡◌, String, Option, inr, inl,
  false, some, none, nat_key, arith, refl, string_key,
}
use shell_operator.Watch.{
  WatchEventType, added, modified, deleted, ObjectAndFilterResult, Library, resource_id,
  apply_filter, apply_filter-resource_id,
}
use shell_operator.Informer.{
  MonitorConfig, take_filtered, filtered_or_cached, update_cache, ResourceInformer, Watched,
  watched_object, handle_watch_event, take_watch_event,
}
use shell_operator.Informer.Cache.{entry_after, handle_watch_event-lookup}
use shell_operator.Informer.Updates.{checksum_of, IsListening, apply_taken, update_follows}
use shell_operator.Informer.Client.{View, cache_of}

module _ {O F : Type 0} (lib : Library O F) where
  pub take_watch_event_fixed :
      (type : WatchEventType) (object : Watched O) (ei : ResourceInformer O F)
      → let ei' = (take_watch_event lib type object ei).1 in
        (ei'.monitor ≡ ei.monitor)
        × (ei'.stopped ≡ ei.stopped)
        × (ei'.event_cb_enabled ≡ ei.event_cb_enabled)
        × (ei'.has_event_cb ≡ ei.has_event_cb)
        × (ei'.event_buf ≡ ei.event_buf)
        × (ei'.emitted ≡ ei.emitted)
  unfolding take_watch_event update_cache
  take_watch_event_fixed added object ei = ground arith
  take_watch_event_fixed modified object ei = ground arith
  take_watch_event_fixed deleted object ei = ground arith

  filtered_or_cached-resource_id :
      (type : WatchEventType) (obj : O) (ei : ResourceInformer O F) (r : ObjectAndFilterResult O F)
      → IsListening ei
      → filtered_or_cached lib type obj ei ≡ some r
      → r.resource_id ≡ resource_id lib obj
  unfolding filtered_or_cached
  filtered_or_cached-resource_id type obj ei r w h =
      elim (Option-cases (apply_filter lib ei.monitor obj)) [
        | inl q ↦ elim (Option-cases (lookup (resource_id lib obj) ei.cached_objects)) [
          | inl absent ↦ ground arith
          | inr (c, l) ↦ ground (arith, w.filed (resource_id lib obj) c l)
        ]
        | inr (s, q) ↦ ground (arith, apply_filter-resource_id lib ei.monitor obj s)
      ]

  update_cache-monitor :
      (type : WatchEventType) (id : String) (r : ObjectAndFilterResult O F)
      (ei : ResourceInformer O F)
      → (update_cache type id r ei).1.monitor ≡ ei.monitor
  unfolding update_cache
  update_cache-monitor added id r ei = refl
  update_cache-monitor modified id r ei = refl
  update_cache-monitor deleted id r ei = refl

  take_watch_event-running :
      (type : WatchEventType) (object : Watched O) (ei : ResourceInformer O F)
      → ei.stopped ≡ false
      → take_watch_event lib type object ei
        ≡ take_filtered type
            (resource_id lib (watched_object object))
            (filtered_or_cached lib type (watched_object object) ei)
            ei
  unfolding take_watch_event
  take_watch_event-running type object ei s = if_false _ _ s

  -- A view that agrees with the cache on a key does so after the event is applied to both.
  pub taken_follows :
      (type : WatchEventType) (object : Watched O) (ei : ResourceInformer O F) (v : View O F)
      (k : String)
      → IsListening ei
      → checksum_of (v k) ≡ checksum_of (lookup k ei.cached_objects)
      → let (o, ei') = take_watch_event lib type object ei in
        checksum_of (apply_taken o v k) ≡ checksum_of (lookup k ei'.cached_objects)
  taken_follows type object ei v k w h =
      let obj = watched_object object in
      rw (take_watch_event-running type object ei w.running)
        (elim (Option-cases (filtered_or_cached lib type obj ei)) [
          | inl q ↦ rw q h
          | inr (r, q) ↦
              let g =
                update_follows type (resource_id lib obj) r ei v k
                  (filtered_or_cached-resource_id type obj ei r w q) h in
              elim (Bool-cases (update_cache type (resource_id lib obj) r ei).0) [
                | inl s ↦ rw (q, s) (rw s at g)
                | inr s ↦
                    rw
                      (q, s, update_cache-monitor type (resource_id lib obj) r ei, w.all_types type)
                      (rw s at g)
              ]
        ])

  entry_after-none :
      (type : WatchEventType) (m : MonitorConfig O F) (old : Option (ObjectAndFilterResult O F))
      (r : ObjectAndFilterResult O F)
      → entry_after lib m type none old ≡ some r
      → old ≡ some r
  entry_after-none added m old r h = h
  entry_after-none modified m old r h = h
  entry_after-none deleted m old r h = cc

  entry_after-some :
      (type : WatchEventType) (m : MonitorConfig O F) (old : Option (ObjectAndFilterResult O F))
      (s r : ObjectAndFilterResult O F)
      → entry_after lib m type (some s) old ≡ some r
      → r.resource_id ≡ s.resource_id
  entry_after-some added m old s r h = ground arith
  entry_after-some modified m old s r h = ground arith
  entry_after-some deleted m old s r h = cc

  pub entry-filed :
      (type : WatchEventType) (object : Watched O) (ei : ResourceInformer O F)
      → IsListening ei
      → (k : String) (r : ObjectAndFilterResult O F)
      → lookup k (handle_watch_event lib type object ei).cached_objects ≡ some r
      → r.resource_id ≡ k
  entry-filed type object ei w k r h =
      let obj = watched_object object in
      let id = resource_id lib obj in
      let g = sym (handle_watch_event-lookup lib type object ei k w.running) ∙ h in
      elim (Bool-cases (id == k)) [
        | inr q ↦ w.filed k r (rw q at g)
        | inl q ↦ elim (Option-cases (apply_filter lib ei.monitor obj)) [
          | inl f ↦
              w.filed k r (entry_after-none type ei.monitor (cache_of ei k) r (rw (q, f) at g))
          | inr (s, f) ↦
              entry_after-some type ei.monitor (cache_of ei k) s r (rw (q, f) at g)
              ∙ apply_filter-resource_id lib ei.monitor obj s f
              ∙ (eq_iff id k).0 q
        ]
      ]
