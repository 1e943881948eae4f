-- ===== src/Informer/Client.antt =====
-- A client of an informer of pkg/kube_events_manager/resource_informer.go: it takes snapshots, handles the events that are
-- passed to it, and so keeps a view of the objects.
use shell_operator.Base.{
  nat_key, refl, some, ◌≡◌, none, ◌++◌, ◌==◌, ◌∷◌, Option, if◌then◌else◌, [], List, lookup, String,
  string_key,
}
use shell_operator.Watch.{
  WatchEventType, added, modified, deleted, ObjectAndFilterResult, KubeEvent, Library,
}
use shell_operator.Informer.{
  ResourceInformer, Watched, get_cached_objects, enable_kube_event_cb, handle_watch_event,
}

abbrev pub View : Type 0 → Type 0 → Type 0
View O F = String → Option (ObjectAndFilterResult O F)

pub data Call (O : Type 0) : Type 0 where
  watches : WatchEventType → Watched O → Call O
  enables takes_snapshot : Call O

module _ {O F : Type 0} where
  abbrev pub cache_of : ResourceInformer O F → View O F
  cache_of ei k = lookup k ei.cached_objects

  abbrev pub apply_object : WatchEventType → ObjectAndFilterResult O F → View O F → View O F
  apply_object deleted r v k = if r.resource_id == k then none else v k
  apply_object added r v k = if r.resource_id == k then some r else v k
  apply_object modified r v k = if r.resource_id == k then some r else v k

  abbrev pub apply_objects :
      List WatchEventType → List (ObjectAndFilterResult O F) → View O F → View O F
  apply_objects (t ∷ ts) (r ∷ rs) v = apply_objects ts rs (apply_object t r v)
  apply_objects _ _ v = v

  abbrev pub apply_event : KubeEvent O F → View O F → View O F
  apply_event ev = apply_objects ev.watch_events ev.objects

  -- The view after events, in their order.
  abbrev pub replay : List (KubeEvent O F) → View O F → View O F
  replay [] v = v
  replay (ev ∷ evs) v = replay evs (apply_event ev v)

  pub replay-append :
      (es : List (KubeEvent O F)) (ev : KubeEvent O F) (v : View O F)
      → replay (es ++ ev ∷ []) v ≡ apply_event ev (replay es v)
  replay-append [] ev v = refl
  replay-append (e ∷ es) ev v = replay-append es ev (apply_event e v)

-- The client with its informer. The events that a call emits are handled before the next call.
pub record Followed (O F : Type 0) : Type 0 where
  pub view : View O F
  pub informer : ResourceInformer O F

module _ {O F : Type 0} (lib : Library O F) where
  abbrev pub called : Call O → ResourceInformer O F → ResourceInformer O F
  called (watches type object) ei = handle_watch_event lib type object ei
  called enables ei = enable_kube_event_cb ei
  called takes_snapshot ei = (get_cached_objects (λ m. m) ei).1

  -- A snapshot replaces the view.
  abbrev pub looked_at : Call O → Followed O F → View O F
  looked_at takes_snapshot c = cache_of c.informer
  looked_at _ c = c.view

  abbrev pub follow_one : Call O → Followed O F → Followed O F
  follow_one call c =
      let ei = called call c.informer in
      record { view = replay ei.emitted (looked_at call c); informer = record ei { emitted = [] } }

  unfoldable pub follow : List (Call O) → Followed O F → Followed O F
  follow [] c = c
  follow (call ∷ calls) c = follow calls (follow_one call c)

  unfoldable pub call_all : List (Call O) → ResourceInformer O F → ResourceInformer O F
  call_all [] ei = ei
  call_all (call ∷ calls) ei = call_all calls (called call ei)
