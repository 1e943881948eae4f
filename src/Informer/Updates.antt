-- ===== src/Informer/Updates.antt =====
-- One update of the cache of pkg/kube_events_manager/resource_informer.go, and the same on a client's view.
use mathlib.Core.List.{append_assoc, append-nil}
use shell_operator.Base.{
  differ, lookup-delete_ne, subst, lookup-insert_ne, lookup-delete_self, ◌==◌, if◌then◌else◌, ◌≢◌,
  lookup-insert_self, eq_iff, Bool-cases, List, lookup, ◌++◌, ◌≡◌, String, Option, inr, inl, false,
  true, some, none, nat_key, arith, [], ◌∷◌, string_key,
}
use shell_operator.Watch.{
  WatchEventType, added, modified, deleted, ObjectAndFilterResult, KubeEvent,
}
use shell_operator.Informer.{
  update_cache, same_checksum, ResourceInformer, put_events, should_fire_event,
}
use shell_operator.Informer.Client.{apply_object, View, apply_event}

module _ {O F : Type 0} where
  -- What a client can compare: the checksum of an object's filter result.
  abbrev pub checksum_of : Option (ObjectAndFilterResult O F) → Option String
  checksum_of none = none
  checksum_of (some r) = some r.checksum

  abbrev pub SameChecksums : View O F → View O F → Type 0
  SameChecksums v w = (k : String) → checksum_of (v k) ≡ checksum_of (w k)

  -- The informer runs with a callback, and its monitor asks for all types of events.
  pub record IsListening (ei : ResourceInformer O F) : Type 0 where
    pub running : ei.stopped ≡ false
    pub listening : ei.has_event_cb ≡ true
    pub all_types : (type : WatchEventType) → should_fire_event type ei ≡ true
    pub filed :
        (k : String) (r : ObjectAndFilterResult O F)
        → lookup k ei.cached_objects ≡ some r
        → r.resource_id ≡ k
    pub drained : ei.event_cb_enabled ≡ true → ei.event_buf ≡ []
    pub quiet : ei.emitted ≡ []

  abbrev pub apply_taken : Option (KubeEvent O F) → View O F → View O F
  apply_taken none v = v
  apply_taken (some ev) v = apply_event ev v

  pub put_events-emitted :
      (evs : List (KubeEvent O F)) (ei : ResourceInformer O F)
      → ei.has_event_cb ≡ true
      → put_events evs ei ≡ record ei { emitted = ei.emitted ++ evs }
  unfolding put_events
  put_events-emitted [] ei h = ground (arith, append-nil ei.emitted)
  put_events-emitted (ev ∷ evs) ei h = ground (
    arith,
    put_events-emitted evs (record ei { emitted = ei.emitted ++ ev ∷ [] }),
    append_assoc ei.emitted (ev ∷ []) evs,
  )

  same_checksum_lem :
      (o : Option (ObjectAndFilterResult O F)) (r : ObjectAndFilterResult O F)
      → same_checksum o r ≡ true
      → checksum_of o ≡ some r.checksum
  same_checksum_lem none r h = cc
  same_checksum_lem (some c) r h = ground (arith, eq_iff c.checksum r.checksum)

  -- A view that agrees with the cache on a key does so after both have been updated.
  abbrev pub Updated :
      WatchEventType
      → String
      → ObjectAndFilterResult O F
      → ResourceInformer O F
      → View O F
      → String
      → Type 0
  Updated type id r ei v k =
      checksum_of (v k) ≡ checksum_of (lookup k ei.cached_objects)
      → let (skip, ei') = update_cache type id r ei in
        checksum_of ((if skip then v else apply_object type r v) k)
        ≡ checksum_of (lookup k ei'.cached_objects)

  update_follows_same :
      (type : WatchEventType) (id : String) (r : ObjectAndFilterResult O F)
      (ei : ResourceInformer O F) (v : View O F)
      → r.resource_id ≡ id
      → Updated type id r ei v id
  unfolding update_cache
  update_follows_same added id r ei v e h = ground (
    arith,
    lookup-insert_self id r ei.cached_objects,
    eq_iff r.resource_id id,
    same_checksum_lem (lookup id ei.cached_objects) r,
  )
  update_follows_same modified id r ei v e h = ground (
    arith,
    lookup-insert_self id r ei.cached_objects,
    eq_iff r.resource_id id,
    same_checksum_lem (lookup id ei.cached_objects) r,
  )
  update_follows_same deleted id r ei v e h =
      ground (arith, lookup-delete_self id ei.cached_objects, eq_iff r.resource_id id)

  update_follows_other :
      (type : WatchEventType) (id : String) (r : ObjectAndFilterResult O F)
      (ei : ResourceInformer O F) (v : View O F) (k : String)
      → r.resource_id ≡ id
      → id ≢ k
      → Updated type id r ei v k
  unfolding update_cache
  update_follows_other added id r ei v k e n h =
      ground (arith, lookup-insert_ne id k r ei.cached_objects, eq_iff r.resource_id k)
  update_follows_other modified id r ei v k e n h =
      ground (arith, lookup-insert_ne id k r ei.cached_objects, eq_iff r.resource_id k)
  update_follows_other deleted id r ei v k e n h =
      ground (arith, lookup-delete_ne id k ei.cached_objects, eq_iff r.resource_id k)

  pub update_follows :
      (type : WatchEventType) (id : String) (r : ObjectAndFilterResult O F)
      (ei : ResourceInformer O F) (v : View O F) (k : String)
      → r.resource_id ≡ id
      → Updated type id r ei v k
  update_follows type id r ei v k e = elim (Bool-cases (id == k)) [
    | inl q ↦
        subst (Updated type id r ei v) ((eq_iff id k).0 q) (update_follows_same type id r ei v e)
    | inr q ↦ update_follows_other type id r ei v k e (differ id k q)
  ]
