-- ===== src/Informer.antt =====
-- pkg/kube_events_manager/resource_informer.go: the cache of one informer, and the events that it passes on.
pub mod Client
pub mod Cache
pub mod Updates
pub mod Taken
pub mod Follows
pub mod Races
mod Tests
use shell_operator.Base.{
  nat_key, string_key, arith, lookup, length, ◌==◌, ◌^◌, none, delete, insert, false, some, any,
  true, map, ◌++◌, [], ◌%◌, ◌∷◌, String, Option, if◌then◌else◌, Bool, List, ◌+◌, ℕ,
}
use mathlib.Core.Option
use shell_operator.Base.{string_key, nat_key}
use shell_operator.Watch.{
  WatchEventType, added, modified, deleted, same_event_type, type_event, ObjectAndFilterResult,
  KubeEvent, MonitorConfig, Library, remove_full_object, resource_id, apply_filter,
}

pub record CachedObjectsInfo : Type 0 where
  pub objects_count : ℕ
  pub objects_added : ℕ
  pub objects_deleted : ℕ
  pub objects_modified : ℕ
  pub objects_cleaned : ℕ

abbrev pub no_operations : CachedObjectsInfo
no_operations = record {
  objects_count = 0;
  objects_added = 0;
  objects_deleted = 0;
  objects_modified = 0;
  objects_cleaned = 0;
}

-- The counters are uint64.
abbrev pub u64 : ℕ → ℕ
u64 n = n % 2 ^ 64

unfoldable pub add_info : CachedObjectsInfo → CachedObjectsInfo → CachedObjectsInfo
add_info c i = record {
  objects_count = u64 (c.objects_count + i.objects_count);
  objects_added = u64 (c.objects_added + i.objects_added);
  objects_deleted = u64 (c.objects_deleted + i.objects_deleted);
  objects_modified = u64 (c.objects_modified + i.objects_modified);
  objects_cleaned = u64 (c.objects_cleaned + i.objects_cleaned);
}

-- `emitted` logs the calls of the event callback, oldest first. `stopped` is never set by the source.
pub record ResourceInformer (O F : Type 0) : Type 0 where
  pub monitor : MonitorConfig O F
  pub cached_objects : List (String × ObjectAndFilterResult O F)
  pub total_info : CachedObjectsInfo
  pub increment_info : CachedObjectsInfo
  pub event_buf : List (KubeEvent O F)
  pub has_event_cb : Bool
  pub event_cb_enabled : Bool
  pub stopped : Bool
  pub emitted : List (KubeEvent O F)

-- What a watch hands over: an object, or the last known state of one whose deletion was missed.
pub data Watched (O : Type 0) : Type 0 where
  current stale : O → Watched O

abbrev pub watched_object : {O : Type 0} → Watched O → O
watched_object (current obj) = obj
watched_object (stale obj) = obj

abbrev stored_info : WatchEventType → ℕ → CachedObjectsInfo → CachedObjectsInfo
stored_info added n i = record i { objects_count = n; objects_added = u64 (i.objects_added + 1) }
stored_info _ n i = record i { objects_count = n; objects_modified = u64 (i.objects_modified + 1) }

abbrev stored_increment : WatchEventType → CachedObjectsInfo → CachedObjectsInfo
stored_increment added i = record i { objects_added = u64 (i.objects_added + 1) }
stored_increment _ i = record i { objects_modified = u64 (i.objects_modified + 1) }

abbrev cleaned_info : Bool → CachedObjectsInfo → CachedObjectsInfo
cleaned_info true i = record i { objects_cleaned = u64 (i.objects_cleaned + 1) }
cleaned_info false i = i

abbrev deleted_info : CachedObjectsInfo → CachedObjectsInfo
deleted_info i = record i { objects_deleted = u64 (i.objects_deleted + 1) }

module _ {O F : Type 0} where
  unfoldable pub new_resource_informer : Bool → MonitorConfig O F → ResourceInformer O F
  new_resource_informer has_cb m = record {
    monitor = m;
    cached_objects = [];
    total_info = no_operations;
    increment_info = no_operations;
    event_buf = [];
    has_event_cb = has_cb;
    event_cb_enabled = false;
    stopped = false;
    emitted = [];
  }

  unfoldable pub put_event : KubeEvent O F → ResourceInformer O F → ResourceInformer O F
  put_event ev ei = if ei.has_event_cb then record ei { emitted = ei.emitted ++ ev ∷ [] } else ei

  -- All cached objects, as Go walks the map. Before events are passed on, the buffer starts anew.
  unfoldable pub get_cached_objects :
      (List (String × ObjectAndFilterResult O F) → List (String × ObjectAndFilterResult O F))
      → ResourceInformer O F
      → List (ObjectAndFilterResult O F) × ResourceInformer O F
  get_cached_objects range_order ei = (
    map (λ e. e.1) (range_order ei.cached_objects),
    if ei.event_cb_enabled then ei else record ei { event_buf = [] },
  )

  unfoldable pub put_events : List (KubeEvent O F) → ResourceInformer O F → ResourceInformer O F
  unfolding put_event
  put_events [] ei = ei
  put_events (ev ∷ evs) ei = put_events evs (put_event ev ei)

  unfoldable pub enable_kube_event_cb : ResourceInformer O F → ResourceInformer O F
  enable_kube_event_cb ei =
      if ei.event_cb_enabled
      then ei
      else let ei' = put_events ei.event_buf (record ei { event_cb_enabled = true }) in
        record ei' { event_buf = [] }

  abbrev pub should_fire_event : WatchEventType → ResourceInformer O F → Bool
  should_fire_event type ei = any (λ event. same_event_type event type) ei.monitor.event_types

  abbrev trimmed_result :
      ResourceInformer O F → ObjectAndFilterResult O F → ObjectAndFilterResult O F
  trimmed_result ei r = if ei.monitor.keep_full_objects_in_memory then r else remove_full_object r

  abbrev cached_result :
      WatchEventType → Option (ObjectAndFilterResult O F) → O → Option (ObjectAndFilterResult O F)
  cached_result deleted (some cached) obj = some (record cached { object = some obj })
  cached_result deleted none obj = none
  cached_result added cached obj = none
  cached_result modified cached obj = none

  -- A deleted object on which the filter fails keeps the cached result.
  unfoldable pub filtered_or_cached :
      Library O F → WatchEventType → O → ResourceInformer O F → Option (ObjectAndFilterResult O F)
  filtered_or_cached lib type obj ei = elim (apply_filter lib ei.monitor obj) [
    | some r ↦ some (trimmed_result ei r)
    | none ↦
        Option.map (trimmed_result ei)
          (cached_result type (lookup (resource_id lib obj) ei.cached_objects) obj)
  ]

  -- `objectInCache` and the comparison of checksums.
  abbrev pub same_checksum : Option (ObjectAndFilterResult O F) → ObjectAndFilterResult O F → Bool
  same_checksum none r = false
  same_checksum (some cached) r = cached.checksum == r.checksum

  -- The case of the switch for Added and Modified.
  unfoldable pub store_object :
      WatchEventType
      → String
      → ObjectAndFilterResult O F
      → ResourceInformer O F
      → ResourceInformer O F
  store_object type id r ei =
      let objects = insert id r ei.cached_objects in
      record ei {
        cached_objects = objects;
        total_info = stored_info type (u64 (length objects)) ei.total_info;
        increment_info = stored_increment type ei.increment_info;
      }

  -- The case for Deleted.
  unfoldable pub drop_object : String → ResourceInformer O F → ResourceInformer O F
  drop_object id ei =
      let objects = delete id ei.cached_objects in
      let n = u64 (length objects) in
      record ei {
        cached_objects = objects;
        total_info =
            deleted_info (cleaned_info (n == 0) (record ei.total_info { objects_count = n }));
        increment_info = deleted_info (cleaned_info (n == 0) ei.increment_info);
      }

  -- The switch: whether the event is skipped, and the informer with the new cache.
  unfoldable pub update_cache :
      WatchEventType
      → String
      → ObjectAndFilterResult O F
      → ResourceInformer O F
      → Bool × ResourceInformer O F
  unfolding store_object drop_object
  update_cache deleted id r ei = (false, drop_object id ei)
  update_cache type id r ei =
      (same_checksum (lookup id ei.cached_objects) r, store_object type id r ei)

  abbrev pub watch_event :
      ResourceInformer O F → WatchEventType → ObjectAndFilterResult O F → KubeEvent O F
  watch_event ei type r = record {
    monitor_id = ei.monitor.monitor_id;
    event_type = type_event;
    watch_events = type ∷ [];
    objects = r ∷ [];
  }

  -- The end of handleWatchEvent, with the value of eventCbEnabled that was read before.
  unfoldable pub pass_event : Bool → KubeEvent O F → ResourceInformer O F → ResourceInformer O F
  unfolding put_event
  pass_event true ev ei = put_event ev ei
  pass_event false ev ei = record ei { event_buf = ei.event_buf ++ ev ∷ [] }

  -- From the switch to the test of eventCbEnabled, with the filtered object if there is one.
  abbrev pub take_filtered :
      WatchEventType
      → String
      → Option (ObjectAndFilterResult O F)
      → ResourceInformer O F
      → Option (KubeEvent O F) × ResourceInformer O F
  take_filtered type id none ei = (none, ei)
  take_filtered type id (some r) ei =
      let (skip, ei') = update_cache type id r ei in
      if skip
      then (none, ei')
      else if should_fire_event type ei'
      then (some (watch_event ei' type r), ei')
      else (none, ei')

  -- All of handleWatchEvent up to the test of eventCbEnabled: the event to pass on, if any.
  unfoldable pub take_watch_event :
      Library O F
      → WatchEventType
      → Watched O
      → ResourceInformer O F
      → Option (KubeEvent O F) × ResourceInformer O F
  take_watch_event lib type object ei =
      let obj = watched_object object in
      if ei.stopped
      then (none, ei)
      else take_filtered type (resource_id lib obj) (filtered_or_cached lib type obj ei) ei

  abbrev pub pass_taken : Option (KubeEvent O F) × ResourceInformer O F → ResourceInformer O F
  pass_taken (none, ei) = ei
  pass_taken (some ev, ei) = pass_event ei.event_cb_enabled ev ei

  unfoldable pub handle_watch_event :
      Library O F → WatchEventType → Watched O → ResourceInformer O F → ResourceInformer O F
  unfolding take_watch_event pass_event
  handle_watch_event lib type object ei = pass_taken (take_watch_event lib type object ei)

  abbrev pub get_cached_objects_info : ResourceInformer O F → CachedObjectsInfo
  get_cached_objects_info ei = ei.total_info

  -- The operations since the last call.
  abbrev pub get_cached_objects_info_increment :
      ResourceInformer O F → CachedObjectsInfo × ResourceInformer O F
  get_cached_objects_info_increment ei =
      (ei.increment_info, record ei { increment_info = no_operations })
