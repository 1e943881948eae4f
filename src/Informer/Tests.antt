-- ===== src/Informer/Tests.antt =====
-- Runs of an informer of pkg/kube_events_manager/resource_informer.go over pods that are pairs of a name and a text. The
-- filter fails on the text "broken".
use shell_operator.Base.{
  delete, insert, ◌==◌, if◌then◌else◌, any, lookup, List, ◌≡◌, String, false, true, some, none,
  nat_key, string_key, refl, [], ◌∷◌,
}
use shell_operator.Watch.{
  resource_id, apply_filter, WatchEventType, added, modified, deleted, ObjectAndFilterResult,
  KubeEvent, MonitorConfig, Library,
}
use shell_operator.Informer.{
  put_events, same_event_type, ResourceInformer, Watched, current, stale, new_resource_informer,
  take_watch_event, handle_watch_event, enable_kube_event_cb, pass_event, filtered_or_cached,
  update_cache, get_cached_objects,
}
use shell_operator.Informer.Client.{
  Call, watches, enables, takes_snapshot, Followed, follow, call_all, cache_of,
}
use shell_operator.Informer.Cache.{watch_all, watch_all-lookup, latest}
use shell_operator.Informer.Updates.{SameChecksums, IsListening}
use shell_operator.Informer.Follows.{IsFollowed, follow-SameChecksums}
use shell_operator.Informer.Races.{late_event-lost}

abbrev Pod : Type 0
Pod = String × String

abbrev pods : Library Pod String
pods = record {
  get_namespace = λ p. "default";
  get_kind = λ p. "Pod";
  get_name = λ p. p.0;
  marshal_object = λ p. some p.1;
  marshal_result = λ r. some r;
  text_result = λ r. r;
  calculate_checksum = λ s. s;
}

abbrev config : MonitorConfig Pod String
config = record {
  monitor_id = "m";
  kind = "Pod";
  api_version = "v1";
  event_types = added ∷ modified ∷ deleted ∷ [];
  keep_full_objects_in_memory = false;
  jq_filter = ".";
  compiled_jq_filter = some (λ p. if p.1 == "broken" then none else some p.1);
  filter_func = none;
}

abbrev informer : ResourceInformer Pod String
informer = record {
  monitor = config;
  cached_objects = [];
  total_info = record {
    objects_count = 0;
    objects_added = 0;
    objects_deleted = 0;
    objects_modified = 0;
    objects_cleaned = 0;
  };
  increment_info = record {
    objects_count = 0;
    objects_added = 0;
    objects_deleted = 0;
    objects_modified = 0;
    objects_cleaned = 0;
  };
  event_buf = [];
  has_event_cb = true;
  event_cb_enabled = false;
  stopped = false;
  emitted = [];
}

new_informer : new_resource_informer true config ≡ informer
unfolding new_resource_informer
new_informer = refl

abbrev pod : String → String → Watched Pod
pod name text = current (name, text)

abbrev seen : List (WatchEventType × Watched Pod)
seen =
    (added, pod "a" "1")
    ∷ (added, pod "b" "2")
    ∷ (modified, pod "a" "broken")
    ∷ (deleted, stale ("b", "broken"))
    ∷ []

-- The entry of a pod whose change the filter fails on stays.
watch_all-lookup_example :
    lookup "default/Pod/a" (watch_all pods seen informer).cached_objects
    ≡ latest pods config seen "default/Pod/a" none
watch_all-lookup_example = watch_all-lookup pods seen informer "default/Pod/a" refl

seen_deleted : lookup "default/Pod/b" (watch_all pods seen informer).cached_objects ≡ none
unfolding watch_all handle_watch_event update_cache filtered_or_cached apply_filter insert
    resource_id delete
seen_deleted = refl

abbrev calls : List (Call Pod)
calls =
    watches added (pod "a" "1")
    ∷ takes_snapshot
    ∷ watches added (pod "b" "2")
    ∷ watches modified (pod "a" "1")
    ∷ enables
    ∷ watches deleted (pod "a" "1")
    ∷ []

abbrev client : Followed Pod String
client = record { view = λ _. none; informer = informer }

all_types : (type : WatchEventType) → any (λ e. same_event_type e type) config.event_types ≡ true
all_types added = refl
all_types modified = refl
all_types deleted = refl

informer-IsListening : IsListening informer
informer-IsListening = record {
  running = refl;
  listening = refl;
  all_types = all_types;
  filed = λ k r h. cc;
  drained = λ q. cc;
  quiet = refl;
}

client-IsFollowed : IsFollowed pods client
client-IsFollowed = record { listens = informer-IsListening; follows = λ k. refl }

calls_enable : (follow pods calls client).informer.event_cb_enabled ≡ true
unfolding follow handle_watch_event enable_kube_event_cb get_cached_objects filtered_or_cached
    update_cache apply_filter insert resource_id put_events
calls_enable = refl

follow-SameChecksums_example :
    SameChecksums (follow pods calls client).view (cache_of (follow pods calls client).informer)
follow-SameChecksums_example = follow-SameChecksums pods calls client client-IsFollowed calls_enable

-- Two events reach the client.
calls_view : (follow pods calls client).view "default/Pod/a" ≡ none
unfolding follow handle_watch_event enable_kube_event_cb get_cached_objects filtered_or_cached
    update_cache apply_filter insert resource_id put_events
calls_view = refl

abbrev pod_added : ObjectAndFilterResult Pod String
pod_added = record {
  jq_filter = ".";
  checksum = "1";
  resource_id = "default/Pod/a";
  remove_object = true;
  object = none;
  filter_result = some "1";
}

abbrev event_added : KubeEvent Pod String
event_added = record {
  monitor_id = "m";
  event_type = "Event";
  watch_events = added ∷ [];
  objects = pod_added ∷ [];
}

abbrev informer_next : ResourceInformer Pod String
informer_next = record informer {
  cached_objects = ("default/Pod/a", pod_added) ∷ [];
  total_info = record informer.total_info { objects_count = 1; objects_added = 1 };
  increment_info = record informer.increment_info { objects_added = 1 };
}

taken_added : take_watch_event pods added (pod "a" "1") informer ≡ (some event_added, informer_next)
unfolding take_watch_event filtered_or_cached update_cache apply_filter resource_id insert
taken_added = refl

late_event-lost_example :
    let enabled = enable_kube_event_cb informer_next in
    let late = call_all pods (enables ∷ []) (pass_event false event_added enabled) in
    (late.event_buf ≡ event_added ∷ [])
    × (late.emitted ≡ (call_all pods (enables ∷ []) enabled).emitted)
late_event-lost_example =
    late_event-lost pods added (pod "a" "1") event_added informer informer_next taken_added refl
      (enables ∷ [])
