-- ===== src/Watch.antt =====
-- The values that Kubernetes informers work on: pkg/kube_events_manager/types/types.go, monitor_config.go, filter.go and
-- util.go of pkg/kube_events_manager. The objects of the API server, their JSON text, the jq programs and the hash
-- are taken from outside.
use shell_operator.Base.{arith, false, some, List, true, ◌≡◌, none, Option, Bool}
use Prim.Native.String.{String, ◌++◌ as append}

pub data WatchEventType : Type 0 where
  added modified deleted : WatchEventType

abbrev pub same_event_type : WatchEventType → WatchEventType → Bool
same_event_type added added = true
same_event_type modified modified = true
same_event_type deleted deleted = true
same_event_type _ _ = false

abbrev pub type_event : String
type_event = "Event"

-- A result of a filter over an object, with the fields of its Metadata.
pub record ObjectAndFilterResult (O F : Type 0) : Type 0 where
  pub jq_filter : String
  pub checksum : String
  pub resource_id : String
  pub remove_object : Bool
  pub object : Option O
  pub filter_result : Option F

-- `KubeEvent`, whose `Type` is one of two texts.
pub record KubeEvent (O F : Type 0) : Type 0 where
  pub monitor_id : String
  pub event_type : String
  pub watch_events : List WatchEventType
  pub objects : List (ObjectAndFilterResult O F)

-- The fields of a monitor's configuration that its informers read. A filter answers none for an error.
pub record MonitorConfig (O F : Type 0) : Type 0 where
  pub monitor_id : String
  pub kind : String
  pub api_version : String
  pub event_types : List WatchEventType
  pub keep_full_objects_in_memory : Bool
  pub jq_filter : String
  pub compiled_jq_filter : Option (O → Option String)
  pub filter_func : Option (O → Option F)

-- The getters of an object, json.Marshal, a text as a result, and the checksum of bytes.
pub record Library (O F : Type 0) : Type 0 where
  pub get_namespace : O → String
  pub get_kind : O → String
  pub get_name : O → String
  pub marshal_object : O → Option String
  pub marshal_result : F → Option String
  pub text_result : String → F
  pub calculate_checksum : String → String

infixl 5 ◌>>=◌
abbrev ◌>>=◌ {ℓ κ} : {A : Type ℓ} {B : Type κ} → Option A → (A → Option B) → Option B
none >>= f = none
some a >>= f = f a

module _ {O F : Type 0} where
  abbrev pub remove_full_object : ObjectAndFilterResult O F → ObjectAndFilterResult O F
  remove_full_object r = record r { object = none; remove_object = true }

  unfoldable pub resource_id : Library O F → O → String
  resource_id lib obj =
      append (lib.get_namespace obj)
        (append "/" (append (lib.get_kind obj) (append "/" (lib.get_name obj))))

  abbrev filter_result_of :
      Library O F → MonitorConfig O F → O → Option F → String → ObjectAndFilterResult O F
  filter_result_of lib m obj result bytes = record {
    jq_filter = m.jq_filter;
    checksum = lib.calculate_checksum bytes;
    resource_id = resource_id lib obj;
    remove_object = false;
    object = some obj;
    filter_result = result;
  }

  -- A filter function goes first, then a jq filter, and else the whole object is summed.
  unfoldable pub apply_filter :
      Library O F → MonitorConfig O F → O → Option (ObjectAndFilterResult O F)
  apply_filter lib m obj = elim m.filter_func [
    | some filter_fn ↦ do
      result ← filter_fn obj
      bytes ← lib.marshal_result result
      some (filter_result_of lib m obj (some result) bytes)
    | none ↦ elim m.compiled_jq_filter [
      | none ↦ do bytes ← lib.marshal_object obj; some (filter_result_of lib m obj none bytes)
      | some jq ↦ do
        filtered ← jq obj
        some (filter_result_of lib m obj (some (lib.text_result filtered)) filtered)
    ]
  ]

  -- A result is filed under the id of its object.
  pub apply_filter-resource_id :
      (lib : Library O F) (m : MonitorConfig O F) (obj : O) (r : ObjectAndFilterResult O F)
      → apply_filter lib m obj ≡ some r
      → r.resource_id ≡ resource_id lib obj
  unfolding apply_filter
  apply_filter-resource_id lib m obj r h = ground arith
