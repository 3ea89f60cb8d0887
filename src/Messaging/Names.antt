-- ===== src/Messaging/Names.antt =====
-- decorators.py: the constants, the argument lookup, the broker's name and the RPC method's name.
use Prim.Native.Char.{code}
use Prim.Native.String.{[], ◌∷◌}
use opentelemetry_openstack.Prelude.{
  ℕ, String, Option, none, some, List, get_elem?, nat_eq, ◌==◌, if◌then◌else◌, concat, ◌||◌,
}
use opentelemetry_openstack.Py.Value.{
  Value, str, dict, Items, end, Result, ok, err, attribute_error, truthy, get, getattr, mro_modules,
  text_of, bind_result,
}

abbrev pub rpc_system : String
rpc_system = "oslo.messaging"

abbrev pub default_messaging_system : String
default_messaging_system = "oslo.messaging"

abbrev pub attr_notification_priority : String
attr_notification_priority = "oslo_messaging.notification.priority"

abbrev pub attr_notification_event_type : String
attr_notification_event_type = "oslo_messaging.notification.event_type"

abbrev pub attr_notification_publisher_id : String
attr_notification_publisher_id = "oslo_messaging.notification.publisher_id"

abbrev pub attr_target_exchange : String
attr_target_exchange = "oslo_messaging.target.exchange"

abbrev pub attr_openstack_request_id : String
attr_openstack_request_id = "openstack.request_id"

abbrev pub op_call : String
op_call = "call"

abbrev pub op_cast : String
op_cast = "cast"

abbrev pub op_send : String
op_send = "send"

abbrev pub op_receive : String
op_receive = "receive"

-- `_arg`: a positional argument, or else the keyword, or else `None`. There is an element at
-- `index` exactly when `len(args) > index`.
unfoldable pub arg : List Value → ℕ → Items → String → Value
arg args index kwargs name = elim (get_elem? args index) [ some v ↦ v | none ↦ get kwargs name ]

-- `driver.split("+")[0]`
unfoldable pub before_plus : String → String
before_plus [] = ""
before_plus (c ∷ s) = let rest = before_plus s in if nat_eq (code c) b'+' then "" else c ∷ rest

-- `_MESSAGING_SYSTEM_BY_DRIVER.get(driver, driver)`
unfoldable pub messaging_system_by_driver : String → String
messaging_system_by_driver driver =
    if driver == "rabbit" || driver == "kombu" then "rabbitmq" else driver

-- `_messaging_system_for_driver`. What is true and no text has no `split`.
unfoldable pub messaging_system_for_driver : Value → Result String
unfolding before_plus messaging_system_by_driver
messaging_system_for_driver (str s) =
    if s == "" then ok default_messaging_system else ok (messaging_system_by_driver (before_plus s))
messaging_system_for_driver driver =
    if truthy driver then err attribute_error else ok default_messaging_system

-- `_DRIVER_BY_INCOMING_MODULE.get(module)`
unfoldable pub driver_by_incoming_module : String → Option String
driver_by_incoming_module m =
    if m == "oslo_messaging._drivers.amqpdriver"
    then some "rabbit"
    else if m == "oslo_messaging._drivers.impl_kafka"
    then some "kafka"
    else if m == "oslo_messaging._drivers.impl_fake"
    then some "fake"
    else none

-- The loop of `_consumer_messaging_system` over the modules of the message's classes.
unfoldable pub walk_mro : List String → Result String
walk_mro List.[] = ok default_messaging_system
walk_mro (List.◌∷◌ m ms) = elim (driver_by_incoming_module m) [
  | none ↦ walk_mro ms
  | some driver ↦ messaging_system_for_driver (str driver)
]

unfoldable pub consumer_messaging_system : Value → Result String
consumer_messaging_system incoming = walk_mro (mro_modules incoming)

-- `_producer_messaging_system`
unfoldable pub producer_messaging_system : Value → Result String
unfolding messaging_system_for_driver
producer_messaging_system transport = bind_result (getattr transport "_driver") λ driver.
    bind_result (getattr driver "_url")
      λ url. bind_result (getattr url "transport") messaging_system_for_driver

-- What is not a mapping is taken for an empty one.
abbrev pub as_mapping : Value → Items
as_mapping (dict d) = d
as_mapping _ = end

module _ (repr : Value → String) where
  -- `f"{namespace}.{rpc_method}" if namespace else rpc_method`
  abbrev pub qualified : Value → Value → String
  qualified namespace method =
      if truthy namespace
      then concat (text_of repr namespace) (concat "." (text_of repr method))
      else text_of repr method

  -- `_rpc_method`
  unfoldable pub rpc_method : Value → Option String
  rpc_method (dict message) =
      if truthy (get message "method")
      then some (qualified (get message "namespace") (get message "method"))
      else none
  rpc_method _ = none
