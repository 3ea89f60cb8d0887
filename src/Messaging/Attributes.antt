-- ===== src/Messaging/Attributes.antt =====
-- decorators.py: the attributes that a producer's or a consumer's span gets. None of these
-- functions raises, so each is the list of its calls on the span.
use opentelemetry_openstack.Prelude.{String, List, [], ◌∷◌, ◌++◌, if◌then◌else◌}
use opentelemetry_openstack.Py.Value.{Value, str, dict, truthy, is_none, get, text_of}
use opentelemetry_openstack.Otel.Semconv
use opentelemetry_openstack.Otel.Span.{Note, attribute}
use opentelemetry_openstack.Messaging.Names.{
  rpc_system, attr_openstack_request_id, attr_notification_priority, attr_notification_event_type,
  attr_notification_publisher_id,
}

-- `if v is not None: span.set_attribute(k, w)`
abbrev pub unless_none : Value → Note → List Note
unless_none v n = if is_none v then [] else n ∷ []

-- `if v: span.set_attribute(k, w)`
abbrev pub when_true : Value → List Note → List Note
when_true v ns = if truthy v then ns else []

module _ (repr : Value → String) where
  -- `_set_request_id`
  unfoldable pub set_request_id : Value → List Note
  set_request_id (dict ctxt) =
      let request_id = get ctxt "request_id" in
      when_true request_id (
        attribute attr_openstack_request_id (str (text_of repr request_id))
        ∷ attribute Semconv.messaging_message_conversation_id (str (text_of repr request_id))
        ∷ [])
  set_request_id _ = []

  -- `_set_rpc_attributes`
  unfoldable pub set_rpc_attributes : Value → Value → Value → String → String → List Note
  unfolding set_request_id
  set_rpc_attributes ctxt method namespace system operation =
      attribute Semconv.messaging_system (str system)
      ∷ attribute Semconv.messaging_operation (str operation)
      ∷ attribute Semconv.messaging_operation_name (str operation)
      ∷ attribute Semconv.rpc_system (str rpc_system)
      ∷ (unless_none method (attribute Semconv.rpc_method (str (text_of repr method)))
          ++ (when_true namespace
                (attribute Semconv.rpc_service (str (text_of repr namespace)) ∷ [])
              ++ set_request_id ctxt))

  -- `_set_notification_attributes`
  unfoldable pub set_notification_attributes :
      String → String → Value → Value → Value → Value → List Note
  unfolding set_request_id
  set_notification_attributes system operation ctxt event_type priority publisher_id =
      attribute Semconv.messaging_system (str system)
      ∷ attribute Semconv.messaging_operation (str operation)
      ∷ attribute Semconv.messaging_operation_name (str operation)
      ∷ (set_request_id ctxt
          ++ (unless_none priority (attribute attr_notification_priority priority)
              ++ (unless_none event_type (attribute attr_notification_event_type event_type)
                  ++ unless_none publisher_id
                      (attribute attr_notification_publisher_id publisher_id))))
