-- ===== src/Messaging/Payload.antt =====
-- decorators.py: the spans of messages that differ in their payload.
use opentelemetry_openstack.Prelude.{String, ◌≡◌, ◌≢◌}
use opentelemetry_openstack.Py.Value.{Value, dict, Items, get}
use opentelemetry_openstack.Otel.Span.{Telemetry}
use opentelemetry_openstack.Otel.Laws.{Propagates}
use opentelemetry_openstack.Messaging.Attributes.{set_request_id}

-- The entries of a message that describe it; every other entry is payload.
pub record IsPayload (k : String) : Type 0 where
  pub method : k ≢ "method"
  pub namespace : k ≢ "namespace"
  pub event_type : k ≢ "event_type"
  pub priority : k ≢ "priority"
  pub publisher_id : k ≢ "publisher_id"
  pub msg_id : k ≢ "msg_id"
  pub message_id : k ≢ "message_id"

-- Where the request id is an entry of the program's own, the injection of a context into a
-- message's context leaves the request-id attributes that the span gets from it.
request_id_correlates :
    (repr : Value → String) (T : Telemetry) {IsOwn : String → Type 0} (carries : Propagates T IsOwn)
    (c : T.Context) (d : Items)
    → IsOwn "request_id"
    → set_request_id repr (dict (T.inject c d)) ≡ set_request_id repr (dict d)
unfolding set_request_id get
request_id_correlates repr T carries c d own = rw (carries.unwritten c d "request_id" own)
