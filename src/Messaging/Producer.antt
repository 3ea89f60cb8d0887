-- ===== src/Messaging/Producer.antt =====
-- decorators.py: `inject_trace`, the wrapper of `Transport._send` and
-- `Transport._send_notification`.
use opentelemetry_openstack.Prelude.{
  String, Bool, Option, none, some, List, [], ◌∷◌, get_elem?, set, if◌then◌else◌, concat, ◌==◌,
}
use opentelemetry_openstack.Py.Value.{Value, dict, Items, end, put, truthy, get, getattr, text_of}
use opentelemetry_openstack.Py.Exec.{Exec, lift, gets, pure, ◌>>=◌, ◌>>◌}
use opentelemetry_openstack.Otel.Semconv
use opentelemetry_openstack.Otel.Span.{
  producer, attribute, SpanArgs, Telemetry, Recorder, emit, on_span, with_span, open_span,
}
use opentelemetry_openstack.Messaging.Names.{
  attr_target_exchange, op_send, op_call, op_cast, arg, as_mapping, producer_messaging_system,
  rpc_method,
}
use opentelemetry_openstack.Messaging.Attributes.{
  when_true, set_rpc_attributes, set_notification_attributes,
}

-- `f"{rpc_method} send" if rpc_method else "send"`
abbrev pub send_name : Option String → String
send_name none = "send"
send_name (some name) = if name == "" then "send" else concat name " send"

-- The mapping at the argument that `ctxt` was read from. The wrapped method sees the injected
-- entries, since `ctxt` and the argument are one object.
unfoldable pub replace_ctxt : (Items → Items) → List Value → Items → List Value × Items
unfolding arg
replace_ctxt f args kwargs = elim (arg args 1 kwargs "ctxt") [
  | dict d ↦ elim (get_elem? args 1) [
    | some v ↦ (set args 1 (dict (f d)), kwargs)
    | none ↦ (args, put "ctxt" (dict (f d)) kwargs)
  ]
  | _ ↦ (args, kwargs)
]

module _ (repr : Value → String) where
  -- `f"{event_type} send" if event_type else "send"`
  abbrev pub send_event_name : Value → String
  send_event_name event_type =
      if truthy event_type then concat (text_of repr event_type) " send" else "send"

  unfoldable pub span_name : Bool → Items → String
  unfolding rpc_method
  span_name is_notification message =
      if is_notification
      then send_event_name (get message "event_type")
      else send_name (rpc_method repr (dict message))

  -- The block under `if span.is_recording()`.
  unfoldable pub record_send : Bool → Value → List Value → Items → Recorder (Unit {0})
  record_send is_notification instance args kwargs =
      let ctxt = arg args 1 kwargs "ctxt" in
      let target = arg args 0 kwargs "target" in
      let message = as_mapping (arg args 2 kwargs "message") in
      let operation = if truthy (arg args 3 kwargs "wait_for_reply") then op_call else op_cast in
      do
        system ← lift (producer_messaging_system instance)
        topic ← lift (getattr target "topic")
        emit (when_true topic (attribute Semconv.messaging_destination_name topic ∷ []))
        exchange ← lift (getattr target "exchange")
        emit (when_true exchange (attribute attr_target_exchange exchange ∷ []))
        emit (
            if is_notification
            then set_notification_attributes repr system op_send ctxt (get message "event_type")
                (get message "priority") (get message "publisher_id")
            else set_rpc_attributes repr ctxt (get message "method") (get message "namespace")
                system operation)

  module _ (T : Telemetry) where
    open T use {World, Context, get_current, is_recording, inject, is_enabled}

    -- The block under `with trace.use_span(span, end_on_exit=True)`.
    unfoldable pub inject_and_send :
        (List Value → Items → Exec World Value) → List Value → Items → Exec World Value
    inject_and_send wrapped args kwargs w =
        let (args', kwargs') = replace_ctxt (inject (get_current w)) args kwargs in
        wrapped args' kwargs' w

    unfoldable pub send_span : Bool → List Value → Items → SpanArgs Context
    unfolding span_name
    send_span is_notification args kwargs = record {
      name = span_name is_notification (as_mapping (arg args 2 kwargs "message"));
      kind = producer;
      parent = none;
      attributes = end;
    }

    unfoldable pub traced_send :
        Bool
        → (List Value → Items → Exec World Value)
        → Value
        → List Value
        → Items
        → Exec World Value
    traced_send is_notification wrapped instance args kwargs = do
      span ← open_span T (send_span is_notification args kwargs)
      recording ← gets (is_recording span)
      if recording
          then on_span T span (record_send is_notification instance args kwargs)
          else pure tt
      with_span T span (inject_and_send wrapped args kwargs)

    -- `inject_trace(tracer, is_notification)`
    unfoldable pub inject_wrapper :
        Bool
        → (List Value → Items → Exec World Value)
        → Value
        → List Value
        → Items
        → Exec World Value
    inject_wrapper is_notification wrapped instance args kwargs w =
        if is_enabled w
        then traced_send is_notification wrapped instance args kwargs w
        else wrapped args kwargs w
