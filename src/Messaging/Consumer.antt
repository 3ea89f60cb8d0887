-- ===== src/Messaging/Consumer.antt =====
-- decorators.py: `rpc_server_wrapper` and `notification_server_wrapper`, around the dispatchers.
use opentelemetry_openstack.Prelude.{String, none, List, [], ◌∷◌, if◌then◌else◌, concat}
use opentelemetry_openstack.Py.Value.{
  Value, null, str, dict, Items, end, or, get, get_default, call_get, getattr, text_of,
}
use opentelemetry_openstack.Py.Exec.{Exec, lift, gets, finally, ◌>>=◌, ◌>>◌}
use opentelemetry_openstack.Otel.Semconv
use opentelemetry_openstack.Otel.Span.{
  consumer, attribute, SpanArgs, Telemetry, Recorder, emit, on_span, with_span, open_span,
}
use opentelemetry_openstack.Messaging.Names.{
  op_receive, arg, as_mapping, consumer_messaging_system, qualified,
}
use opentelemetry_openstack.Messaging.Attributes.{
  when_true, set_rpc_attributes, set_notification_attributes,
}

module _ (repr : Value → String) where
  -- `_set_rpc_attributes(…)` and the message id, between `start_span` and `use_span`.
  unfoldable pub record_rpc : Value → Value → Value → Value → Value → Recorder (Unit {0})
  record_rpc incoming ctxt message method namespace = do
    system ← lift (consumer_messaging_system incoming)
    emit (set_rpc_attributes repr ctxt method namespace system op_receive)
    message_id ← lift (call_get message "msg_id" null)
    emit (when_true message_id (attribute Semconv.messaging_message_id message_id ∷ []))

  unfoldable pub record_notification : Value → Value → Items → Recorder (Unit {0})
  record_notification incoming ctxt message = do
    system ← lift (consumer_messaging_system incoming)
    emit (
        set_notification_attributes repr system op_receive ctxt (get message "event_type")
          (get message "priority") (get message "publisher_id"))
    let message_id = get message "message_id"
    emit (when_true message_id (attribute Semconv.messaging_message_id message_id ∷ []))

  module _ (T : Telemetry) where
    open T use {World, Context, Span, get_current, attach, detach, is_empty, extract, is_enabled}

    abbrev pub receive_span : String → SpanArgs Context
    receive_span name = record { name = name; kind = consumer; parent = none; attributes = end }

    -- `token = context.attach(span_ctx)`, and the `try` … `finally: context.detach(token)` after
    -- it.
    unfoldable pub attached : Context → Exec World Value → Exec World Value
    unfolding finally
    attached ctx body w = let (token, w') = attach ctx w in finally body (detach token) w'

    -- The context that the message carries, or else the current one.
    unfoldable pub message_context : Value → Exec World Context
    message_context ctxt = do
      span_ctx ← lift (extract ctxt)
      gets (λ w. if is_empty span_ctx then get_current w else span_ctx)

    -- The body of the `try`: the span, its attributes, and the dispatch within the span.
    unfoldable pub traced_dispatch :
        String → Recorder (Unit {0}) → Exec World Value → Exec World Value
    traced_dispatch name recorder dispatch = do
      span ← open_span T (receive_span name)
      on_span T span recorder
      with_span T span dispatch

    module _ (wrapped : List Value → Items → Exec World Value) (args : List Value)
        (kwargs : Items) where
      unfoldable pub traced_rpc : Exec World Value
      traced_rpc = do
        let incoming = arg args 0 kwargs "incoming"
        own_ctxt ← lift (getattr incoming "ctxt")
        let ctxt = or own_ctxt (dict end)
        own_message ← lift (getattr incoming "message")
        let message = or own_message (dict end)
        span_ctx ← message_context ctxt
        method ← lift (call_get message "method" (str ""))
        namespace ← lift (call_get message "namespace" (str ""))
        attached span_ctx (
            traced_dispatch (concat (qualified repr namespace method) " receive")
              (record_rpc incoming ctxt message method namespace) (wrapped args kwargs))

      -- The wrapper of `RPCDispatcher.dispatch`.
      unfoldable pub rpc_server_wrapper : Exec World Value
      rpc_server_wrapper w = if is_enabled w then traced_rpc w else wrapped args kwargs w

      unfoldable pub traced_notification : Exec World Value
      traced_notification = do
        let incoming = arg args 0 kwargs "incoming"
        own_ctxt ← lift (getattr incoming "ctxt")
        let ctxt = or own_ctxt (dict end)
        own_message ← lift (getattr incoming "message")
        let message = as_mapping (or own_message (dict end))
        span_ctx ← message_context ctxt
        attached span_ctx (
            traced_dispatch
              (concat (text_of repr (get_default message "event_type" (str ""))) " receive")
              (record_notification incoming ctxt message) (wrapped args kwargs))

      -- The wrapper of `NotificationDispatcher.dispatch`.
      unfoldable pub notification_server_wrapper : Exec World Value
      notification_server_wrapper w =
          if is_enabled w then traced_notification w else wrapped args kwargs w
