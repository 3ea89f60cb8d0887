-- ===== src/Messaging/Delivery.antt =====
-- decorators.py: the calls that the three wrappers make within their spans.
use opentelemetry_openstack.Prelude.{
  String, ◌≡◌, refl, ap, ◌∙◌, Bool, true, false, List, [], ◌∷◌, arith, if◌then◌else◌, Bool-cases,
  inl, inr, eq_iff, Option-cases, ◌==◌,
}
use opentelemetry_openstack.Py.Value.{
  or-dict, Value, dict, Items, ok, err, str, get, lookup-put, getattr, truthy, mro_modules,
  is_mapping, attribute_error, call_get,
}
use opentelemetry_openstack.Py.Exec.{Exec, ◌>>=◌, outcome_exn}
use opentelemetry_openstack.Otel.Span.{
  note_all, producer, consumer, with_span, Telemetry, Recorder, on_span, open_span, emit,
}
use opentelemetry_openstack.Otel.Laws.{KeepsContext, get_current-note_all}
use opentelemetry_openstack.Otel.Bodies.{RunsInSpan, recording-notes}
use opentelemetry_openstack.Messaging.Names.{
  arg, consumer_messaging_system, producer_messaging_system, walk_mro, driver_by_incoming_module,
  default_messaging_system, messaging_system_by_driver, before_plus, messaging_system_for_driver,
}
use opentelemetry_openstack.Messaging.Producer.{
  replace_ctxt, traced_send, inject_wrapper, inject_and_send, send_span, record_send,
}
use opentelemetry_openstack.Messaging.Consumer.{
  attached, message_context, traced_dispatch, receive_span, traced_rpc, rpc_server_wrapper,
  record_rpc, record_notification, notification_server_wrapper, traced_notification,
}

-- A message whose context is a mapping that the propagator reads, and whose body is a mapping.
pub record IsReadable (T : Telemetry) (incoming : Value) (c m : Items) (ctx : T.Context)
    : Type 0 where
  pub ctxt : getattr incoming "ctxt" ≡ ok (dict c)
  pub message : getattr incoming "message" ≡ ok (dict m)
  pub extracted : T.extract (dict c) ≡ ok ctx

-- The transport's driver and the target's topic and exchange can be read.
pub record IsSendable (instance : Value) (args : List Value) (kwargs : Items) : Type 0 where
  pub system : String
  pub topic : Value
  pub exchange : Value
  pub driver : producer_messaging_system instance ≡ ok system
  pub has_topic : getattr (arg args 0 kwargs "target") "topic" ≡ ok topic
  pub has_exchange : getattr (arg args 0 kwargs "target") "exchange" ≡ ok exchange

-- The argument that the wrapped method reads as `ctxt` holds the injected entries.
pub arg-replace_ctxt :
    (f : Items → Items) (args : List Value) (kwargs d : Items)
    → arg args 1 kwargs "ctxt" ≡ dict d
    → arg (replace_ctxt f args kwargs).0 1 (replace_ctxt f args kwargs).1 "ctxt" ≡ dict (f d)
unfolding replace_ctxt arg get
arg-replace_ctxt f [] kwargs d h =
    ground (arith, lookup-put "ctxt" "ctxt" (dict (f d)) kwargs, eq_iff "ctxt" "ctxt")
arg-replace_ctxt f (a ∷ []) kwargs d h =
    ground (arith, lookup-put "ctxt" "ctxt" (dict (f d)) kwargs, eq_iff "ctxt" "ctxt")
arg-replace_ctxt f (a ∷ b ∷ r) kwargs d h = ground arith

driver-ok : (s : String) → (t : String) × (messaging_system_for_driver (str s) ≡ ok t)
unfolding messaging_system_for_driver
driver-ok s = elim (Bool-cases (s == "")) [
  | inl empty ↦ (default_messaging_system, rw empty)
  | inr more ↦ (messaging_system_by_driver (before_plus s), rw more)
]

walk_mro-ok : (ms : List String) → (s : String) × (walk_mro ms ≡ ok s)
unfolding walk_mro
walk_mro-ok [] = (default_messaging_system, refl)
walk_mro-ok (m ∷ ms) = elim (Option-cases (driver_by_incoming_module m)) [
  | inl unknown ↦ let (s, e) = walk_mro-ok ms in (s, rw (unknown, walk_mro) e)
  | inr (driver, known) ↦ let (s, e) = driver-ok driver in (s, rw (known, walk_mro) e)
]

module _ (repr : Value → String) (T : Telemetry) (laws : KeepsContext T) where
  -- The body of a dispatch, within `attached`.
  dispatched :
      (name : String) (recorder : Recorder (Unit {0})) (body : Exec T.World Value) (c : T.Context)
      (w : T.World)
      → (recorder []).0 ≡ ok tt
      → RunsInSpan T
          (attached repr T c (traced_dispatch repr T name recorder body) w)
          consumer
          c
          (T.attach c w).1
          (λ span. body)
          (T.detach (T.attach c w).0)
  unfolding attached traced_dispatch ◌>>=◌ open_span on_span with_span
  dispatched name recorder body c w h =
      let a = receive_span repr T name in
      let v = (T.attach c w).1 in
      let span = (T.start_span a v).0 in
      record {
        args = a;
        notes = (recorder []).1;
        parent = refl;
        own_kind = refl;
        current = laws.attached c w;
        entered =
            laws.used span _
            ∙ ap (T.set_span_in_context span) (
                get_current-note_all laws span (recorder []).1 _
                ∙ (laws.started a v ∙ laws.attached c w));
        once = rw h refl;
      }

module _ (repr : Value → String) where
  record_rpc-ok :
      (incoming ctxt method namespace : Value) (m : Items)
      → (record_rpc repr incoming ctxt (dict m) method namespace []).0 ≡ ok tt
  unfolding record_rpc consumer_messaging_system ◌>>=◌ emit
  record_rpc-ok incoming ctxt method namespace m =
      let (s, e) = walk_mro-ok (mro_modules incoming) in rw e

  record_notification-ok :
      (incoming ctxt : Value) (m : Items) → (record_notification repr incoming ctxt m []).0 ≡ ok tt
  unfolding record_notification consumer_messaging_system ◌>>=◌ emit
  record_notification-ok incoming ctxt m = let (s, e) = walk_mro-ok (mro_modules incoming) in rw e

  call_get-raises :
      (v : Value) (k : String) (d : Value)
      → is_mapping v ≡ false
      → call_get v k d ≡ err attribute_error
  call_get-raises (dict m) k d h = cc
  call_get-raises _ k d h = refl

  module _ (T : Telemetry) (laws : KeepsContext T) where
    message_context-ok :
        (c : Items) (ctx : T.Context) (w : T.World)
        → T.extract (dict c) ≡ ok ctx
        → message_context repr T (dict c) w
          ≡ (ok (if T.is_empty ctx then T.get_current w else ctx), w)
    unfolding message_context ◌>>=◌
    message_context-ok c ctx w h = rw h

    module _ (wrapped : List Value → Items → Exec T.World Value) (args : List Value)
        (kwargs c m : Items) (ctx : T.Context) (w : T.World) (enabled : T.is_enabled w ≡ true)
        (readable : IsReadable T (arg args 0 kwargs "incoming") c m ctx) where
      -- With instrumentation enabled and a readable message the dispatcher runs once, with the
      -- arguments given, in a new `CONSUMER` span whose parent is the message's context, or the
      -- current one where the message carries none; the wrapper ends as the dispatcher ends, and
      -- does nothing then but to leave the span and to detach the context.
      pub rpc_server_wrapper-delivers :
          RunsInSpan T
            (rpc_server_wrapper repr T wrapped args kwargs w)
            consumer
            (if T.is_empty ctx then T.get_current w else ctx)
            (T.attach (if T.is_empty ctx then T.get_current w else ctx) w).1
            (λ span. wrapped args kwargs)
            (T.detach (T.attach (if T.is_empty ctx then T.get_current w else ctx) w).0)
      unfolding rpc_server_wrapper traced_rpc ◌>>=◌
      rpc_server_wrapper-delivers =
          rw
            (
              enabled,
              readable.ctxt,
              readable.message,
              or-dict c,
              or-dict m,
              message_context-ok c ctx w readable.extracted,
            )
            (dispatched repr T laws _ _ _ _ w (record_rpc-ok _ _ _ _ m))

    module _ (wrapped : List Value → Items → Exec T.World Value) (args : List Value)
        (kwargs c : Items) (body : Value) (ctx : T.Context) (w : T.World)
        (enabled : T.is_enabled w ≡ true)
        (has_ctxt : getattr (arg args 0 kwargs "incoming") "ctxt" ≡ ok (dict c))
        (has_message : getattr (arg args 0 kwargs "incoming") "message" ≡ ok body) where
      -- With instrumentation enabled, for a notification whose context is a mapping that the
      -- propagator reads, with any value for its body, the dispatcher runs once, with the arguments
      -- given, in a new `CONSUMER` span whose parent is the message's context, or the current one
      -- where the message carries none; the wrapper ends as the dispatcher ends, and does nothing
      -- then but to leave the span and to detach the context.
      pub notification_server_wrapper-delivers :
          T.extract (dict c) ≡ ok ctx
          → RunsInSpan T
              (notification_server_wrapper repr T wrapped args kwargs w)
              consumer
              (if T.is_empty ctx then T.get_current w else ctx)
              (T.attach (if T.is_empty ctx then T.get_current w else ctx) w).1
              (λ span. wrapped args kwargs)
              (T.detach (T.attach (if T.is_empty ctx then T.get_current w else ctx) w).0)
      unfolding notification_server_wrapper traced_notification ◌>>=◌
      notification_server_wrapper-delivers extracted =
          rw (enabled, has_ctxt, has_message, or-dict c, message_context-ok c ctx w extracted)
            (dispatched repr T laws _ _ _ _ w (record_notification-ok _ _ _))

      -- With instrumentation enabled, an RPC whose context the propagator reads and whose body is
      -- true and no mapping is not dispatched: the wrapper raises `AttributeError` and leaves the
      -- state as it was, without a span.
      pub rpc_server_wrapper-raises :
          T.extract (dict c) ≡ ok ctx
          → truthy body ≡ true
          → is_mapping body ≡ false
          → rpc_server_wrapper repr T wrapped args kwargs w ≡ (err attribute_error, w)
      unfolding rpc_server_wrapper traced_rpc ◌>>=◌
      rpc_server_wrapper-raises extracted full other = rw (
        enabled,
        has_ctxt,
        has_message,
        or-dict c,
        message_context-ok c ctx w extracted,
        full,
        call_get-raises body "method" (str "") other,
      )

    module _ (is_notification : Bool) (wrapped : List Value → Items → Exec T.World Value)
        (instance : Value) (args : List Value) (kwargs : Items) (w : T.World)
        (enabled : T.is_enabled w ≡ true) where
      record_send-ok :
          IsSendable instance args kwargs
          → (record_send repr is_notification instance args kwargs []).0 ≡ ok tt
      unfolding record_send ◌>>=◌ emit
      record_send-ok h = rw (h.driver, h.has_topic, h.has_exchange)

      -- With instrumentation enabled, for a transport and a target that can be read the send runs
      -- once in a new `PRODUCER` span whose parent is the current context, with its arguments but
      -- for `ctxt`, into which the context of that span is injected; the wrapper ends as the send
      -- ends, and does nothing then but to leave the span.
      pub inject_wrapper-delivers :
          IsSendable instance args kwargs
          → RunsInSpan T
              (inject_wrapper repr T is_notification wrapped instance args kwargs w)
              producer
              (T.get_current w)
              w
              (λ span.
                wrapped
                  (replace_ctxt
                    (T.inject (T.set_span_in_context span (T.get_current w)))
                    args
                    kwargs).0
                  (replace_ctxt
                    (T.inject (T.set_span_in_context span (T.get_current w)))
                    args
                    kwargs).1)
              (λ v. v)
      unfolding inject_wrapper traced_send inject_and_send ◌>>=◌ open_span with_span
      inject_wrapper-delivers h =
          let a = send_span repr T is_notification args kwargs in
          let (span, w1) = T.start_span a w in
          let recorder = record_send repr is_notification instance args kwargs in
          let (notes, recorded) =
            recording-notes T (T.is_recording span w1) span recorder w1 (record_send-ok h) in
          let current =
            laws.used span _
            ∙ ap (T.set_span_in_context span)
                (get_current-note_all laws span notes w1 ∙ laws.started a w) in
          record {
            args = a;
            notes = notes;
            parent = unfold send_span in refl;
            own_kind = unfold send_span in refl;
            current = refl;
            entered = current;
            once =
                rw (enabled, recorded)
                  (ap
                    (λ c.
                      let (xs, ks) = replace_ctxt (T.inject c) args kwargs in
                      let (r, v) = wrapped xs ks (T.use_span span (note_all T span notes w1)).1 in
                      (r, T.leave (T.use_span span (note_all T span notes w1)).0 (outcome_exn r) v))
                    current);
          }
