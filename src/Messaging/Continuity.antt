-- ===== src/Messaging/Continuity.antt =====
-- One trace from the producer of an RPC to its handler.
use opentelemetry_openstack.Prelude.{String, ◌≡◌, refl, true, false, List, [], ◌∷◌}
use opentelemetry_openstack.Py.Value.{Value, dict, Items, end, ok, getattr}
use opentelemetry_openstack.Py.Exec.{Exec}
use opentelemetry_openstack.Otel.Span.{producer, consumer, Telemetry}
use opentelemetry_openstack.Otel.Bodies.{RunsInSpan}
use opentelemetry_openstack.Otel.Laws.{KeepsContext, Propagates}
use opentelemetry_openstack.Messaging.Names.{arg}
use opentelemetry_openstack.Messaging.Producer.{replace_ctxt, inject_wrapper}
use opentelemetry_openstack.Messaging.Consumer.{rpc_server_wrapper}
use opentelemetry_openstack.Messaging.Delivery.{
  IsSendable, arg-replace_ctxt, rpc_server_wrapper-delivers, inject_wrapper-delivers,
}

-- The transport hands the consumer a message with the context that was sent, and with a mapping for
-- its body.
pub record Delivers (deliver : Value → Value) (m : Items) : Type 0 where
  pub ctxt : (v : Value) → getattr (deliver v) "ctxt" ≡ ok v
  pub message : (v : Value) → getattr (deliver v) "message" ≡ ok (dict m)

-- The argument `ctxt` of the wrapped send, under the context `c`.
abbrev pub sent_ctxt : (T : Telemetry) → T.Context → List Value → Items → Value
sent_ctxt T c args kwargs =
    let (args', kwargs') = replace_ctxt (T.inject c) args kwargs in arg args' 1 kwargs' "ctxt"

-- The send runs once in a new span of the producer, whose parent is the context that is current in
-- `w`, with that span's context injected into `ctxt`.
abbrev pub SentOnce :
    (repr : Value → String) (T : Telemetry)
    → (List Value → Items → Exec T.World Value)
    → Value
    → List Value
    → Items
    → T.World
    → Type 0
SentOnce repr T send instance args kwargs w =
    RunsInSpan T (inject_wrapper repr T false send instance args kwargs w) producer
      (T.get_current w) w
      (λ span.
        send (replace_ctxt (T.inject (T.set_span_in_context span (T.get_current w))) args kwargs).0
          (replace_ctxt (T.inject (T.set_span_in_context span (T.get_current w))) args kwargs).1)
      (λ v. v)

-- The handler runs once, with the arguments given, in a new span of the consumer whose parent is
-- the context `c`, and `c` is detached after it.
abbrev pub HandledOnce :
    (repr : Value → String) (T : Telemetry)
    → (List Value → Items → Exec T.World Value)
    → List Value
    → T.Context
    → T.World
    → Type 0
HandledOnce repr T handle args c u =
    RunsInSpan T (rpc_server_wrapper repr T handle args end u) consumer c (T.attach c u).1
      (λ span. handle args end) (T.detach (T.attach c u).0)

module _ (repr : Value → String) (T : Telemetry) (laws : KeepsContext T) {IsOwn : String → Type 0}
    (carries : Propagates T IsOwn) where
  -- The handler of a message that carries the context `c`, with a valid span.
  handled_under :
      (handle : List Value → Items → Exec T.World Value) (deliver : Value → Value) (d m : Items)
      (c : T.Context) (u : T.World)
      → T.is_enabled u ≡ true
      → Delivers deliver m
      → T.has_valid_span c ≡ true
      → HandledOnce repr T handle (deliver (dict (T.inject c d)) ∷ []) (carries.remote c) u
  handled_under handle deliver d m c u on delivers valid =
      let (extracted, full) = carries.extracted c d valid in
      let handled =
        rpc_server_wrapper-delivers repr T laws handle (deliver (dict (T.inject c d)) ∷ []) end
          (T.inject c d) m (carries.remote c) u on
          (unfold arg in
            record {
              ctxt = delivers.ctxt _;
              message = delivers.message _;
              extracted = extracted;
            }) in
      rw full at handled

  -- Every span of the API's tracer is valid, as the SDK's are.
  module _
      (valid : (s : T.Span) (c : T.Context) → T.has_valid_span (T.set_span_in_context s c) ≡ true)
      (send handle : List Value → Items → Exec T.World Value) (instance : Value) (args : List Value)
      (kwargs d m : Items) (w u : T.World) (deliver : Value → Value) where
    -- An RPC whose transport and target can be read is sent with a mapping for its context, from a
    -- producer with an enabled instrumentation to a consumer with one; the transport delivers the
    -- context that the send was given, with a mapping for the body; and the tracer's spans are
    -- valid. Then the send runs once in a new `PRODUCER` span whose parent is the producer's
    -- current context, and the handler runs once in a new `CONSUMER` span whose parent is what the
    -- propagator carries of the producer's span, whatever was current in the consumer; both
    -- wrappers end as what they wrap.
    pub trace_continues :
        T.is_enabled w ≡ true
        → T.is_enabled u ≡ true
        → IsSendable instance args kwargs
        → arg args 1 kwargs "ctxt" ≡ dict d
        → Delivers deliver m
        → (sent : SentOnce repr T send instance args kwargs w) × (c : T.Context) × (c
            ≡ T.set_span_in_context (T.start_span sent.args w).0 (T.get_current w))
          × HandledOnce repr T handle
              (deliver (sent_ctxt T c args kwargs) ∷ [])
              (carries.remote c)
              u
    trace_continues enabled on sendable has_ctxt delivers =
        let sent =
          inject_wrapper-delivers repr T laws false send instance args kwargs w enabled sendable in
        let c = T.set_span_in_context (T.start_span sent.args w).0 (T.get_current w) in
        let arrives = arg-replace_ctxt (T.inject c) args kwargs d has_ctxt in
        (sent, c, refl, rw arrives (handled_under handle deliver d m c u on delivers (valid _ _)))
