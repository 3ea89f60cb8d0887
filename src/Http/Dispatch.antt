-- ===== src/Http/Dispatch.antt =====
-- One trace over three processes: a client's HTTP request, the application of the service that gets
-- it, and the handler of the RPC that the application sends.
use opentelemetry_openstack.Prelude.{String, ◌≡◌, true, false, some, List, [], ◌∷◌}
use opentelemetry_openstack.Py.Value.{Value, dict, Items, end, put}
use opentelemetry_openstack.Py.Exec.{Exec}
use opentelemetry_openstack.Py.Builtins.{Builtins}
use opentelemetry_openstack.Otel.Span.{SpanArgs, client, server, Telemetry}
use opentelemetry_openstack.Otel.Bodies.{RunsInCurrentSpan}
use opentelemetry_openstack.Otel.Laws.{KeepsContext, Propagates}
use opentelemetry_openstack.Session.Request.{Parsing, request_wrapper}
use opentelemetry_openstack.Session.Continuity.{IsReadable}
use opentelemetry_openstack.Keystone.Middleware.{
  Request, CallArgs, wsgi, StartResponse, call_wrapper,
}
use opentelemetry_openstack.Keystone.Continuity.{IntOfText}
use opentelemetry_openstack.Messaging.Names.{arg}
use opentelemetry_openstack.Messaging.Producer.{inject_wrapper}
use opentelemetry_openstack.Messaging.Delivery.{IsSendable}
use opentelemetry_openstack.Messaging.Continuity.{
  Delivers, sent_ctxt, SentOnce, HandledOnce, trace_continues,
}
use opentelemetry_openstack.Http.Continuity.{Serves, IsRequest, http_trace_continues}

-- Code on the API's state, in a call of the middleware.
unfoldable pub on_world :
    {b : Builtins} {T : Telemetry} → Exec T.World Value → Exec (Request b T) Value
on_world m s = let (r, w) = m s.world in (r, record s { world = w })

-- An application that sends an RPC, and answers with what the send gives.
abbrev pub sending :
    {b : Builtins} (repr : Value → String) (T : Telemetry)
    → (List Value → Items → Exec T.World Value)
    → Value
    → List Value
    → Items
    → CallArgs b T
    → Exec (Request b T) Value
sending repr T cast target args kwargs call =
    on_world (inject_wrapper repr T false cast target args kwargs)

module _ (b b' : Builtins) (u : Parsing) (repr : Value → String) (T : Telemetry)
    (laws : KeepsContext T) {IsOwn : String → Type 0} (carries : Propagates T IsOwn)
    (int_of_text : IntOfText b')
    (valid : (s : T.Span) (c : T.Context) → T.has_valid_span (T.set_span_in_context s c) ≡ true)
    (stays : (a : SpanArgs T.Context) (w : T.World)
      → T.is_enabled w ≡ true
      → T.is_enabled (T.start_as_current_span a w).1 ≡ true)
    (send : List Value → Items → Exec T.World Value) (args : List Value) (kwargs headers : Items)
    (serve : Items → Items) (start_response : StartResponse b' T)
    (cast handle : List Value → Items → Exec T.World Value) (target : Value)
    (cast_args : List Value) (cast_kwargs d m : Items) (deliver : Value → Value) (w : T.World)
    (s : Request b' T) (x : T.World) where
  -- A session sends a request that can be read, and that returns or raises what can be read; the
  -- service that gets it has no span current, and its application sends an RPC whose target and
  -- transport can be read, with a mapping for its context. The instrumentation is enabled in the
  -- client, in the service and where the RPC is handled, and starting a span leaves it so; the WSGI
  -- server hands the propagator's fields on, and the transport the context and a mapping for the
  -- body; the tracer's spans are valid. Then the request is sent once, in a new `CLIENT` span whose
  -- parent is the client's context; the service starts a `SERVER` span whose parent is what the
  -- propagator carries of the client's span, and its wrapper has the outcome that the wrapper of
  -- the RPC's send has in the state where that span was started; in that state this wrapper makes
  -- the send once, in a new `PRODUCER` span whose parent is the context with the `SERVER` span; and
  -- the handler runs once, in a new `CONSUMER` span whose parent is what the propagator carries of
  -- the `PRODUCER` span. The client's, the send's and the handler's wrappers end as what they wrap.
  pub request_reaches_handler :
      T.is_enabled w ≡ true
      → T.is_enabled s.world ≡ true
      → T.is_enabled x ≡ true
      → T.has_valid_span (T.get_current s.world) ≡ false
      → IsReadable T u send
      → IsRequest b u args kwargs headers
      → Serves b' T IsOwn serve
      → IsSendable target cast_args cast_kwargs
      → arg cast_args 1 cast_kwargs "ctxt" ≡ dict d
      → Delivers deliver m
      → (requested : RunsInCurrentSpan T
          (request_wrapper b u T send args kwargs w)
          client
          w
          (λ span. send args (
            put "headers"
              (dict (T.inject (T.set_span_in_context span (T.get_current w)) headers))
              kwargs)))
        × (c : T.Context) × (a : SpanArgs T.Context) × (v : T.World) × (c
            ≡ T.set_span_in_context
                (T.start_as_current_span requested.args w).0.0
                (T.get_current w))
        × (a.kind ≡ server)
        × (a.parent ≡ some (carries.remote c))
        × (v ≡ (T.start_as_current_span a s.world).1)
        × (T.get_current v
            ≡ T.set_span_in_context (T.start_as_current_span a s.world).0.0 (T.get_current s.world))
        × ((call_wrapper b' T
              (sending repr T cast target cast_args cast_kwargs)
              (wsgi (dict (serve (T.inject c headers))) start_response end)
              s).0
            ≡ (inject_wrapper repr T false cast target cast_args cast_kwargs v).0)
        × (cast_once : SentOnce repr T cast target cast_args cast_kwargs v) × (c' : T.Context) × (c'
            ≡ T.set_span_in_context (T.start_span cast_once.args v).0 (T.get_current v))
        × HandledOnce repr T handle
            (deliver (sent_ctxt T c' cast_args cast_kwargs) ∷ [])
            (carries.remote c')
            x
  unfolding on_world
  request_reaches_handler enabled on running entry readable request serves sendable has_ctxt
        delivers =
      let (requested, c, a, s', answer, within, is_server, parent, handled, started, under) =
        http_trace_continues b b' u T laws carries int_of_text valid send
          (sending repr T cast target cast_args cast_kwargs) args kwargs headers serve
          start_response w s enabled on entry readable request serves in
      let (cast_once, c', cast_within, consumed) =
        trace_continues repr T laws carries valid cast handle target cast_args cast_kwargs d m
          s'.world x deliver (rw started (stays a s.world on)) running sendable has_ctxt delivers in
      (
        requested, c, a, s'.world, within, is_server, parent, started, under, handled, cast_once,
        c', cast_within, consumed,
      )
