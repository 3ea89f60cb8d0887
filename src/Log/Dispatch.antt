-- ===== src/Log/Dispatch.antt =====
-- The record factory within the consumer's dispatch of oslo.messaging. The factory's state is the
-- API's.
use opentelemetry_openstack.Prelude.{
  String, ◌≡◌, refl, ap, ◌∙◌, true, false, Option, none, some, List, if◌then◌else◌,
}
use opentelemetry_openstack.Py.Value.{Value, str, Items, lookup, is_none, ok}
use opentelemetry_openstack.Py.Exec.{Exec}
use opentelemetry_openstack.Otel.Span.{consumer, Telemetry}
use opentelemetry_openstack.Otel.Bodies.{RunsInSpan, inside, span_from}
use opentelemetry_openstack.Otel.Laws.{KeepsContext}
use opentelemetry_openstack.Messaging.Names.{arg}
use opentelemetry_openstack.Messaging.Consumer.{rpc_server_wrapper}
use opentelemetry_openstack.Messaging.Delivery.{IsReadable, rpc_server_wrapper-delivers}
use opentelemetry_openstack.Log.Factory.{Logging, State, record_factory}
use opentelemetry_openstack.Log.Correlated.{expected, stamped, record_factory-expected}
use opentelemetry_openstack.Log.Cached.{resolve-cached}

-- What the factory uses beside the API: the factory before it, and `get_current_span(context)` with
-- its ids. There is no hook.
pub record Records (T : Telemetry) : Type 1 where
  pub Args : Type 0
  pub old_factory : Args → Exec T.World Items
  pub span_of : T.Context → Option T.Span
  pub trace_id : T.Span → String
  pub span_id : T.Span → String
  pub sampled : T.Span → Value
  pub provider : T.World → Value

module _ (T : Telemetry) (R : Records T) where
  abbrev pub logging_of : Logging
  logging_of = record {
    World = T.World;
    Args = R.Args;
    Span = T.Span;
    old_factory = R.old_factory;
    current_span = λ w. R.span_of (T.get_current w);
    trace_id = R.trace_id;
    span_id = R.span_id;
    sampled = R.sampled;
    provider = R.provider;
    log_hook = none;
  }

  -- The span of a context is the one that was set in it, and the factory before makes a record and
  -- leaves the current context.
  pub record Documented : Type 0 where
    pub set : (s : T.Span) (c : T.Context) → R.span_of (T.set_span_in_context s c) ≡ some s
    pub makes : (a : R.Args) (w : T.World) → (r : Items) × ((R.old_factory a w).0 ≡ ok r)
    pub keeps : (a : R.Args) (w : T.World) → T.get_current (R.old_factory a w).1 ≡ T.get_current w

  abbrev pub state_of : T.World → Value → State logging_of
  state_of w name = record { world = w; service_name = name }

  module _ (documented : Documented) (a : R.Args) (name : Value)
      (named : is_none name ≡ false) where
    -- A record that is made in a world whose current span is known.
    record_in_span :
        (w : T.World) (span : T.Span) (c : T.Context)
        → T.get_current w ≡ T.set_span_in_context span c
        → (m : Items) × ((record_factory logging_of a (state_of w name)).0 ≡ ok m)
          × (lookup "otelTraceID" m ≡ some (str (R.trace_id span)))
          × (lookup "otelSpanID" m ≡ some (str (R.span_id span)))
          × (lookup "otelServiceName" m ≡ some name)
    record_in_span w span c current =
        let (r, made) = documented.makes a w in
        let after : State logging_of = state_of (R.old_factory a w).1 name in
        let inside : logging_of.current_span after.world ≡ some span =
          ap R.span_of (documented.keeps a w ∙ current) ∙ documented.set span c in
        let (spec, result) =
          record_factory-expected logging_of a (state_of w name) r name made
            (ap (λ x. x.0) (resolve-cached logging_of after named)) refl in
        (
          stamped logging_of name (logging_of.current_span after.world) r,
          result,
          spec "otelTraceID" ∙ ap (λ o. expected logging_of name o r "otelTraceID") inside,
          spec "otelSpanID" ∙ ap (λ o. expected logging_of name o r "otelSpanID") inside,
          spec "otelServiceName",
        )

    -- An RPC whose message can be read, with instrumentation enabled and no `log_hook` set; the
    -- factory before returns a record and leaves the current context, and the API finds in a
    -- context the span that was set in it. Then the dispatcher runs once in a new span of the
    -- consumer, whose parent is the context of the message, or the current one where it carries
    -- none; and a record that is made in the state in which the dispatcher starts has the ids of
    -- this span and the service name, which was resolved before.
    pub dispatch_records-correlate :
        (repr : Value → String) (laws : KeepsContext T)
        (wrapped : List Value → Items → Exec T.World Value) (args : List Value) (kwargs c m : Items)
        (ctx : T.Context) (w : T.World)
        → T.is_enabled w ≡ true
        → IsReadable T (arg args 0 kwargs "incoming") c m ctx
        → let under = if T.is_empty ctx then T.get_current w else ctx in
          let opened = (T.attach under w).1 in
          (run : RunsInSpan T
            (rpc_server_wrapper repr T wrapped args kwargs w)
            consumer
            under
            opened
            (λ span. wrapped args kwargs)
            (T.detach (T.attach under w).0))
          × (made : Items) × ((record_factory logging_of a
                (state_of (inside T run.args run.notes opened) name)).0
              ≡ ok made)
          × (lookup "otelTraceID" made
              ≡ some (str (R.trace_id (span_from T run.args run.notes opened))))
          × (lookup "otelSpanID" made
              ≡ some (str (R.span_id (span_from T run.args run.notes opened))))
          × (lookup "otelServiceName" made ≡ some name)
    dispatch_records-correlate repr laws wrapped args kwargs c m ctx w enabled readable =
        let run =
          rpc_server_wrapper-delivers repr T laws wrapped args kwargs c m ctx w enabled readable in
        let (made, returned, trace, id, service) = record_in_span _ _ _ run.entered in
        (run, made, returned, trace, id, service)
