-- ===== src/Http/Continuity.antt =====
-- One trace from the client of an HTTP request to the application of the service that gets it.
use opentelemetry_openstack.Prelude.{String, ◌≡◌, refl, true, false, some, List}
use opentelemetry_openstack.Py.Value.{Value, dict, Items, end, put, get, or, lookup, ok}
use opentelemetry_openstack.Py.Exec.{Exec}
use opentelemetry_openstack.Py.Builtins.{Builtins}
use opentelemetry_openstack.Otel.Span.{SpanArgs, client, server, Telemetry}
use opentelemetry_openstack.Otel.Bodies.{RunsInCurrentSpan}
use opentelemetry_openstack.Otel.Laws.{KeepsContext, Propagates}
use opentelemetry_openstack.Session.Request.{Parsing, http_method, http_url, request_wrapper}
use opentelemetry_openstack.Session.Continuity.{IsReadable, request_wrapper-continues}
use opentelemetry_openstack.Keystone.Environ.{environ_get, request_attributes}
use opentelemetry_openstack.Keystone.Middleware.{
  Request, CallArgs, wsgi, StartResponse, call_wrapper,
}
use opentelemetry_openstack.Keystone.Continuity.{IntOfText, call_wrapper-continues}

-- The network and the WSGI server make of a request's headers an environment in which the fields
-- that the propagator injected are those of the headers, and of which the span's attributes can be
-- read.
pub record Serves (b : Builtins) (T : Telemetry) (IsOwn : String → Type 0) (serve : Items → Items)
    : Type 0 where
  pub fields :
      (c : T.Context) (headers : Items) (k : String)
      → T.has_valid_span c ≡ true
      → ¬ IsOwn k
      → environ_get b (serve (T.inject c headers)) k ≡ lookup k (T.inject c headers)
  pub attributes : Items → Items
  pub read :
      (headers : Items) → request_attributes b (dict (serve headers)) ≡ ok (attributes headers)

-- What a request needs so that the client's wrapper can read it.
pub record IsRequest (b : Builtins) (u : Parsing) (args : List Value) (kwargs headers : Items)
    : Type 0 where
  pub method : String
  pub path : Value
  pub has_method : http_method b args kwargs ≡ ok method
  pub has_path : u.path (http_url args kwargs) ≡ ok path
  pub has_headers : u.to_dict (or (get kwargs "headers") (dict end)) ≡ ok headers

module _ (b b' : Builtins) (u : Parsing) (T : Telemetry) (laws : KeepsContext T)
    {IsOwn : String → Type 0} (carries : Propagates T IsOwn) (int_of_text : IntOfText b')
    (valid : (s : T.Span) (c : T.Context) → T.has_valid_span (T.set_span_in_context s c) ≡ true)
    (send : List Value → Items → Exec T.World Value)
    (application : CallArgs b' T → Exec (Request b' T) Value) (args : List Value)
    (kwargs headers : Items) (serve : Items → Items) (start_response : StartResponse b' T)
    (w : T.World) (s : Request b' T) where
  -- The arguments by keyword of the session's method, under the context `c`.
  abbrev pub sent : T.Context → Items
  sent c = put "headers" (dict (T.inject c headers)) kwargs

  -- The call of the service, for a request that was sent under the context `c`.
  abbrev pub arrived : T.Context → StartResponse b' T → Items → CallArgs b' T
  arrived c answer rest = wsgi (dict (serve (T.inject c headers))) answer rest

  -- The session's method is called once, in a new `CLIENT` span whose parent is the client's
  -- current context, with that span's context injected into the headers.
  abbrev pub RequestedOnce : Type 0
  RequestedOnce =
      RunsInCurrentSpan T (request_wrapper b u T send args kwargs w) client w
        (λ span. send args (sent (T.set_span_in_context span (T.get_current w))))

  -- A session sends a request that can be read, and that returns or raises what can be read, from a
  -- client with an enabled instrumentation to a service with one in which no span is current; the
  -- server hands the propagator's fields of the sent headers on in the environment; and the
  -- tracer's spans are valid. Then the request is sent once within a new span of the client's
  -- current context, and the application is called within a new `SERVER` span whose parent is what
  -- the propagator carries of the client's span. Both wrappers end as what they wrap.
  pub http_trace_continues :
      T.is_enabled w ≡ true
      → T.is_enabled s.world ≡ true
      → T.has_valid_span (T.get_current s.world) ≡ false
      → IsReadable T u send
      → IsRequest b u args kwargs headers
      → Serves b' T IsOwn serve
      → (requested : RequestedOnce) × (c : T.Context) × (a : SpanArgs T.Context) × (s' : Request b'
          T)
        × (answer : StartResponse b' T) × (c
            ≡ T.set_span_in_context
                (T.start_as_current_span requested.args w).0.0
                (T.get_current w))
        × (a.kind ≡ server)
        × (a.parent ≡ some (carries.remote c))
        × ((call_wrapper b' T application (arrived c start_response end) s).0
            ≡ (application (arrived c answer end) s').0)
        × (s'.world ≡ (T.start_as_current_span a s.world).1)
        × (T.get_current s'.world
            ≡ T.set_span_in_context (T.start_as_current_span a s.world).0.0 (T.get_current s.world))
  http_trace_continues enabled on entry readable request serves =
      let requested =
        request_wrapper-continues b u T laws send readable args kwargs headers request.method
          request.path w enabled request.has_method request.has_path request.has_headers in
      let c =
        T.set_span_in_context (T.start_as_current_span requested.args w).0.0 (T.get_current w) in
      let (a, s', answer, parent, is_server, named, attributed, started, under, handled) =
        call_wrapper-continues b' T laws carries int_of_text application
          (serve (T.inject c headers)) headers (serves.attributes (T.inject c headers))
          start_response end c s on entry (valid _ _) (λ k. serves.fields c headers k (valid _ _))
          (serves.read _) in
      (requested, c, a, s', answer, refl, is_server, parent, handled, started, under)
