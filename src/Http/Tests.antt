-- ===== src/Http/Tests.antt =====
-- A request of a session that arrives at the middleware, on a concrete API.
use opentelemetry_openstack.Prelude.{
  List, [], ◌∷◌, ◌≡◌, refl, true, false, Option, none, some, ◌==◌, eq_iff, inl, inr, Bool-cases,
  arith,
}
use opentelemetry_openstack.Py.Value.{
  Value, pos, int, lookup-put, str, dict, Items, end, item, get, put, lookup, ok,
}
use opentelemetry_openstack.Otel.Span.{SpanArgs, client, server}
use opentelemetry_openstack.Otel.Bodies.{RunsInCurrentSpan}
use opentelemetry_openstack.Otel.Memory.{
  World, Context, memory, quiet, memory-KeepsContext, memory-Propagates, IsProgramKey,
}
use opentelemetry_openstack.Py.Exec.{Exec}
use opentelemetry_openstack.Session.Request.{http_method, http_url, request_wrapper}
use opentelemetry_openstack.Session.Tests as Client
use opentelemetry_openstack.Keystone.Environ.{
  environ_get, environ_key, dashes_to_underscores, request_attributes,
}
use opentelemetry_openstack.Keystone.Middleware.{Request, CallArgs, wsgi, call_wrapper}
use opentelemetry_openstack.Keystone.Tests as Service
use opentelemetry_openstack.Messaging.Tests as Broker
use opentelemetry_openstack.Messaging.Names.{arg}
use opentelemetry_openstack.Messaging.Producer.{inject_wrapper}
use opentelemetry_openstack.Messaging.Continuity.{sent_ctxt, SentOnce, HandledOnce}
use opentelemetry_openstack.Http.Dispatch.{sending, request_reaches_handler}
use opentelemetry_openstack.Http.Continuity.{Serves, IsRequest}

-- A WSGI server that reads one header.
abbrev serve_field : Option Value → Items
serve_field none = item "REQUEST_METHOD" (str "GET") end
serve_field (some v) = item "REQUEST_METHOD" (str "GET") (item "HTTP_TRACEPARENT" v end)

abbrev serve : Items → Items
serve headers = serve_field (lookup "traceparent" headers)

field_served :
    (c : Context) (headers : Items)
    → memory.has_valid_span c ≡ true
    → environ_get Service.builtins (serve (memory.inject c headers)) "traceparent"
      ≡ lookup "traceparent" (memory.inject c headers)
unfolding environ_get environ_key dashes_to_underscores get lookup
field_served none headers h = cc
field_served (some n) headers h =
    rw (lookup-put "traceparent" "traceparent" (int (pos n)) headers) refl

read_served :
    (v : Option Value)
    → request_attributes Service.builtins (dict (serve_field v))
      ≡ ok (item "http.request.method" (str "GET") end)
unfolding request_attributes get lookup put
read_served none = refl
read_served (some v) = refl

serve-Serves : Serves Service.builtins memory IsProgramKey serve
serve-Serves = record {
  fields = λ c headers k h own. elim (Bool-cases (k == "traceparent")) [
    | inl same ↦ rw ((eq_iff k "traceparent").0 same) (field_served c headers h)
    | inr differs ↦ absurd (own (λ e. ground (arith, eq_iff k "traceparent")))
  ];
  attributes = λ headers. item "http.request.method" (str "GET") end;
  read = λ headers. read_served (lookup "traceparent" headers);
}

abbrev accepted : Items
accepted = item "Accept" (str "json") end

args-IsRequest : IsRequest Client.builtins Client.parsing Client.args Client.kwargs accepted
unfolding http_method http_url get lookup
args-IsRequest = record {
  method = "GET";
  path = str "/servers";
  has_method = refl;
  has_path = refl;
  has_headers = refl;
}

arg_ctxt : arg Broker.send_args 1 end "ctxt" ≡ dict Broker.ctxt
unfolding arg
arg_ctxt = refl

-- The application of the service, and the message that the broker hands on.
abbrev called : CallArgs Service.builtins memory → Exec (Request Service.builtins memory) Value
called = sending Broker.show memory Broker.leaky Broker.transport Broker.send_args end

abbrev message : Context → List Value
message c = Broker.received (sent_ctxt memory c Broker.send_args end) ∷ []

request_reaches_handler_example :
    (requested : RunsInCurrentSpan memory
      (request_wrapper Client.builtins Client.parsing memory Client.session Client.args
        Client.kwargs Client.busy)
      client
      Client.busy
      (λ span.
        Client.session Client.args
          (put "headers" (dict (memory.inject (some span) accepted)) Client.kwargs)))
    × (c : Context) × (a : SpanArgs Context) × (v : World) × (c
        ≡ some (memory.start_as_current_span requested.args Client.busy).0.0)
    × (a.kind ≡ server)
    × (a.parent ≡ some (memory-Propagates.remote c))
    × (v ≡ (memory.start_as_current_span a Service.arrival.world).1)
    × (v.current ≡ some (memory.start_as_current_span a Service.arrival.world).0.0)
    × ((call_wrapper Service.builtins memory called
          (wsgi (dict (serve (memory.inject c accepted))) Service.start_response end)
          Service.arrival).0
        ≡ (inject_wrapper Broker.show memory false Broker.leaky Broker.transport Broker.send_args
            end v).0)
    × (cast_once : SentOnce Broker.show memory Broker.leaky Broker.transport Broker.send_args end v)
    × (c' : Context) × (c' ≡ some (memory.start_span cast_once.args v).0)
    × HandledOnce Broker.show memory Broker.failing (message c') (memory-Propagates.remote c') quiet
request_reaches_handler_example =
    request_reaches_handler Client.builtins Service.builtins Client.parsing Broker.show memory
      memory-KeepsContext memory-Propagates Service.builtins-IntOfText (λ s c. refl) (λ a w on. on)
      Client.session Client.args Client.kwargs accepted serve Service.start_response Broker.leaky
      Broker.failing Broker.transport Broker.send_args end Broker.ctxt Broker.body Broker.received
      Client.busy Service.arrival quiet refl refl refl refl Client.session-IsReadable args-IsRequest
      serve-Serves Broker.is_sendable arg_ctxt Broker.delivery
