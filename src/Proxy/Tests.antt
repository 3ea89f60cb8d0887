-- ===== src/Proxy/Tests.antt =====
-- A proxy's request on a concrete API.
use opentelemetry_openstack.Prelude.{
  true, false, ℕ, String, ◌≡◌, refl, some, List, [], ◌∷◌, ◌==◌, if◌then◌else◌,
}
use opentelemetry_openstack.Py.Value.{
  pos, Value, nil, null, int, str, dict, obj, bare, attr, Items, end, item, put, get, get_default,
  lookup, type_error, Result, ok, err,
}
use opentelemetry_openstack.Py.Exec.{Exec, pure, ◌>>=◌}
use opentelemetry_openstack.Py.Builtins.{Builtins}
use opentelemetry_openstack.Otel.Span.{SpanArgs, client, emit}
use opentelemetry_openstack.Otel.Bodies.{RunsInCurrentSpan}
use opentelemetry_openstack.Otel.Memory.{World, Context, memory, quiet, memory-KeepsContext}
use opentelemetry_openstack.Session.Request.{Parsing, is_error}
use opentelemetry_openstack.Proxy.Response.{
  http_method, record_response, record_status, record_server,
}
use opentelemetry_openstack.Py.Wrapt.{Target}
use opentelemetry_openstack.Py.Wrapt.Stacks.{stacks, stacks-Replaces}
use opentelemetry_openstack.Proxy.Instrumentor.{
  instrument_clients, uninstrument_clients, uninstrument-instrument_clients,
}
use opentelemetry_openstack.Proxy.Request.{
  ProxyMethods, given_request_id, global_request_id, proxy_request_wrapper,
}
use opentelemetry_openstack.Session.Request as Keystoneauth
use opentelemetry_openstack.Session.Continuity.{IsReadable}
use opentelemetry_openstack.Otel.Bodies.{RunsInCurrentSpan}
use opentelemetry_openstack.Otel.Memory.{memory-Propagates, IsProgramKey}
use opentelemetry_openstack.Proxy.Nested.{Forwards, through_session, proxy_over_session}
use opentelemetry_openstack.Proxy.Continuity.{
  Describes, proxy_request_wrapper-continues, proxy_request_wrapper-raises,
}

abbrev builtins : Builtins
builtins = record {
  repr = λ v. "?";
  exn_text = λ e. "failed";
  upper = λ s. if s == "get" then "GET" else s;
  lower = λ s. s;
  strip = λ s. s;
  to_int = λ v. err type_error;
  iterate = λ v. ok nil;
}

abbrev mapping : Value → Result Items
mapping (dict d) = ok d
mapping _ = err type_error

abbrev parsing : Parsing
parsing = record {
  path = λ v. ok v;
  hostname = λ v. ok (str "host");
  port = λ v. ok null;
  to_dict = mapping;
  float_at_least_400 = λ text. false;
}

-- A response with an error's status, and the request that it answers.
abbrev answer : Value
answer = obj [] (
    attr "status_code" (int (pos 404))
      (attr "request" (obj [] (attr "url" (str "http://host/servers") bare)) bare))

-- A method that leaves another context behind.
abbrev request_method : List Value → Items → Exec World Value
request_method args kwargs w = (ok answer, record w { current = some 9 })

answer_recorded : (record_response parsing answer []).0 ≡ ok tt
unfolding record_response record_status record_server is_error emit pure ◌>>=◌
answer_recorded = refl

-- keystoneauth1's wrapper records it too.
session_recorded : (Keystoneauth.record_response parsing answer []).0 ≡ ok tt
unfolding Keystoneauth.record_response Keystoneauth.record_status_code Keystoneauth.record_url
    Keystoneauth.record_parsed is_error emit pure ◌>>=◌
session_recorded = refl

answers_recorded :
    (xs : List Value) (ks : Items) (v : World) (r : Value)
    → (request_method xs ks v).0 ≡ ok r
    → (record_response parsing r []).0 ≡ ok tt
answers_recorded xs ks v r h = let recorded = answer_recorded in cc

-- The connection has a request id, and the proxy a service and no region.
abbrev methods : ProxyMethods
methods = record {
  get_connection = λ v. ok (obj [] (attr "_global_request_id" (str "req-1") bare));
  joined_name = λ v url service. ok "servers";
}

abbrev proxy : Value
proxy = obj [] (attr "service_type" (str "compute") bare)

abbrev args : List Value
args = str "/servers" ∷ str "get" ∷ []

abbrev kwargs : Items
kwargs = item "headers" (dict (item "Accept" (str "json") end)) end

-- Within the span 4.
abbrev busy : World
busy = record quiet { current = some 4; next = 5 }

described :
    (ks : Items) → get ks "global_request_id" ≡ null → Describes builtins methods proxy args ks
unfolding http_method global_request_id given_request_id
described ks absent = record {
  method = "GET";
  request_id = str "req-1";
  service_type = str "compute";
  region_name = null;
  name = "servers";
  has_method = refl;
  has_request_id = rw absent refl;
  has_service_type = refl;
  has_region_name = refl;
  has_name = refl;
}

without_id : get kwargs "global_request_id" ≡ null
unfolding get lookup
without_id = refl

proxy_request_wrapper-continues_example :
    RunsInCurrentSpan memory
      (proxy_request_wrapper builtins parsing methods memory request_method proxy args kwargs busy)
      client
      busy
      (λ span.
        request_method args (
          put "headers" (dict (memory.inject (some span) (item "Accept" (str "json") end))) kwargs))
unfolding get_default lookup
proxy_request_wrapper-continues_example =
    proxy_request_wrapper-continues builtins parsing methods memory request_method proxy args kwargs
      busy refl (described kwargs without_id) memory-KeepsContext (item "Accept" (str "json") end)
      answers_recorded refl

-- `headers=None`
abbrev none_headers : Items
none_headers = item "headers" null end

none_headers_without_id : get none_headers "global_request_id" ≡ null
unfolding get lookup
none_headers_without_id = refl

proxy_request_wrapper-raises_example :
    (a : SpanArgs Context) × (proxy_request_wrapper builtins parsing methods memory request_method
        proxy args none_headers busy
      ≡ (
        err type_error,
        memory.leave
            (memory.start_as_current_span a busy).0.1
            (some type_error)
            (memory.start_as_current_span a busy).1,
      ))
unfolding lookup
proxy_request_wrapper-raises_example =
    proxy_request_wrapper-raises builtins parsing methods memory request_method proxy args
      none_headers busy refl (described none_headers none_headers_without_id) refl refl

-- The method hands its arguments on as they are.
abbrev forward : List Value → Items → List Value × Items
forward xs ks = (xs, ks)

forward-Forwards : Forwards builtins parsing forward args kwargs
unfolding Keystoneauth.http_method Keystoneauth.http_url get lookup put
forward-Forwards = record {
  headers = λ h. refl;
  method = λ h. "GET";
  path = λ h. str "/servers";
  has_method = λ h. refl;
  has_path = λ h. refl;
}

request_method-IsReadable : IsReadable memory parsing request_method
request_method-IsReadable = record {
  response = λ xs ks v r h. let recorded = session_recorded in cc;
  error = λ xs ks v e h. cc;
}

abbrev over_session : List Value → Items → Exec World Value
over_session = through_session builtins parsing memory request_method forward

proxy_over_session_example :
    (outer : RunsInCurrentSpan memory
      (proxy_request_wrapper builtins parsing methods memory over_session proxy args kwargs busy)
      client
      busy
      (λ span.
        over_session args (
          put "headers"
            (dict (memory.inject (some span) (item "Accept" (str "json") end)))
            kwargs)))
    × (v : World) × (h : Items) × (v ≡ (memory.start_as_current_span outer.args busy).1)
    × (v.current ≡ some (memory.start_as_current_span outer.args busy).0.0)
    × (h ≡ memory.inject v.current (item "Accept" (str "json") end))
    × (inner : RunsInCurrentSpan memory
        (Keystoneauth.request_wrapper builtins parsing memory request_method args
          (put "headers" (dict h) kwargs)
          v)
        client
        v
        (λ span.
          request_method args
            (put "headers" (dict (memory.inject (some span) h)) (put "headers" (dict h) kwargs))))
    × (c : Context) × (c ≡ some (memory.start_as_current_span inner.args v).0.0)
    × (memory.extract (dict (memory.inject c h)) ≡ ok (memory-Propagates.remote c))
    × ((k : String)
        → IsProgramKey k
        → lookup k (memory.inject c h) ≡ lookup k (item "Accept" (str "json") end))
unfolding get_default lookup
proxy_over_session_example =
    proxy_over_session builtins parsing methods memory memory-KeepsContext memory-Propagates
      (λ s c. refl) (λ a w on. on) (λ d. refl) request_method forward proxy args kwargs
      (item "Accept" (str "json") end) busy refl (described kwargs without_id) refl forward-Forwards
      request_method-IsReadable

-- The wrappers, by number.
abbrev session : ℕ
session = 1

abbrev proxy_wrapper : ℕ
proxy_wrapper = 2

uninstrument-instrument_clients_example :
    ((instrument_clients stacks session proxy_wrapper true (λ t. some [])).0 ≡ ok tt)
    × ((instrument_clients stacks session proxy_wrapper true (λ t. some [])).1
          ("keystoneauth1.session.Session", "request")
        ≡ some (session ∷ []))
    × ((instrument_clients stacks session proxy_wrapper true (λ t. some [])).1
          ("openstack.proxy.Proxy", "request")
        ≡ some (proxy_wrapper ∷ []))
    × ((uninstrument_clients stacks session proxy_wrapper
          (instrument_clients stacks session proxy_wrapper true (λ t. some [])).1).0
        ≡ ok tt)
    × ((j : Target)
        → (uninstrument_clients stacks session proxy_wrapper
              (instrument_clients stacks session proxy_wrapper true (λ t. some [])).1).1
            j
          ≡ some [])
uninstrument-instrument_clients_example =
    uninstrument-instrument_clients stacks stacks-Replaces session proxy_wrapper [] []
      (λ t. some []) refl refl
