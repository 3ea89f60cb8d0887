-- ===== src/Proxy/Same.antt =====
-- The functions that openstacksdk's package has of its own against those of keystoneauth1's.
use mathlib.Core.List.{append-nil}
use opentelemetry_openstack.Prelude.{
  Bool, none, sym, if◌then◌else◌, ◌≡◌, refl, true, false, List, [], ◌∷◌, arith,
}
use opentelemetry_openstack.Py.Value.{Value, Items, truthy, is_none, ok, getattr}
use opentelemetry_openstack.Py.Exec.{lift, pure, ◌>>=◌, ◌>>◌}
use opentelemetry_openstack.Py.Builtins.{Builtins}
use opentelemetry_openstack.Otel.Span.{Note, emit, attribute, error_status}
use opentelemetry_openstack.Otel.Semconv
use opentelemetry_openstack.Session.Request
use opentelemetry_openstack.Proxy.Response.{
  http_method, http_url, request_url, record_status, record_server, record_response,
}

http_url-same :
    (args : List Value) (kwargs : Items) → http_url args kwargs ≡ Request.http_url args kwargs
unfolding http_url Request.http_url
http_url-same [] kwargs = refl
http_url-same (url ∷ args) kwargs = refl

http_method-same :
    (b : Builtins) (args : List Value) (kwargs : Items)
    → http_method b args kwargs ≡ Request.http_method b args kwargs
unfolding http_method Request.http_method
http_method-same b [] kwargs = refl
http_method-same b (url ∷ []) kwargs = refl
http_method-same b (url ∷ method ∷ args) kwargs = refl

request_url-same : (request : Value) → request_url request ≡ getattr request "url"
request_url-same request = ground arith

emit_nothing : emit [] ≡ pure tt
unfolding emit pure
emit_nothing = λ i ns. (ok tt, append-nil ns i)

emit_if :
    (c : Bool) (n : Note) → (if c then emit (n ∷ []) else pure tt) ≡ emit (if c then n ∷ [] else [])
emit_if true n = refl
emit_if false n = sym emit_nothing

module _ (u : Request.Parsing) where
  record_status-same : (v : Value) → record_status u v ≡ Request.record_status_code u v
  unfolding record_status Request.record_status_code
  record_status-same v = λ i. if is_none v then pure tt else (do
    emit (attribute Semconv.http_response_status_code v ∷ [])
    failed ← lift (Request.is_error u v)
    emit_if failed (error_status none) i)

  record_server-same : (v : Value) → record_server u v ≡ Request.record_parsed u v
  unfolding record_server Request.record_parsed
  record_server-same v = λ i. do
    emit (attribute Semconv.url_full v ∷ [])
    hostname ← lift (u.hostname v)
    emit_if (truthy hostname) (attribute Semconv.server_address hostname) i
    port ← lift (u.port v)
    emit_if (truthy port) (attribute Semconv.server_port port) i

  pub record_response-same : (v : Value) → record_response u v ≡ Request.record_response u v
  unfolding record_response Request.record_response Request.record_url
  record_response-same v = λ i. if is_none v then pure tt else (do
    status_code ← lift (getattr v "status_code")
    record_status-same status_code i
    request ← lift (getattr v "request")
    full_url ← lift (request_url-same request i)
    if truthy full_url then record_server-same full_url i else pure tt)

  -- For any arguments and any response, the method, the URL and what is recorded of the response
  -- are those of the code that keystoneauth1's wrapper has, whether it succeeds or raises.
  helpers-same :
      (b : Builtins) (args : List Value) (kwargs : Items) (response : Value)
      → (http_method b args kwargs ≡ Request.http_method b args kwargs)
        × (http_url args kwargs ≡ Request.http_url args kwargs)
        × (record_response u response ≡ Request.record_response u response)
  helpers-same b args kwargs response =
      (http_method-same b args kwargs, http_url-same args kwargs, record_response-same response)
