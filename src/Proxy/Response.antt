-- ===== src/Proxy/Response.antt =====
-- openstacksdk/__init__.py: `_http_method`, `_http_url` and `_record_response`, which this package
-- has of its own.
use opentelemetry_openstack.Prelude.{String, none, List, [], ◌∷◌, if◌then◌else◌}
use opentelemetry_openstack.Py.Value.{
  Value, null, str, Items, get, or, truthy, is_none, Result, ok, getattr,
}
use opentelemetry_openstack.Py.Exec.{lift, pure, ◌>>=◌, ◌>>◌}
use opentelemetry_openstack.Py.Builtins.{Builtins}
use opentelemetry_openstack.Otel.Semconv
use opentelemetry_openstack.Otel.Span.{attribute, error_status, Recorder, emit}
use opentelemetry_openstack.Session.Request.{Parsing, upper_of, is_error}

-- `args[1] if len(args) > 1 else kwargs.get("method")`
abbrev pub method_arg : List Value → Items → Value
method_arg (url ∷ method ∷ args) kwargs = method
method_arg _ kwargs = get kwargs "method"

-- `_http_method`
unfoldable pub http_method : Builtins → List Value → Items → Result String
http_method b args kwargs = upper_of b (or (method_arg args kwargs) (str ""))

-- `args[0] if len(args) > 0 else kwargs.get("url")`
abbrev pub url_arg : List Value → Items → Value
url_arg (url ∷ args) kwargs = url
url_arg [] kwargs = get kwargs "url"

-- `_http_url`
unfoldable pub http_url : List Value → Items → Value
http_url args kwargs = or (url_arg args kwargs) (str "")

-- `getattr(request, "url", None) if request is not None else None`
abbrev pub request_url : Value → Result Value
request_url request = if is_none request then ok null else getattr request "url"

module _ (u : Parsing) where
  -- The status of the response, where it has one.
  unfoldable pub record_status : Value → Recorder (Unit {0})
  record_status status_code = if is_none status_code then pure tt else (do
    emit (attribute Semconv.http_response_status_code status_code ∷ [])
    failed ← lift (is_error u status_code)
    if failed then emit (error_status none ∷ []) else pure tt)

  -- The URL, and what it says of the server.
  unfoldable pub record_server : Value → Recorder (Unit {0})
  record_server full_url = do
    emit (attribute Semconv.url_full full_url ∷ [])
    hostname ← lift (u.hostname full_url)
    if truthy hostname then emit (attribute Semconv.server_address hostname ∷ []) else pure tt
    port ← lift (u.port full_url)
    if truthy port then emit (attribute Semconv.server_port port ∷ []) else pure tt

  -- `_record_response`
  unfoldable pub record_response : Value → Recorder (Unit {0})
  record_response response = if is_none response then pure tt else (do
    status_code ← lift (getattr response "status_code")
    record_status status_code
    request ← lift (getattr response "request")
    full_url ← lift (request_url request)
    if truthy full_url then record_server full_url else pure tt)
