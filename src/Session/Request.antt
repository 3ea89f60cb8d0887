-- ===== src/Session/Request.antt =====
-- keystoneauth1/__init__.py: the wrapper of `Session.request`.
use opentelemetry_openstack.Prelude.{
  ℕ, String, Bool, true, false, Option, none, some, List, [], ◌∷◌, get_elem?, concat, leb,
  if◌then◌else◌, ◌==◌,
}
use opentelemetry_openstack.Py.Value.{
  pos, negsuc, Value, null, bool, int, float, str, dict, Items, end, item, put, get, or, truthy,
  is_none, text_of, Exn, other, attribute_error, type_error, Result, ok, err, getattr,
}
use opentelemetry_openstack.Py.Exec.{Exec, lift, pure, reraising, ◌>>=◌, ◌>>◌}
use opentelemetry_openstack.Py.Builtins.{Builtins}
use opentelemetry_openstack.Otel.Semconv
use opentelemetry_openstack.Otel.Span.{
  client, attribute, error_status, SpanArgs, Telemetry, Recorder, emit, with_current_span,
  recording,
}

-- `urllib.parse.urlparse`, as the parts of its result that are read, `dict(v)`, and the
-- comparison of a `float`.
pub record Parsing : Type 0 where
  pub path : Value → Result Value
  pub hostname : Value → Result Value
  pub port : Value → Result Value
  pub to_dict : Value → Result Items
  -- `x >= 400`, of a `float` by its text
  pub float_at_least_400 : String → Bool

-- `args[index] if len(args) > index else kwargs.get(name)`
abbrev pub request_arg : List Value → ℕ → Items → String → Value
request_arg args index kwargs name = elim (get_elem? args index) [
  | some v ↦ v
  | none ↦ get kwargs name
]

-- `_http_url`
unfoldable pub http_url : List Value → Items → Value
http_url args kwargs = or (request_arg args 0 kwargs "url") (str "")

abbrev pub upper_of : Builtins → Value → Result String
upper_of b (str s) = ok (b.upper s)
upper_of b v = err attribute_error

-- `_http_method`. Only a text has `upper`.
unfoldable pub http_method : Builtins → List Value → Items → Result String
http_method b args kwargs = upper_of b (or (request_arg args 1 kwargs "method") (str ""))

-- `_url_path`
abbrev pub url_path : Parsing → Value → Result Value
url_path u url = u.path url

-- `service_type`, `none` where it is not true.
unfoldable pub service_type : Builtins → Items → Option String
service_type b kwargs = elim (get kwargs "endpoint_filter") [
  | dict endpoint_filter ↦
      let found = get endpoint_filter "service_type" in
      if truthy found then some (text_of b.repr found) else none
  | _ ↦ none
]

-- `if v: span.set_attribute(key, v)`
abbrev set_true : String → Value → Recorder (Unit {0})
set_true key v = emit (if truthy v then attribute key v ∷ [] else [])

module _ (u : Parsing) where
  -- The part of `_record_url` after its early return.
  unfoldable pub record_parsed : Value → Recorder (Unit {0})
  record_parsed full_url = do
    emit (attribute Semconv.url_full full_url ∷ [])
    hostname ← lift (u.hostname full_url)
    set_true Semconv.server_address hostname
    port ← lift (u.port full_url)
    set_true Semconv.server_port port

  -- `_record_url`. `None` has no `url`, so the test on the request is not needed.
  unfoldable pub record_url : Value → Recorder (Unit {0})
  record_url response = do
    request ← lift (getattr response "request")
    full_url ← lift (getattr request "url")
    if truthy full_url then record_parsed full_url else pure tt

  -- `status_code >= 400`
  unfoldable pub is_error : Value → Result Bool
  is_error (int (pos n)) = ok (leb 400 n)
  is_error (int (negsuc n)) = ok false
  is_error (bool v) = ok false
  is_error (float nonzero text) = ok (u.float_at_least_400 text)
  is_error v = err type_error

  unfoldable pub record_status_code : Value → Recorder (Unit {0})
  record_status_code status_code = if is_none status_code then pure tt else (do
    emit (attribute Semconv.http_response_status_code status_code ∷ [])
    failed ← lift (is_error status_code)
    emit (if failed then error_status none ∷ [] else []))

  -- `_record_response`
  unfoldable pub record_response : Value → Recorder (Unit {0})
  record_response response = if is_none response then pure tt else (do
    status_code ← lift (getattr response "status_code")
    record_status_code status_code
    record_url response)

  -- An exception as an object with attributes.
  abbrev exn_object : Exn → Value
  exn_object (other derives text o) = o
  exn_object e = null

  -- `isinstance(v, int)`
  abbrev is_int : Value → Bool
  is_int (int n) = true
  is_int (bool v) = true
  is_int v = false

  -- `_record_error`
  unfoldable pub record_error : Exn → Recorder (Unit {0})
  record_error exc = do
    status_code ← lift (getattr (exn_object exc) "http_status")
    emit (
        if is_int status_code
        then attribute Semconv.http_response_status_code status_code ∷ []
        else [])
    response ← lift (getattr (exn_object exc) "response")
    record_url response

module _ (b : Builtins) (u : Parsing) (T : Telemetry) where
  open T use {World, Context, Span, get_current, inject, is_enabled}

  abbrev put_some : String → Option String → Items → Items
  put_some key none attributes = attributes
  put_some key (some v) attributes = if v == "" then attributes else put key (str v) attributes

  abbrev pub request_args : String → Value → Value → Option String → Value → SpanArgs Context
  request_args method url path service request_id =
      let attributes =
        put_some "openstack.service_type" service
          (item Semconv.http_request_method (str method) (item Semconv.http_route url end)) in
      record {
        name = if truthy path then concat method (concat " " (text_of b.repr path)) else method;
        kind = client;
        parent = none;
        attributes =
            if truthy request_id
            then put Semconv.messaging_message_conversation_id (str (text_of b.repr request_id))
                attributes
            else attributes;
      }

  -- The `try` of the wrapper, and what follows it.
  unfoldable pub send :
      (List Value → Items → Exec World Value) → List Value → Items → Span → Exec World Value
  send wrapped args kwargs span = do
    response ← reraising (wrapped args kwargs) (λ e. recording T span (record_error u e))
    recording T span (record_response u response)
    pure response

  -- The body of the span: the headers are a copy of the caller's.
  unfoldable pub inject_and_send :
      (List Value → Items → Exec World Value) → List Value → Items → Span → Exec World Value
  inject_and_send wrapped args kwargs span w =
      elim (u.to_dict (or (get kwargs "headers") (dict end))) [
        | err e ↦ (err e, w)
        | ok headers ↦
            send wrapped args (put "headers" (dict (inject (get_current w) headers)) kwargs) span w
      ]

  unfoldable pub traced_request :
      (List Value → Items → Exec World Value) → List Value → Items → Exec World Value
  traced_request wrapped args kwargs = do
    method ← lift (http_method b args kwargs)
    let url = http_url args kwargs
    path ← lift (url_path u url)
    with_current_span T
        (request_args method url path (service_type b kwargs) (get kwargs "global_request_id"))
        (inject_and_send wrapped args kwargs)

  -- `_request_wrapper(tracer)`
  unfoldable pub request_wrapper :
      (List Value → Items → Exec World Value) → List Value → Items → Exec World Value
  request_wrapper wrapped args kwargs w =
      if is_enabled w then traced_request wrapped args kwargs w else wrapped args kwargs w
