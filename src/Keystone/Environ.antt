-- ===== src/Keystone/Environ.antt =====
-- keystonemiddleware/__init__.py: what the request's span gets from the WSGI environment.
use Prim.Native.Char.{code}
use Prim.Native.String.{[], ◌∷◌}
use mathlib.Core.List as L
use opentelemetry_openstack.Prelude.{
  String, List, Option, none, some, concat, nat_eq, if◌then◌else◌, ◌==◌,
}
use opentelemetry_openstack.Py.Value.{
  ℤ, Value, int, str, dict, Items, end, item, put, get, or, truthy, is_none, text_of, type_error,
  value_error, Result, ok, err, getattr,
}
use opentelemetry_openstack.Py.Exec.{Exec}
use opentelemetry_openstack.Py.Builtins.{Builtins}
use opentelemetry_openstack.Otel.Semconv
use opentelemetry_openstack.Otel.Span.{SpanKind, internal, server, Telemetry}

-- `key.replace("-", "_")`
unfoldable pub dashes_to_underscores : String → String
dashes_to_underscores [] = ""
dashes_to_underscores (c ∷ s) =
    let rest = dashes_to_underscores s in if nat_eq (code c) b'-' then concat "_" rest else c ∷ rest

-- `key.replace("_", "-")`
unfoldable pub underscores_to_dashes : String → String
underscores_to_dashes [] = ""
underscores_to_dashes (c ∷ s) =
    let rest = underscores_to_dashes s in if nat_eq (code c) b'_' then concat "-" rest else c ∷ rest

-- `key[len(prefix):]`, where `key.startswith(prefix)`
unfoldable pub after_prefix : String → String → Option String
after_prefix [] s = some s
after_prefix (c ∷ p) [] = none
after_prefix (c ∷ p) (d ∷ s) =
    let rest = after_prefix p s in if nat_eq (code c) (code d) then rest else none

-- `code, _, _ = s.partition(" ")`
unfoldable pub before_space : String → String
before_space [] = ""
before_space (c ∷ s) = let rest = before_space s in if nat_eq (code c) b' ' then "" else c ∷ rest

abbrev pub request_span_label : String
request_span_label = "keystonemiddleware.request"

module _ (b : Builtins) where
  -- The entry of the environment in which WSGI keeps a header.
  unfoldable pub environ_key : String → String
  environ_key key = concat "HTTP_" (dashes_to_underscores (b.upper key))

  -- `_WSGIEnvironGetter.get`, as the one value of its list. An entry that is `None` is not found.
  unfoldable pub environ_get : Items → String → Option Value
  environ_get carrier key =
      let found = get carrier (environ_key key) in if is_none found then none else some found

  abbrev pub listed : Option String → List String → List String
  listed none rest = rest
  listed (some name) rest = L.◌∷◌ (b.lower (underscores_to_dashes name)) rest

  -- `_WSGIEnvironGetter.keys`
  unfoldable pub environ_keys : Items → List String
  environ_keys end = L.[]
  environ_keys (item key v d) = listed (after_prefix "HTTP_" key) (environ_keys d)

  -- `if v: attributes[k] = str(v)`
  abbrev put_text : String → Value → Items → Items
  put_text k v attributes =
      if truthy v then put k (str (text_of b.repr v)) attributes else attributes

  -- The `try` around `int(port)`.
  abbrev pub put_port : Result ℤ → Items → Result Items
  put_port (ok n) attributes = ok (put Semconv.server_port (int n) attributes)
  put_port (err type_error) attributes = ok attributes
  put_port (err value_error) attributes = ok attributes
  put_port (err e) attributes = err e

  -- `_request_attributes`
  unfoldable pub request_attributes : Value → Result Items
  request_attributes (dict environ) =
      let attributes = put_text Semconv.server_address (get environ "SERVER_NAME") (
        put_text Semconv.url_scheme (get environ "wsgi.url_scheme") (
          put_text Semconv.url_path (get environ "PATH_INFO")
            (put_text Semconv.http_request_method (get environ "REQUEST_METHOD") end))) in
      let port = get environ "SERVER_PORT" in
      if is_none port then ok attributes else put_port (b.to_int port) attributes
  request_attributes _ = ok end

  -- `int(code)`, where only `ValueError` is caught.
  abbrev pub parsed_code : Result ℤ → Result (Option ℤ)
  parsed_code (ok n) = ok (some n)
  parsed_code (err value_error) = ok none
  parsed_code (err e) = err e

  -- `_status_code`
  unfoldable pub status_code : Value → Result (Option ℤ)
  status_code (str status_line) = parsed_code (b.to_int (str (before_space (b.strip status_line))))
  status_code _ = ok none

  abbrev pub named : String → String → String
  named method path =
      if method == ""
      then request_span_label
      else if path == ""
      then method
      else concat method (concat " " path)

  -- `_request_span_name`
  unfoldable pub request_span_name : Value → String
  request_span_name (dict environ) =
      named (b.upper (text_of b.repr (or (get environ "REQUEST_METHOD") (str ""))))
        (text_of b.repr (or (get environ "PATH_INFO") (str "")))
  request_span_name _ = request_span_label

  module _ (T : Telemetry) where
    open T use {World, Context, get_current, has_valid_span, extract, extract_by}

    -- What an extraction gives to a span that enters the trace.
    abbrev entering : Result Context → Result (Option Context × SpanKind)
    entering (ok c) = ok (some c, server)
    entering (err e) = err e

    -- The context that the environment's headers carry.
    unfoldable pub environ_context : Value → Result (Option Context × SpanKind)
    environ_context (dict environ) = entering (extract_by (environ_get environ))
    environ_context _ = ok (none, server)

    -- `_environ_parent_context`
    unfoldable pub environ_parent_context : Value → Exec World (Option Context × SpanKind)
    environ_parent_context environ w =
        if has_valid_span (get_current w)
        then (ok (none, internal), w)
        else (environ_context environ, w)

    -- The context that the request's headers carry.
    unfoldable pub headers_context : Result Value → Result (Option Context × SpanKind)
    headers_context (ok headers) =
        if is_none headers then ok (none, server) else entering (extract headers)
    headers_context (err e) = err e

    -- `_parent_context`
    unfoldable pub parent_context : Value → Exec World (Option Context × SpanKind)
    parent_context request w =
        if has_valid_span (get_current w)
        then (ok (none, internal), w)
        else (headers_context (getattr request "headers"), w)
