-- ===== src/Proxy/Request.antt =====
-- openstacksdk/__init__.py: the wrapper of `Proxy.request`.
use opentelemetry_openstack.Prelude.{String, none, List, get_elem?, concat, if◌then◌else◌, or_else}
use opentelemetry_openstack.Py.Value.{
  Value, str, dict, Items, end, item, put, get, get_default, truthy, is_none, text_of, Result, ok,
  err, getattr,
}
use opentelemetry_openstack.Py.Exec.{Exec, lift, pure, ◌>>=◌, ◌>>◌}
use opentelemetry_openstack.Py.Builtins.{Builtins}
use opentelemetry_openstack.Otel.Semconv
use opentelemetry_openstack.Otel.Span.{client, SpanArgs, Telemetry, with_current_span, recording}
use opentelemetry_openstack.Session.Request.{Parsing}
use opentelemetry_openstack.Proxy.Response.{http_method, http_url, record_response}

-- The methods of the proxy that the wrapper calls: `_get_connection()`, `None` where it has no such
-- method, and `'.'.join(_extract_name(url=…, service_type=…))`. They change none of the state.
pub record ProxyMethods : Type 0 where
  pub get_connection : Value → Result Value
  pub joined_name : Value → Value → Value → Result String

-- The request id that the call is given.
unfoldable pub given_request_id : List Value → Items → Value
given_request_id args kwargs =
    let request_id = get kwargs "global_request_id" in
    if is_none request_id then or_else (get_elem? args 5) request_id else request_id

-- `_global_request_id`
unfoldable pub global_request_id : ProxyMethods → Value → List Value → Items → Result Value
global_request_id m instance args kwargs =
    let request_id = given_request_id args kwargs in
    if truthy request_id then ok request_id else elim (m.get_connection instance) [
      | ok connection ↦ getattr connection "_global_request_id"
      | err e ↦ err e
    ]

module _ (b : Builtins) (u : Parsing) (m : ProxyMethods) (T : Telemetry) where
  open T use {World, Context, Span, get_current, inject, is_enabled}

  abbrev put_text : String → Value → Items → Items
  put_text key v attributes =
      if truthy v then put key (str (text_of b.repr v)) attributes else attributes

  abbrev put_value : String → Value → Items → Items
  put_value key v attributes = if truthy v then put key v attributes else attributes

  abbrev pub proxy_args : String → Value → String → Value → Value → Value → SpanArgs Context
  proxy_args method url name service_type region_name request_id = record {
    name = concat method (concat " " name);
    kind = client;
    parent = none;
    attributes = put_text Semconv.messaging_message_conversation_id request_id (
        put_value "openstack.region_name" region_name (
          put_value "openstack.service_type" service_type
            (item Semconv.http_request_method (str method) (item Semconv.http_route url end))));
  }

  -- The call with the given headers, and what follows it.
  unfoldable pub call_with :
      (List Value → Items → Exec World Value) → List Value → Items → Span → Exec World Value
  call_with wrapped args kwargs span = do
    response ← wrapped args kwargs
    recording T span (record_response u response)
    pure response

  -- The body of the span. `headers` that is `None` is an argument of `dict`.
  unfoldable pub inject_and_call :
      (List Value → Items → Exec World Value) → List Value → Items → Span → Exec World Value
  inject_and_call wrapped args kwargs span w =
      elim (u.to_dict (get_default kwargs "headers" (dict end))) [
        | err e ↦ (err e, w)
        | ok headers ↦
            call_with wrapped args (put "headers" (dict (inject (get_current w) headers)) kwargs)
              span w
      ]

  unfoldable pub traced_proxy_request :
      (List Value → Items → Exec World Value) → Value → List Value → Items → Exec World Value
  traced_proxy_request wrapped instance args kwargs = do
    method ← lift (http_method b args kwargs)
    let url = http_url args kwargs
    request_id ← lift (global_request_id m instance args kwargs)
    service_type ← lift (getattr instance "service_type")
    region_name ← lift (getattr instance "region_name")
    name ← lift (m.joined_name instance url service_type)
    with_current_span T (proxy_args method url name service_type region_name request_id)
        (inject_and_call wrapped args kwargs)

  -- `_request_wrapper(tracer)`
  unfoldable pub proxy_request_wrapper :
      (List Value → Items → Exec World Value) → Value → List Value → Items → Exec World Value
  proxy_request_wrapper wrapped instance args kwargs w =
      if is_enabled w
      then traced_proxy_request wrapped instance args kwargs w
      else wrapped args kwargs w
