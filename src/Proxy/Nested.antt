-- ===== src/Proxy/Nested.antt =====
-- A request of a proxy of the SDK that a session of keystoneauth1 sends, with both instrumented.
use opentelemetry_openstack.Prelude.{String, ◌≡◌, refl, ◌∙◌, true, List, []}
use opentelemetry_openstack.Py.Value.{
  Value, dict, Items, end, put, get, get_default, or-dict, lookup, ok,
}
use opentelemetry_openstack.Py.Exec.{Exec}
use opentelemetry_openstack.Py.Builtins.{Builtins}
use opentelemetry_openstack.Otel.Span.{SpanArgs, client, Telemetry}
use opentelemetry_openstack.Otel.Bodies.{RunsInCurrentSpan}
use opentelemetry_openstack.Otel.Laws.{KeepsContext, Propagates}
use opentelemetry_openstack.Session.Request
use opentelemetry_openstack.Session.Continuity.{
  IsReadable, request_wrapper-continues, request_wrapper-returned,
}
use opentelemetry_openstack.Proxy.Request.{ProxyMethods, proxy_request_wrapper}
use opentelemetry_openstack.Proxy.Response.{record_response}
use opentelemetry_openstack.Proxy.Same.{record_response-same}
use opentelemetry_openstack.Proxy.Continuity.{Describes, proxy_request_wrapper-continues}

-- The arguments that the proxy's method calls the session's with: the headers are handed on, and
-- the session's wrapper can read the method and the path.
pub record Forwards (b : Builtins) (u : Request.Parsing)
    (forward : List Value → Items → List Value × Items) (args : List Value) (kwargs : Items)
    : Type 0 where
  pub headers :
      (h : Items) → get (forward args (put "headers" (dict h) kwargs)).1 "headers" ≡ dict h
  pub method : Items → String
  pub path : Items → Value
  pub has_method :
      (h : Items)
      → Request.http_method b
          (forward args (put "headers" (dict h) kwargs)).0
          (forward args (put "headers" (dict h) kwargs)).1
        ≡ ok (method h)
  pub has_path :
      (h : Items)
      → u.path (
          Request.http_url
            (forward args (put "headers" (dict h) kwargs)).0
            (forward args (put "headers" (dict h) kwargs)).1)
        ≡ ok (path h)

-- The proxy's method, which calls the session's wrapped one.
abbrev pub through_session :
    (b : Builtins) (u : Request.Parsing) (T : Telemetry)
    → (List Value → Items → Exec T.World Value)
    → (List Value → Items → List Value × Items)
    → List Value
    → Items
    → Exec T.World Value
through_session b u T send forward xs ks =
    Request.request_wrapper b u T send (forward xs ks).0 (forward xs ks).1

module _ (b : Builtins) (u : Request.Parsing) (m : ProxyMethods) (T : Telemetry)
    (laws : KeepsContext T) {IsOwn : String → Type 0} (carries : Propagates T IsOwn)
    (valid : (s : T.Span) (c : T.Context) → T.has_valid_span (T.set_span_in_context s c) ≡ true)
    (stays : (a : SpanArgs T.Context) (w : T.World)
      → T.is_enabled w ≡ true
      → T.is_enabled (T.start_as_current_span a w).1 ≡ true)
    (mapping : (d : Items) → u.to_dict (dict d) ≡ ok d)
    (send : List Value → Items → Exec T.World Value)
    (forward : List Value → Items → List Value × Items) (instance : Value) (args : List Value)
    (kwargs headers : Items) (w : T.World) where
  -- What the session's wrapper returns, the proxy's can read.
  recorded :
      IsReadable T u send
      → (xs : List Value) (ks : Items) (v : T.World) (r : Value)
      → (through_session b u T send forward xs ks v).0 ≡ ok r
      → (record_response u r []).0 ≡ ok tt
  recorded readable xs ks v r h =
      let (ks', v', returned) =
        request_wrapper-returned b u T laws send readable (forward xs ks).0 (forward xs ks).1 v r
          h in
      rw (record_response-same u r) (readable.response (forward xs ks).0 ks' v' r returned)

  -- The session's method is called once, in a new `CLIENT` span whose parent is the context that
  -- is current in `v`, with that span's context injected into the headers `h`.
  abbrev pub RequestedOnce : List Value → Items → Items → T.World → Type 0
  RequestedOnce xs ks h v =
      RunsInCurrentSpan T (Request.request_wrapper b u T send xs ks v) client v (λ span.
        send xs
          (put "headers" (dict (T.inject (T.set_span_in_context span (T.get_current v)) h)) ks))

  -- A proxy's request goes through a session whose `request` is wrapped too; both can read it, and
  -- the session's can read what is returned or raised; the proxy's method hands its headers on to
  -- the session's; `dict` copies a mapping; the instrumentation is enabled, and starting a span
  -- leaves it so; spans are valid. Then the proxy's method runs once, in a new `CLIENT` span whose
  -- parent is the current context; the session's wrapper, which it calls, sends the request once,
  -- in a new `CLIENT` span whose parent is the context with the proxy's span; the propagator reads
  -- the session's span from the headers that are sent, which otherwise are the caller's; and each
  -- wrapper ends as what it wraps.
  pub proxy_over_session :
      T.is_enabled w ≡ true
      → Describes b m instance args kwargs
      → u.to_dict (get_default kwargs "headers" (dict end)) ≡ ok headers
      → Forwards b u forward args kwargs
      → IsReadable T u send
      → (outer : RunsInCurrentSpan T
          (proxy_request_wrapper b u m T
            (through_session b u T send forward)
            instance
            args
            kwargs
            w)
          client
          w
          (λ span. through_session b u T send forward args (
            put "headers"
              (dict (T.inject (T.set_span_in_context span (T.get_current w)) headers))
              kwargs)))
        × (v : T.World) × (h : Items) × (v ≡ (T.start_as_current_span outer.args w).1)
        × (T.get_current v
            ≡ T.set_span_in_context (T.start_as_current_span outer.args w).0.0 (T.get_current w))
        × (h ≡ T.inject (T.get_current v) headers)
        × (inner : RequestedOnce
            (forward args (put "headers" (dict h) kwargs)).0
            (forward args (put "headers" (dict h) kwargs)).1
            h
            v)
        × (c : T.Context) × (c
            ≡ T.set_span_in_context (T.start_as_current_span inner.args v).0.0 (T.get_current v))
        × (T.extract (dict (T.inject c h)) ≡ ok (carries.remote c))
        × ((k : String) → IsOwn k → lookup k (T.inject c h) ≡ lookup k headers)
  proxy_over_session enabled described read forwards readable =
      let outer =
        proxy_request_wrapper-continues b u m T (through_session b u T send forward) instance args
          kwargs w enabled described laws headers (recorded readable) read in
      let v = (T.start_as_current_span outer.args w).1 in
      let h = T.inject (T.get_current v) headers in
      let (xs, ks) = forward args (put "headers" (dict h) kwargs) in
      let inner =
        request_wrapper-continues b u T laws send readable xs ks h (forwards.method h)
          (forwards.path h) v (stays outer.args w enabled) (forwards.has_method h)
          (forwards.has_path h) (rw (forwards.headers h, or-dict h) (mapping h)) in
      let c = T.set_span_in_context (T.start_as_current_span inner.args v).0.0 (T.get_current v) in
      (
        outer,
        v,
        h,
        refl,
        outer.entered,
        refl,
        inner,
        c,
        refl,
        (carries.extracted c h (valid _ _)).0,
        λ k own. carries.unwritten c h k own ∙ carries.unwritten (T.get_current v) headers k own,
      )
