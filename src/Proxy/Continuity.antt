-- ===== src/Proxy/Continuity.antt =====
-- openstacksdk/__init__.py: the span of a proxy's request, and the call within it.
use opentelemetry_openstack.Prelude.{String, ◌≡◌, refl, ap, ◌∙◌, true, some, List, [], inl, inr}
use opentelemetry_openstack.Py.Value.{
  Value, dict, Items, end, put, get_default, null, lookup, type_error, ok, err, getattr,
}
use opentelemetry_openstack.Py.Exec.{Exec, pure, ◌>>=◌, outcome_exn}
use opentelemetry_openstack.Py.Exec.Laws.{Result-cases}
use opentelemetry_openstack.Py.Builtins.{Builtins}
use opentelemetry_openstack.Otel.Span.{
  SpanArgs, client, Telemetry, Note, note_all, with_current_span,
}
use opentelemetry_openstack.Otel.Laws.{KeepsContext}
use opentelemetry_openstack.Otel.Bodies.{RunsInCurrentSpan, recording-note_all}
use opentelemetry_openstack.Otel.Restores.{Restores, Restores-lift, Restores-bind}
use opentelemetry_openstack.Session.Request.{Parsing}
use opentelemetry_openstack.Proxy.Response.{http_method, http_url, record_response}
use opentelemetry_openstack.Session.Continuity.{Restores-with_current_span}
use opentelemetry_openstack.Proxy.Request.{
  ProxyMethods, global_request_id, proxy_args, call_with, inject_and_call, traced_proxy_request,
  proxy_request_wrapper,
}

-- What the wrapper reads of the proxy and of the request before it opens the span.
pub record Describes (b : Builtins) (m : ProxyMethods) (instance : Value) (args : List Value)
    (kwargs : Items) : Type 0 where
  pub method : String
  pub request_id : Value
  pub service_type : Value
  pub region_name : Value
  pub name : String
  pub has_method : http_method b args kwargs ≡ ok method
  pub has_request_id : global_request_id m instance args kwargs ≡ ok request_id
  pub has_service_type : getattr instance "service_type" ≡ ok service_type
  pub has_region_name : getattr instance "region_name" ≡ ok region_name
  pub has_name : m.joined_name instance (http_url args kwargs) service_type ≡ ok name

module _ (b : Builtins) (u : Parsing) (m : ProxyMethods) (T : Telemetry)
    (wrapped : List Value → Items → Exec T.World Value) (instance : Value) (args : List Value)
    (kwargs : Items) (w : T.World) (enabled : T.is_enabled w ≡ true) where
  module _ (laws : KeepsContext T) where
    traced_proxy_request-Restores :
        Restores T (traced_proxy_request b u m T wrapped instance args kwargs)
    unfolding traced_proxy_request
    traced_proxy_request-Restores = Restores-bind _ _ (Restores-lift _) (λ method.
        Restores-bind _ _ (Restores-lift _) (λ request_id.
          Restores-bind _ _ (Restores-lift _) (λ service_type.
            Restores-bind _ _ (Restores-lift _) (λ region_name.
              Restores-bind _ _ (Restores-lift _)
                (λ name. Restores-with_current_span b u T laws _ _)))))

    -- With instrumentation enabled, a request of a proxy leaves the current context as it was,
    -- whether it returns or raises, and whatever the proxy does to the context.
    proxy_request_wrapper-restores :
        T.get_current (proxy_request_wrapper b u m T wrapped instance args kwargs w).1
        ≡ T.get_current w
    unfolding proxy_request_wrapper
    proxy_request_wrapper-restores = rw enabled (traced_proxy_request-Restores.at w)

  module _ (d : Describes b m instance args kwargs) where
    abbrev described : SpanArgs T.Context
    described =
        proxy_args b u m T d.method (http_url args kwargs) d.name d.service_type d.region_name
          d.request_id

    -- The wrapper runs the span's body in the span.
    enters :
        proxy_request_wrapper b u m T wrapped instance args kwargs w
        ≡ with_current_span T described (inject_and_call b u m T wrapped args kwargs) w
    unfolding proxy_request_wrapper traced_proxy_request ◌>>=◌
    enters =
        rw
          (
            enabled, d.has_method, d.has_request_id, d.has_service_type, d.has_region_name,
            d.has_name,
          )
          refl

    -- The call runs once; after it there are calls on the span only.
    call_with-once :
        (readable : (xs : List Value) (ks : Items) (v : T.World) (r : Value)
          → (wrapped xs ks v).0 ≡ ok r
          → (record_response u r []).0 ≡ ok tt)
        (ks : Items) (span : T.Span) (v : T.World)
        → (notes : List Note) × (call_with b u m T wrapped args ks span v
            ≡ ((wrapped args ks v).0, note_all T span notes (wrapped args ks v).1))
    unfolding call_with pure ◌>>=◌ note_all
    call_with-once readable ks span v = elim (Result-cases (wrapped args ks v).0) [
      | inl (r, returned) ↦
          let (notes, recorded) =
            recording-note_all T span (record_response u r) (wrapped args ks v).1
              (readable args ks v r returned) in
          (notes, rw (returned, recorded) refl)
      | inr (e, raised) ↦ ([], rw raised refl)
    ]

    -- With instrumentation enabled, for a proxy and a request that can be read, the proxy's method
    -- is called once, in a new `CLIENT` span whose parent is the current context, with its
    -- arguments but for the headers: these are the caller's with the span's context injected. The
    -- wrapper ends as the method ends, if the response that the method returns can be read, and
    -- does nothing after it but calls on the span and its end.
    pub proxy_request_wrapper-continues :
        (laws : KeepsContext T) (headers : Items)
        (readable : (xs : List Value) (ks : Items) (v : T.World) (r : Value)
          → (wrapped xs ks v).0 ≡ ok r
          → (record_response u r []).0 ≡ ok tt)
        → u.to_dict (get_default kwargs "headers" (dict end)) ≡ ok headers
        → RunsInCurrentSpan T
            (proxy_request_wrapper b u m T wrapped instance args kwargs w)
            client
            w
            (λ span. wrapped args (
              put "headers"
                (dict (T.inject (T.set_span_in_context span (T.get_current w)) headers))
                kwargs))
    unfolding with_current_span inject_and_call
    proxy_request_wrapper-continues laws headers readable read =
        let ((span, scope), started) = T.start_as_current_span described w in
        let given : T.Context → Items = λ c. put "headers" (dict (T.inject c headers)) kwargs in
        let within = laws.used_current described w in
        let (notes, called) =
          call_with-once readable (given (T.set_span_in_context span (T.get_current w))) span
            started in
        let body : inject_and_call b u m T wrapped args kwargs span started
            ≡ call_with b u m T wrapped args (given (T.get_current started)) span started =
          rw (inject_and_call, read) refl in
        record {
          args = described;
          notes = notes;
          parent = refl;
          own_kind = refl;
          entered = within;
          once =
              enters
              ∙ ap (λ x. (x.0, T.leave scope (outcome_exn x.0) x.1))
                  (body
                    ∙ (ap (λ c. call_with b u m T wrapped args (given c) span started) within
                        ∙ called));
        }

    -- With instrumentation enabled, for a proxy and a request that can be read, a call with
    -- `headers=None`, which `dict` refuses with a `TypeError`, ends with that error and with the
    -- span's end, without a call of the proxy's method, whatever that would do: the empty mapping
    -- stands in for absent headers only.
    pub proxy_request_wrapper-raises :
        lookup "headers" kwargs ≡ some null
        → u.to_dict null ≡ err type_error
        → (a : SpanArgs T.Context) × (proxy_request_wrapper b u m T wrapped instance args kwargs w
            ≡ (
              err type_error,
              T.leave
                  (T.start_as_current_span a w).0.1
                  (some type_error)
                  (T.start_as_current_span a w).1,
            ))
    unfolding with_current_span inject_and_call get_default
    proxy_request_wrapper-raises given refused =
        (described, enters ∙ rw (inject_and_call, given, refused) refl)
