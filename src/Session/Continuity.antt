-- ===== src/Session/Continuity.antt =====
-- keystoneauth1/__init__.py: the span of a session's request, and the call within it.
use opentelemetry_openstack.Prelude.{
  String, ◌≡◌, refl, sym, ap, ◌∙◌, true, List, [], Bool-cases, inl, inr,
}
use opentelemetry_openstack.Py.Value.{
  Value, dict, Items, end, put, get, or, Exn, is_exception, ok, err,
}
use opentelemetry_openstack.Py.Exec.{Exec, pure, ◌>>=◌, outcome_exn, reraising, try_except, raise}
use opentelemetry_openstack.Py.Exec.Laws.{Result-cases, err-ne-ok}
use opentelemetry_openstack.Py.Builtins.{Builtins}
use opentelemetry_openstack.Otel.Span.{
  SpanArgs, client, Telemetry, Note, note_all, with_current_span,
}
use opentelemetry_openstack.Otel.Laws.{KeepsContext}
use opentelemetry_openstack.Otel.Bodies.{RunsInCurrentSpan, recording-note_all}
use opentelemetry_openstack.Otel.Restores.{Restores, Restores-lift, Restores-bind}
use opentelemetry_openstack.Session.Request.{
  Parsing, http_method, http_url, service_type, record_error, record_response, request_args, send,
  inject_and_send, traced_request, request_wrapper,
}

-- What the wrapped request returns or raises can be read.
pub record IsReadable (T : Telemetry) (u : Parsing)
    (wrapped : List Value → Items → Exec T.World Value) : Type 0 where
  pub response :
      (args : List Value) (kwargs : Items) (w : T.World) (v : Value)
      → (wrapped args kwargs w).0 ≡ ok v
      → (record_response u v []).0 ≡ ok tt
  pub error :
      (args : List Value) (kwargs : Items) (w : T.World) (e : Exn)
      → (wrapped args kwargs w).0 ≡ err e
      → (record_error u e []).0 ≡ ok tt

module _ (b : Builtins) (u : Parsing) (T : Telemetry) (laws : KeepsContext T) where
  pub Restores-with_current_span :
      {A : Type 0} (a : SpanArgs T.Context) (body : T.Span → Exec T.World A)
      → Restores T (with_current_span T a body)
  unfolding with_current_span
  Restores-with_current_span a body = record { at = λ w. laws.left_current a _ w _ }

  traced_request-Restores :
      (wrapped : List Value → Items → Exec T.World Value) (args : List Value) (kwargs : Items)
      → Restores T (traced_request b u T wrapped args kwargs)
  unfolding traced_request
  traced_request-Restores wrapped args kwargs =
      Restores-bind _ _ (Restores-lift _)
        (λ method. Restores-bind _ _ (Restores-lift _) (λ path. Restores-with_current_span _ _))

  -- With instrumentation enabled, a request of a session leaves the current context as it was,
  -- whether it returns or raises, and whatever the session does to the context.
  request_wrapper-restores :
      (wrapped : List Value → Items → Exec T.World Value) (args : List Value) (kwargs : Items)
      (w : T.World)
      → T.is_enabled w ≡ true
      → T.get_current (request_wrapper b u T wrapped args kwargs w).1 ≡ T.get_current w
  unfolding request_wrapper
  request_wrapper-restores wrapped args kwargs w enabled =
      rw enabled ((traced_request-Restores wrapped args kwargs).at w)

  -- The call runs once; after it there are calls on the span only.
  send-once :
      (wrapped : List Value → Items → Exec T.World Value) (readable : IsReadable T u wrapped)
      (args : List Value) (kwargs : Items) (span : T.Span) (w : T.World)
      → (notes : List Note) × (send b u T wrapped args kwargs span w
          ≡ ((wrapped args kwargs w).0, note_all T span notes (wrapped args kwargs w).1))
  unfolding send pure reraising try_except raise ◌>>=◌ note_all
  send-once wrapped readable args kwargs span w = elim (Result-cases (wrapped args kwargs w).0) [
    | inl (v, returned) ↦
        let (notes, recorded) =
          recording-note_all T span (record_response u v) (wrapped args kwargs w).1
            (readable.response args kwargs w v returned) in
        (notes, rw (returned, recorded) refl)
    | inr (e, raised) ↦
        let (notes, recorded) =
          recording-note_all T span (record_error u e) (wrapped args kwargs w).1
            (readable.error args kwargs w e raised) in
        elim (Bool-cases (is_exception e)) [
          | inl caught ↦ (notes, rw (raised, caught, recorded) refl)
          | inr passed ↦ ([], rw (raised, passed) refl)
        ]
  ]

  send-keeps :
      (wrapped : List Value → Items → Exec T.World Value) (readable : IsReadable T u wrapped)
      (args : List Value) (kwargs : Items) (span : T.Span) (w : T.World)
      → (send b u T wrapped args kwargs span w).0 ≡ (wrapped args kwargs w).0
  send-keeps wrapped readable args kwargs span w =
      ap (λ x. x.0) (send-once wrapped readable args kwargs span w).1

  injected :
      (wrapped : List Value → Items → Exec T.World Value) (args : List Value)
      (kwargs headers : Items) (span : T.Span) (w : T.World)
      → u.to_dict (or (get kwargs "headers") (dict end)) ≡ ok headers
      → inject_and_send b u T wrapped args kwargs span w
        ≡ send b u T wrapped args
            (put "headers" (dict (T.inject (T.get_current w) headers)) kwargs)
            span
            w
  unfolding inject_and_send
  injected wrapped args kwargs headers span w read = rw (inject_and_send, read) refl

  inject_and_send-returned :
      (wrapped : List Value → Items → Exec T.World Value) (readable : IsReadable T u wrapped)
      (args : List Value) (kwargs : Items) (span : T.Span) (w : T.World) (r : Value)
      → (inject_and_send b u T wrapped args kwargs span w).0 ≡ ok r
      → (ks : Items) × ((wrapped args ks w).0 ≡ ok r)
  unfolding inject_and_send
  inject_and_send-returned wrapped readable args kwargs span w r h =
      elim (Result-cases (u.to_dict (or (get kwargs "headers") (dict end)))) [
        | inl (headers, read) ↦
            (_, sym (send-keeps wrapped readable args _ span w) ∙ (rw (inject_and_send, read) at h))
        | inr (e, refused) ↦ absurd (err-ne-ok (rw (inject_and_send, refused) at h))
      ]

  -- What the wrapper returns, the session's method has returned.
  pub request_wrapper-returned :
      (wrapped : List Value → Items → Exec T.World Value) (readable : IsReadable T u wrapped)
      (args : List Value) (kwargs : Items) (w : T.World) (r : Value)
      → (request_wrapper b u T wrapped args kwargs w).0 ≡ ok r
      → (ks : Items) × (w' : T.World) × ((wrapped args ks w').0 ≡ ok r)
  unfolding request_wrapper traced_request with_current_span ◌>>=◌
  request_wrapper-returned wrapped readable args kwargs w r h = elim (Bool-cases (T.is_enabled w)) [
    | inr off ↦ (kwargs, w, rw (off, request_wrapper) at h)
    | inl on ↦ elim (Result-cases (http_method b args kwargs)) [
      | inr (e, failed) ↦ absurd (err-ne-ok (rw (on, failed) at h))
      | inl (method, named) ↦ elim (Result-cases (u.path (http_url args kwargs))) [
        | inr (e, failed) ↦ absurd (err-ne-ok (rw (on, named, failed) at h))
        | inl (path, parsed) ↦
            let (ks, sent) =
              inject_and_send-returned wrapped readable args kwargs _ _ r
                (rw (on, named, parsed) at h) in
            (ks, _, sent)
      ]
    ]
  ]

  -- With instrumentation enabled, for a request whose method, path and headers can be read, and
  -- which returns or raises what can be read, the session's method is called once, in a new
  -- `CLIENT` span whose parent is the current context, with its arguments but for the headers:
  -- these are the caller's with the span's context injected. The wrapper ends as the method ends,
  -- and does nothing after it but calls on the span and its end.
  pub request_wrapper-continues :
      (wrapped : List Value → Items → Exec T.World Value) (readable : IsReadable T u wrapped)
      (args : List Value) (kwargs headers : Items) (method : String) (path : Value) (w : T.World)
      → T.is_enabled w ≡ true
      → http_method b args kwargs ≡ ok method
      → u.path (http_url args kwargs) ≡ ok path
      → u.to_dict (or (get kwargs "headers") (dict end)) ≡ ok headers
      → RunsInCurrentSpan T (request_wrapper b u T wrapped args kwargs w) client w (λ span.
        wrapped args (
          put "headers"
            (dict (T.inject (T.set_span_in_context span (T.get_current w)) headers))
            kwargs))
  unfolding request_wrapper traced_request with_current_span ◌>>=◌
  request_wrapper-continues wrapped readable args kwargs headers method path w enabled named parsed
        read =
      let a =
        request_args b u T method (http_url args kwargs) path (service_type b kwargs)
          (get kwargs "global_request_id") in
      let ((span, scope), started) = T.start_as_current_span a w in
      let given : T.Context → Items = λ c. put "headers" (dict (T.inject c headers)) kwargs in
      let within = laws.used_current a w in
      let (notes, sent) =
        send-once wrapped readable args (given (T.set_span_in_context span (T.get_current w))) span
          started in
      let body : inject_and_send b u T wrapped args kwargs span started
          ≡ send b u T wrapped args (given (T.set_span_in_context span (T.get_current w))) span
              started =
        injected wrapped args kwargs headers span started read
        ∙ ap (λ c. send b u T wrapped args (given c) span started) within in
      record {
        args = a;
        notes = notes;
        parent = refl;
        own_kind = refl;
        entered = within;
        once =
            rw (enabled, named, parsed)
              (ap (λ x. (x.0, T.leave scope (outcome_exn x.0) x.1)) (body ∙ sent));
      }
