-- ===== src/Keystone/Continuity.antt =====
-- keystonemiddleware/__init__.py: the spans of a request and of its authentication.
use opentelemetry_openstack.Prelude.{
  ℕ, suc, String, ◌≡◌, refl, ap, ◌∙◌, true, false, Option, none, some, List, [], Bool-cases, inl,
  inr, ◌⊎◌, update, or_else,
}
use opentelemetry_openstack.Py.Value.{
  ℤ, Value, null, str, Items, end, Exn, value_error, lookup, ok, err, dict,
}
use opentelemetry_openstack.Py.Exec.{reraising, Exec, pure, gets, ◌>>=◌}
use opentelemetry_openstack.Py.Exec.Laws.{reraising-keeps_at, bind-ok, bind-keeps}
use opentelemetry_openstack.Py.Builtins.{Builtins}
use opentelemetry_openstack.Otel.Span.{SpanArgs, server, internal, Note, Telemetry, Recorder, emit}
use opentelemetry_openstack.Otel.Laws.{KeepsContext, Propagates}
use opentelemetry_openstack.Keystone.Environ.{
  environ_parent_context, environ_context, environ_get, parent_context, request_attributes,
  status_code, before_space, request_span_name,
}
use opentelemetry_openstack.Keystone.Token.{record_request}
use opentelemetry_openstack.Keystone.Middleware.{
  Request, CallArgs, wsgi, StartResponse, with_current_span, recording, serve, traced_call,
  call_wrapper, request_arg, authenticate, traced_process, process_request_wrapper, request_args,
  authentication_args, traced_start_response, record_status,
}

-- `int` of a text gives a number or raises `ValueError`.
abbrev pub IntOfText : Builtins → Type 0
IntOfText b =
    (t : String) → ((n : ℤ) × (b.to_int (str t) ≡ ok n)) ⊎ (b.to_int (str t) ≡ err value_error)

module _ (b : Builtins) (int_of_text : IntOfText b) where
  status_code-ok : (v : Value) → (c : Option ℤ) × (status_code b v ≡ ok c)
  unfolding status_code
  status_code-ok (str s) = elim (int_of_text (before_space (b.strip s))) [
    | inl (n, parsed) ↦ (some n, rw parsed refl)
    | inr failed ↦ (none, rw failed refl)
  ]
  status_code-ok _ = (none, refl)

  record_status-ok : (v : Value) → (record_status b v []).0 ≡ ok tt
  unfolding record_status ◌>>=◌ emit
  record_status-ok v = let (c, e) = status_code-ok v in rw e refl

module _ (b : Builtins) (T : Telemetry) where
  recording-ok :
      (span : T.Span) (recorder : Recorder (Unit {0})) (s : Request b T)
      → (recorder []).0 ≡ ok tt
      → (recording b T span recorder s).0 ≡ ok tt
  unfolding recording
  recording-ok span recorder s h = elim (Bool-cases (T.is_recording span s.world)) [
    | inl on ↦ rw on h
    | inr off ↦ rw off refl
  ]

  reraising-keeps :
      (m : Exec (Request b T) Value) (on_error : Exn → Exec (Request b T) (Unit {0}))
      (s : Request b T)
      → ((e : Exn) (s' : Request b T) → (on_error e s').0 ≡ ok tt)
      → (reraising m on_error s).0 ≡ (m s).0
  reraising-keeps m on_error s records =
      reraising-keeps_at m on_error s (λ e raised. records e (m s).1)

  module _ (int_of_text : IntOfText b) where
    serve-keeps :
        (call : ℕ) (wrapped : CallArgs b T → Exec (Request b T) Value) (environ : Value)
        (start_response : StartResponse b T) (span : T.Span) (s : Request b T)
        → (serve b T call wrapped environ start_response span s).0
          ≡ (wrapped (wsgi environ (traced_start_response b T call start_response) end) s).0
    unfolding serve pure gets emit
    serve-keeps call wrapped environ start_response span s =
        bind-keeps _ _ s (λ a s'.
          let v = or_else (s'.captured call) null in
          ap (λ x. x.0) (bind-ok _ (gets (λ r. or_else (r.captured call) null)) s' v refl)
          ∙ ap (λ x. x.0)
              (bind-ok (λ _. pure a) (recording b T span (record_status b v)) s' tt
                (recording-ok span (record_status b v) s' (record_status-ok b int_of_text v))))
        ∙ reraising-keeps _ _ s (λ e s'. recording-ok span _ s' refl)

  authenticate-keeps :
      (wrapped : Exec (Request b T) Value) (request : Value) (span : T.Span) (s : Request b T)
      → ((notes : List Note) → (record_request b request notes).0 ≡ ok tt)
      → (authenticate b T wrapped request span s).0 ≡ (wrapped s).0
  unfolding authenticate pure emit
  authenticate-keeps wrapped request span s records =
      bind-keeps _ _ s (λ a s'.
        ap (λ x. x.0)
          (bind-ok (λ _. pure a) (recording b T span (record_request b request)) s' tt
            (recording-ok span (record_request b request) s' (records []))))
      ∙ reraising-keeps _ _ s (λ e s'.
        recording-ok span _ s' (ap (λ x. x.0) (bind-ok _ (emit _) [] tt refl) ∙ records _))

  module _ (laws : KeepsContext T) where
    -- The body of a span's `with` statement runs once, with the span current.
    span_entered :
        (a : SpanArgs T.Context) (body : T.Span → Exec (Request b T) Value) (s : Request b T)
        → (s' : Request b T) × ((with_current_span b T a body s).0
            ≡ (body (T.start_as_current_span a s.world).0.0 s').0)
          × (s'.world ≡ (T.start_as_current_span a s.world).1)
          × (T.get_current s'.world
              ≡ T.set_span_in_context
                  (T.start_as_current_span a s.world).0.0
                  (T.get_current s.world))
    unfolding with_current_span
    span_entered a body s = (
      record s { world = (T.start_as_current_span a s.world).1 },
      refl,
      refl,
      laws.used_current a s.world,
    )

    module _ {IsOwn : String → Type 0} (carries : Propagates T IsOwn) (int_of_text : IntOfText b)
        (wrapped : CallArgs b T → Exec (Request b T) Value) (environ headers attributes : Items)
        (start_response : StartResponse b T) (kwargs : Items) (c : T.Context)
        (s : Request b T) where
      -- With instrumentation enabled, the request reaches a service with no span current. A caller
      -- has injected its context `c`, which has a valid span, into the headers, and the server has
      -- put the propagator's fields of the headers into the environment the way that WSGI does.
      -- Then the application is called within a `SERVER` span that has the request's attributes and
      -- whose parent is what the propagator carries of `c`, and the call ends as the application
      -- ends. `int` of a text raises nothing but `ValueError`.
      pub call_wrapper-continues :
          T.is_enabled s.world ≡ true
          → T.has_valid_span (T.get_current s.world) ≡ false
          → T.has_valid_span c ≡ true
          → ((k : String) → ¬ IsOwn k → environ_get b environ k ≡ lookup k (T.inject c headers))
          → request_attributes b (dict environ) ≡ ok attributes
          → (a : SpanArgs T.Context) × (s' : Request b T) × (sr : StartResponse b T) × (a.parent
              ≡ some (carries.remote c))
            × (a.kind ≡ server)
            × (a.name ≡ request_span_name b (dict environ))
            × (a.attributes ≡ attributes)
            × (s'.world ≡ (T.start_as_current_span a s.world).1)
            × (T.get_current s'.world
                ≡ T.set_span_in_context
                    (T.start_as_current_span a s.world).0.0
                    (T.get_current s.world))
            × ((call_wrapper b T wrapped (wsgi (dict environ) start_response kwargs) s).0
                ≡ (wrapped (wsgi (dict environ) sr end) s').0)
      unfolding call_wrapper traced_call environ_parent_context environ_context ◌>>=◌
      call_wrapper-continues enabled entry valid carried read =
          let a = request_args b T (dict environ) (some (carries.remote c), server) attributes in
          let s1 : Request b T = record s {
            captured = update s.captured s.next none;
            next = suc s.next;
          } in
          let (s', same, started, under) =
            span_entered a (serve b T s.next wrapped (dict environ) start_response) s1 in
          (
            a,
            s',
            traced_start_response b T s.next start_response,
            refl,
            refl,
            refl,
            refl,
            started,
            under,
            rw (enabled, entry, carries.found c headers (environ_get b environ) valid carried, read)
                  same
                ∙ serve-keeps int_of_text s.next wrapped (dict environ) start_response
                    (T.start_as_current_span a s.world).0.0 s',
          )

    -- Where instrumentation is enabled, a span is current, and reading the processed request does
    -- not raise, the request is authenticated within an `INTERNAL` span under the current one, with
    -- the arguments given, and the call ends as the authentication ends.
    pub process_request_wrapper-nests :
        (wrapped : List Value → Items → Exec (Request b T) Value) (args : List Value)
        (kwargs : Items) (s : Request b T)
        → T.is_enabled s.world ≡ true
        → T.has_valid_span (T.get_current s.world) ≡ true
        → ((notes : List Note) → (record_request b (request_arg args kwargs) notes).0 ≡ ok tt)
        → (a : SpanArgs T.Context) × (s' : Request b T) × (a.parent ≡ none)
          × (a.kind ≡ internal)
          × (T.get_current s'.world
              ≡ T.set_span_in_context
                  (T.start_as_current_span a s.world).0.0
                  (T.get_current s.world))
          × ((process_request_wrapper b T wrapped args kwargs s).0 ≡ (wrapped args kwargs s').0)
    unfolding process_request_wrapper traced_process parent_context ◌>>=◌
    process_request_wrapper-nests wrapped args kwargs s enabled active records =
        let a = authentication_args b T (none, internal) in
        let request = request_arg args kwargs in
        let (s', same, started, under) =
          span_entered a (authenticate b T (wrapped args kwargs) request) s in
        (
          a,
          s',
          refl,
          refl,
          under,
          rw (enabled, active) same
              ∙ authenticate-keeps (wrapped args kwargs) request
                  (T.start_as_current_span a s.world).0.0 s' records,
        )
