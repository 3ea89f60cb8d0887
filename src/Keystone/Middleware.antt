-- ===== src/Keystone/Middleware.antt =====
-- keystonemiddleware/__init__.py: the wrappers of `BaseAuthProtocol.__call__` and
-- `BaseAuthProtocol.process_request`.
use opentelemetry_openstack.Prelude.{
  ℕ, Bool, false, Option, none, some, List, [], ◌∷◌, if◌then◌else◌, leb, or_else, update, suc,
}
use opentelemetry_openstack.Py.Value.{ℤ, pos, negsuc, Value, null, int, Items, end, get, Exn, ok}
use opentelemetry_openstack.Py.Exec.{reraising, Exec, lift, gets, pure, outcome_exn, ◌>>=◌, ◌>>◌}
use opentelemetry_openstack.Py.Builtins.{Builtins}
use opentelemetry_openstack.Otel.Semconv
use opentelemetry_openstack.Otel.Span.{
  SpanKind, Note, attribute, error_status, SpanArgs, Telemetry, Recorder, emit, note_all,
}
use opentelemetry_openstack.Keystone.Environ.{
  environ_parent_context, parent_context, request_attributes, request_span_name, status_code,
}
use opentelemetry_openstack.Keystone.Token.{record_request}

-- `status_code >= 500`
abbrev pub is_server_error : ℤ → Bool
is_server_error (pos n) = leb 500 n
is_server_error (negsuc n) = false

abbrev pub status_notes : Option ℤ → List Note
status_notes none = []
status_notes (some code) =
    attribute Semconv.http_response_status_code (int code)
    ∷ (if is_server_error code then error_status none ∷ [] else [])

-- `_record_status`
unfoldable pub record_status : Builtins → Value → Recorder (Unit {0})
record_status b status_line = do code ← lift (status_code b status_line); emit (status_notes code)

-- `_request_arg`
unfoldable pub request_arg : List Value → Items → Value
request_arg [] kwargs = get kwargs "request"
request_arg (request ∷ args) kwargs = request

module _ (b : Builtins) (T : Telemetry) where
  open T use {World, Context, Span, is_recording, start_as_current_span, leave, is_enabled}

  -- The API's state, and the entry `status` of the dictionaries `captured`, one for each traced
  -- call.
  pub record Request : Type 0 where
    pub world : World
    pub captured : ℕ → Option Value
    pub next : ℕ

  -- A `start_response`, given the status, the headers and `exc_info`.
  abbrev pub StartResponse : Type 0
  StartResponse = Value → Value → Value → Exec Request Value

  -- How `__call__` is called: with two positional arguments, or in another way.
  pub data CallArgs : Type 0 where
    wsgi : Value → StartResponse → Items → CallArgs
    other : List Value → Items → CallArgs

  abbrev pub on_world : {A : Type 0} → Exec World A → Exec Request A
  on_world m s = let (r, w) = m s.world in (r, record s { world = w })

  abbrev leave_span : T.Scope → Option Exn → Request → Request
  leave_span scope e s = record s { world = leave scope e s.world }

  -- `with tracer.start_as_current_span(…) as span: body`
  unfoldable pub with_current_span :
      {A : Type 0} → SpanArgs Context → (Span → Exec Request A) → Exec Request A
  with_current_span a body s =
      let ((span, scope), w) = start_as_current_span a s.world in
      let (r, s') = body span (record s { world = w }) in (r, leave_span scope (outcome_exn r) s')

  -- A recorder under `if span.is_recording()`.
  unfoldable pub recording : Span → Recorder (Unit {0}) → Exec Request (Unit {0})
  recording span recorder s =
      if is_recording span s.world
      then ((recorder []).0, record s { world = note_all T span (recorder []).1 s.world })
      else (ok tt, s)

  -- `traced_start_response`
  unfoldable pub traced_start_response : ℕ → StartResponse → StartResponse
  traced_start_response call start_response status headers exc_info s =
      start_response status headers exc_info
        (record s { captured = update s.captured call (some status) })

  -- The body of the request's span.
  unfoldable pub serve :
      ℕ → (CallArgs → Exec Request Value) → Value → StartResponse → Span → Exec Request Value
  serve call wrapped environ start_response span = do
    result ←
        reraising (wrapped (wsgi environ (traced_start_response call start_response) end))
          (λ e. recording span (emit (error_status (some (b.exn_text e)) ∷ [])))
    captured ← gets (λ s. or_else (s.captured call) null)
    recording span (record_status b captured)
    pure result

  abbrev pub request_args : Value → Option Context × SpanKind → Items → SpanArgs Context
  request_args environ (parent, kind) attributes = record {
    name = request_span_name b environ;
    kind = kind;
    parent = parent;
    attributes = attributes;
  }

  unfoldable pub traced_call :
      ℕ → (CallArgs → Exec Request Value) → Value → StartResponse → Exec Request Value
  traced_call call wrapped environ start_response = do
    entry ← on_world (environ_parent_context b T environ)
    attributes ← lift (request_attributes b environ)
    with_current_span (request_args environ entry attributes)
        (serve call wrapped environ start_response)

  -- The wrapper of `__call__`; its dictionary `captured` is new.
  unfoldable pub call_wrapper : (CallArgs → Exec Request Value) → CallArgs → Exec Request Value
  call_wrapper wrapped (other args kwargs) s = wrapped (other args kwargs) s
  call_wrapper wrapped (wsgi environ start_response kwargs) s =
      if is_enabled s.world
      then traced_call s.next wrapped environ start_response
          (record s { captured = update s.captured s.next none; next = suc s.next })
      else wrapped (wsgi environ start_response kwargs) s

  abbrev pub authentication_args : Option Context × SpanKind → SpanArgs Context
  authentication_args (parent, kind) = record {
    name = "keystonemiddleware.authenticate";
    kind = kind;
    parent = parent;
    attributes = end;
  }

  -- The body of the authentication's span.
  unfoldable pub authenticate : Exec Request Value → Value → Span → Exec Request Value
  authenticate wrapped request span = do
    result ← reraising wrapped (λ e.
        recording span (emit (error_status (some (b.exn_text e)) ∷ []) >> record_request b request))
    recording span (record_request b request)
    pure result

  unfoldable pub traced_process :
      (List Value → Items → Exec Request Value) → List Value → Items → Exec Request Value
  traced_process wrapped args kwargs = do
    let request = request_arg args kwargs
    entry ← on_world (parent_context b T request)
    with_current_span (authentication_args entry) (authenticate (wrapped args kwargs) request)

  -- The wrapper of `process_request`.
  unfoldable pub process_request_wrapper :
      (List Value → Items → Exec Request Value) → List Value → Items → Exec Request Value
  process_request_wrapper wrapped args kwargs s =
      if is_enabled s.world then traced_process wrapped args kwargs s else wrapped args kwargs s
