-- ===== src/Keystone/Scope.antt =====
-- keystonemiddleware/__init__.py: the current context before and after the wrappers.
use opentelemetry_openstack.Prelude.{ℕ, ◌≡◌, refl, ap, ◌∙◌, true, List, Bool-cases, inl, inr}
use opentelemetry_openstack.Py.Value.{Value, Items, Result, ok, err}
use opentelemetry_openstack.Py.Exec.{Exec, lift, ◌>>=◌}
use opentelemetry_openstack.Py.Builtins.{Builtins}
use opentelemetry_openstack.Otel.Span.{SpanArgs, Telemetry}
use opentelemetry_openstack.Otel.Laws.{KeepsContext}
use opentelemetry_openstack.Keystone.Environ.{
  environ_parent_context, parent_context, request_attributes,
}
use opentelemetry_openstack.Keystone.Middleware.{
  Request, on_world, CallArgs, wsgi, StartResponse, with_current_span, traced_call, call_wrapper,
  request_arg, traced_process, process_request_wrapper,
}

module _ (b : Builtins) (T : Telemetry) (laws : KeepsContext T) where
  -- Code that leaves the current context as it found it, whether it returns or raises.
  Restores : {A : Type 0} → Exec (Request b T) A → Type 0
  Restores m = (s : Request b T) → T.get_current (m s).1.world ≡ T.get_current s.world

  Restores-with_current_span :
      {A : Type 0} (a : SpanArgs T.Context) (body : T.Span → Exec (Request b T) A)
      → Restores (with_current_span b T a body)
  unfolding with_current_span Restores
  Restores-with_current_span a body s = laws.left_current a _ s.world _

  Restores-continue :
      {A B : Type 0} (r : Result A) (f : A → Exec (Request b T) B)
      → ((a : A) → Restores (f a))
      → Restores (lift r >>= f)
  unfolding ◌>>=◌ Restores
  Restores-continue (ok a) f keeps s = keeps a s
  Restores-continue (err e) f keeps s = refl

  Restores-bind :
      {A B : Type 0} (m : Exec (Request b T) A) (f : A → Exec (Request b T) B)
      → Restores m
      → ((a : A) → Restores (f a))
      → Restores (m >>= f)
  unfolding ◌>>=◌ Restores
  Restores-bind m f first keeps s = Restores-continue (m s).0 f keeps (m s).1 ∙ first s

  environ_parent_context-keeps :
      (environ : Value) (w : T.World) → (environ_parent_context b T environ w).1 ≡ w
  unfolding environ_parent_context
  environ_parent_context-keeps environ w = elim (Bool-cases (T.has_valid_span (T.get_current w))) [
    | inl active ↦ rw active refl
    | inr entry ↦ rw entry refl
  ]

  parent_context-keeps : (request : Value) (w : T.World) → (parent_context b T request w).1 ≡ w
  unfolding parent_context
  parent_context-keeps request w = elim (Bool-cases (T.has_valid_span (T.get_current w))) [
    | inl active ↦ rw active refl
    | inr entry ↦ rw entry refl
  ]

  traced_call-Restores :
      (call : ℕ) (wrapped : CallArgs b T → Exec (Request b T) Value) (environ : Value)
      (start_response : StartResponse b T)
      → Restores (traced_call b T call wrapped environ start_response)
  unfolding traced_call Restores
  traced_call-Restores call wrapped environ start_response =
      Restores-bind (on_world b T (environ_parent_context b T environ)) _
        (λ s. ap T.get_current (environ_parent_context-keeps environ s.world))
        (λ entry.
          Restores-continue (request_attributes b environ) _
            (λ attributes. Restores-with_current_span _ _))

  traced_process-Restores :
      (wrapped : List Value → Items → Exec (Request b T) Value) (args : List Value) (kwargs : Items)
      → Restores (traced_process b T wrapped args kwargs)
  unfolding traced_process Restores
  traced_process-Restores wrapped args kwargs =
      Restores-bind (on_world b T (parent_context b T (request_arg args kwargs))) _
        (λ s. ap T.get_current (parent_context-keeps (request_arg args kwargs) s.world))
        (λ entry. Restores-with_current_span _ _)

  module _ (s : Request b T) (enabled : T.is_enabled s.world ≡ true) where
    call_wrapper-restores :
        (wrapped : CallArgs b T → Exec (Request b T) Value) (environ : Value)
        (start_response : StartResponse b T) (kwargs : Items)
        → T.get_current (call_wrapper b T wrapped (wsgi environ start_response kwargs) s).1.world
          ≡ T.get_current s.world
    unfolding call_wrapper Restores
    call_wrapper-restores wrapped environ start_response kwargs =
        rw enabled (traced_call-Restores s.next wrapped environ start_response _)

    process_request_wrapper-restores :
        (wrapped : List Value → Items → Exec (Request b T) Value) (args : List Value)
        (kwargs : Items)
        → T.get_current (process_request_wrapper b T wrapped args kwargs s).1.world
          ≡ T.get_current s.world
    unfolding process_request_wrapper Restores
    process_request_wrapper-restores wrapped args kwargs =
        rw enabled (traced_process-Restores wrapped args kwargs s)

    -- With instrumentation enabled, a WSGI call of the middleware and the authentication of a
    -- request each leave the current context as it was, whether they return or raise, and whatever
    -- the application or the authentication does to the context.
    pub middleware-restores :
        (call : CallArgs b T → Exec (Request b T) Value) (environ : Value)
        (start_response : StartResponse b T)
        (process : List Value → Items → Exec (Request b T) Value) (args : List Value)
        (kwargs : Items)
        → (T.get_current (call_wrapper b T call (wsgi environ start_response kwargs) s).1.world
            ≡ T.get_current s.world)
          × (T.get_current (process_request_wrapper b T process args kwargs s).1.world
              ≡ T.get_current s.world)
    middleware-restores call environ start_response process args kwargs = (
      call_wrapper-restores call environ start_response kwargs,
      process_request_wrapper-restores process args kwargs,
    )
