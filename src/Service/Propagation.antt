-- ===== src/Service/Propagation.antt =====
-- _propagation.py: the wrappers that carry the current context to the work that a thread, a
-- greenthread or a pool runs.
use opentelemetry_openstack.Prelude.{
  ℕ, Option, none, some, List, get_elem?, set, length, leb, update, ◌||◌, not, if◌then◌else◌,
}
use opentelemetry_openstack.Py.Value.{Value, Items}
use opentelemetry_openstack.Py.Exec.{Exec, finally}
use opentelemetry_openstack.Otel.Span.{Telemetry}

module _ (T : Telemetry) where
  open T use {World, Context, get_current, attach, detach, is_enabled}

  -- A callable, as what a call of it does in the thread that makes the call.
  abbrev pub Callable : Type 0
  Callable = List Value → Items → Exec World Value

  -- An argument of a spawn: a callable, or any other value.
  pub data Argument : Type 0 where
    callable : Callable → Argument
    value : Value → Argument

  -- `traced`, around the callable `f`.
  unfoldable pub traced : Context → Callable → Callable
  unfolding finally
  traced captured f call_args call_kwargs w =
      let (token, w') = attach captured w in finally (f call_args call_kwargs) (detach token) w'

  -- The wrapper that `spawn_wrapper(func_index)` returns.
  unfoldable pub spawn_wrapper :
      ℕ → (List Argument → Items → Exec World Value) → List Argument → Items → Exec World Value
  spawn_wrapper func_index wrapped args kwargs w =
      if not (is_enabled w) || leb (length args) func_index
      then wrapped args kwargs w
      else elim (get_elem? args func_index) [
        | some (callable f) ↦
            wrapped (set args func_index (callable (traced (get_current w) f))) kwargs w
        | _ ↦ wrapped args kwargs w
      ]

  -- The API's state, and the attribute `_otel_oslo_service_context` of each thread object.
  pub record Threads : Type 0 where
    pub contexts : ℕ → Option Context
    pub world : World

  -- `_wrap_thread_start`
  unfoldable pub wrap_thread_start : Exec Threads Value → ℕ → Exec Threads Value
  wrap_thread_start wrapped instance s =
      wrapped (record s { contexts = update s.contexts instance (some (get_current s.world)) })

  abbrev pub detach_thread : T.Token → Threads → Threads
  detach_thread token s = record s { world = detach token s.world }

  -- `_wrap_thread_run`
  unfoldable pub wrap_thread_run : Exec Threads Value → ℕ → Exec Threads Value
  unfolding finally
  wrap_thread_run wrapped instance s = elim (s.contexts instance) [
    | none ↦ wrapped s
    | some captured ↦
        let (token, w) = attach captured s.world in
        finally wrapped (detach_thread token) (record s { world = w })
  ]
