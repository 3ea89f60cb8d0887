-- ===== src/Taskflow/Bodies.antt =====
-- listener.py: `_traced_atom_body`, around the functions of the executor that run an atom's body.
use opentelemetry_openstack.Prelude.{update, ℕ, String, none, some, Bool, if◌then◌else◌}
use opentelemetry_openstack.Py.Value.{Value, err, attribute_error}
use opentelemetry_openstack.Py.Exec.{Exec, finally}
use opentelemetry_openstack.Otel.Span.{Telemetry}
use opentelemetry_openstack.Taskflow.Notification.{State, atom_key}
use opentelemetry_openstack.Taskflow.Listener.{TraceListener}

module _ (T : Telemetry) (state_text : State → String) where
  -- `context_api.detach(token)`
  abbrev pub detach_in : T.Token → TraceListener T → TraceListener T
  detach_in token l = record l { world = T.detach token l.world }

  -- The wrapper runs in the thread that runs the body. The body may change all of the state. An
  -- object without a `__dict__` has no `pop` to call.
  unfoldable pub traced_atom_body :
      (ℕ → Bool) → (ℕ → Exec (TraceListener T) Value) → ℕ → Exec (TraceListener T) Value
  unfolding finally
  traced_atom_body has_dict original object l =
      if has_dict object
      then elim (l.contexts object) [
        | none ↦ original object l
        | some context ↦
            let (token, w) = T.attach context l.world in
            let popped : TraceListener T = record l {
              contexts = update l.contexts object none;
              world = w;
            } in
            finally (original object) (detach_in token) popped
      ]
      else (err attribute_error, l)
