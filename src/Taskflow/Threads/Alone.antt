-- ===== src/Taskflow/Threads/Alone.antt =====
-- A thread that is not interrupted.
use opentelemetry_openstack.Prelude.{
  ℕ, zero, suc, String, ◌≡◌, refl, Bool, true, false, Option, List, [], ◌∷◌, Option-cases, inl, inr,
  arith,
}
use opentelemetry_openstack.Py.Dict.{lookup}
use opentelemetry_openstack.Otel.Span.{Note, Telemetry, note_all}
use opentelemetry_openstack.Taskflow.Notification.{
  State, running, success, failure, reverting, reverted, revert_failure, suspended, execute, revert,
  Method, Kind, Details, Failure, Notification, flow, atom, atom_key, atom_start_method,
  atom_finish_method, flow_finish_state,
}
use opentelemetry_openstack.Taskflow.Listener.{
  Graph, TraceListener, finish_flow, flow_receiver, hand_over, give_context, start_atom,
  finish_atom, on_atom, receive,
}
use opentelemetry_openstack.Taskflow.Listener.Steps.{swallowed}
use opentelemetry_openstack.Taskflow.Threads.{
  Thread, idle, started, ending, lock_finish_flow, lock_start_atom, lock_finish_atom, notify,
  test_cache, fill_cache, read_cache, go_on, steps_left,
}

module _ {T : Telemetry} (state_text : State → String) (graph : Graph) where
  -- `n` steps of a thread without a step of another one.
  unfoldable pub go_on_for : ℕ → TraceListener T × Thread T → TraceListener T × Thread T
  go_on_for zero at = at
  go_on_for (suc n) at = go_on_for n (go_on T state_text graph at)

  go_on_for-idle : (n : ℕ) (l : TraceListener T) → go_on_for n (l, idle) ≡ (l, idle)
  unfolding go_on_for go_on
  go_on_for-idle zero l = refl
  go_on_for-idle (suc n) l = go_on_for-idle n l

  go_on_for-ending :
      (span : T.Span) (ns : List Note) (l : TraceListener T)
      → go_on_for (steps_left T state_text (ending span ns)) (l, ending span ns)
        ≡ (record l { world = T.end_span span (note_all T span ns l.world) }, idle)
  unfolding go_on_for go_on note_all
  go_on_for-ending span [] l = refl
  go_on_for-ending span (n ∷ ns) l =
      go_on_for-ending span ns (record l { world = T.note span n l.world })

  abbrev run_on : TraceListener T × Thread T → TraceListener T × Thread T
  run_on at = go_on_for (steps_left T state_text at.1) at

  run_on-started :
      (name : Option String) (span : T.Span) (l : TraceListener T)
      → go_on_for 4 (l, started name span) ≡ ((give_context T state_text graph name span l).1, idle)
  unfolding go_on_for go_on test_cache fill_cache read_cache give_context hand_over
  run_on-started name span l = ground arith

  finish_flow-alone :
      (state : State) (failed : Bool) (l : TraceListener T)
      → run_on (lock_finish_flow T state_text state failed l)
        ≡ (finish_flow T state_text state failed l, idle)
  unfolding lock_finish_flow finish_flow
  finish_flow-alone state failed l = elim (Option-cases l.flow_span) [
    | inl closed ↦ rw (closed, lock_finish_flow, finish_flow) (go_on_for-idle 0 _)
    | inr (span, found) ↦ rw (found, lock_finish_flow, finish_flow) (go_on_for-ending span _ _)
  ]

  start_atom-alone :
      (kind : Kind) (name uuid : Option String) (method : Method) (l : TraceListener T)
      → run_on (lock_start_atom T state_text kind name uuid method l)
        ≡ ((start_atom T state_text graph kind name uuid method l).1, idle)
  unfolding lock_start_atom start_atom
  start_atom-alone kind name uuid method l =
      elim (Option-cases (lookup (uuid, method) l.atom_spans)) [
        | inl fresh ↦ rw (fresh, lock_start_atom, start_atom) (run_on-started name _ _)
        | inr (span, found) ↦ rw (found, lock_start_atom, start_atom) (go_on_for-idle 0 l)
      ]

  finish_atom-alone :
      (uuid : Option String) (method : Method) (failed : Bool) (result : Option Failure)
      (l : TraceListener T)
      → run_on (lock_finish_atom T state_text uuid method failed result l)
        ≡ (finish_atom T state_text uuid method failed result l, idle)
  unfolding lock_finish_atom finish_atom
  finish_atom-alone uuid method failed result l =
      elim (Option-cases (lookup (uuid, method) l.atom_spans)) [
        | inl absent ↦ rw (absent, lock_finish_atom, finish_atom) (go_on_for-idle 0 l)
        | inr (span, found) ↦ rw (found, lock_finish_atom, finish_atom) (go_on_for-ending span _ _)
      ]

  flow-alone :
      (state : State) (details : Details) (l : TraceListener T)
      → run_on (notify T state_text (flow state details) l)
        ≡ (flow_receiver T state_text state details l, idle)
  unfolding notify flow_receiver flow_finish_state
  flow-alone running details l = go_on_for-idle 0 _
  flow-alone success details l = finish_flow-alone success false l
  flow-alone failure details l = finish_flow-alone failure true l
  flow-alone reverted details l = finish_flow-alone reverted true l
  flow-alone revert_failure details l = finish_flow-alone revert_failure true l
  flow-alone suspended details l = finish_flow-alone suspended false l
  flow-alone _ details l = go_on_for-idle 0 l

  atom-alone :
      (kind : Kind) (state : State) (details : Details) (l : TraceListener T)
      → run_on (notify T state_text (atom kind state details) l)
        ≡ ((on_atom T state_text graph kind state details l).1, idle)
  unfolding notify on_atom atom_start_method atom_finish_method
  atom-alone kind running d l = rw swallowed (start_atom-alone kind d.name d.uuid execute l)
  atom-alone kind reverting d l = rw swallowed (start_atom-alone kind d.name d.uuid revert l)
  atom-alone kind success d l = rw swallowed (finish_atom-alone d.uuid execute false d.result l)
  atom-alone kind failure d l = rw swallowed (finish_atom-alone d.uuid execute true d.result l)
  atom-alone kind reverted d l = rw swallowed (finish_atom-alone d.uuid revert false d.result l)
  atom-alone kind revert_failure d l =
      rw swallowed (finish_atom-alone d.uuid revert true d.result l)
  atom-alone kind _ d l = rw swallowed (go_on_for-idle 0 l)

  -- A thread that is notified and goes on without an interruption is idle after the steps that its
  -- state counts, and leaves the listener, the atoms and the API's state as the whole receiver
  -- does.
  pub notify-alone :
      (n : Notification) (l : TraceListener T)
      → go_on_for (steps_left T state_text (notify T state_text n l).1) (notify T state_text n l)
        ≡ (receive T state_text graph n l, idle)
  unfolding receive
  notify-alone (flow state details) l = flow-alone state details l
  notify-alone (atom kind state details) l = atom-alone kind state details l
