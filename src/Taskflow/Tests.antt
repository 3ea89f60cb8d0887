-- ===== src/Taskflow/Tests.antt =====
-- Runs of the TaskFlow listener over the in-memory API, and the theorems at concrete engines.
use opentelemetry_openstack.Prelude.{
  ℕ, String, ◌≡◌, refl, true, false, Option, none, some, List, [], ◌∷◌, inr, map, member,
}
use opentelemetry_openstack.Py.Value.{Value, ok, err, attribute_error}
use opentelemetry_openstack.Py.Exec.{Exec, pure, try_except}
use opentelemetry_openstack.Py.Dict.{lookup, put, erase, string_key}
use opentelemetry_openstack.Otel.Span.{SpanArgs, note_all}
use opentelemetry_openstack.Otel.Memory.{memory, quiet}
use opentelemetry_openstack.Taskflow.Notification.{
  State, running, failure, suspended, task, retry, execute, Details, Notification, flow, atom,
  atom_key, atom_start_method, atom_finish_method, flow_finish_state,
}
use opentelemetry_openstack.Taskflow.Listener.{
  Graph, TraceListener, collect, create, start_flow, finish_flow, flow_receiver, hand_over,
  open_atom, give_context, start_atom, finish_atom, set_failure, on_atom, receive, receive_all,
}
use opentelemetry_openstack.Taskflow.Listener.Protocol.{
  Implements, advance_all, idle, create-Implements, receive_all-Implements,
}
use opentelemetry_openstack.Taskflow.Listener.Parent.{
  IsLinked, receive_all-IsLinked, atom_span_is_child,
}
use opentelemetry_openstack.Taskflow.Bodies.{traced_atom_body}
use opentelemetry_openstack.Taskflow.Patching.{
  Process, patch_loop, patch_atom_bodies, unpatch_atom_bodies, instrument_engines, instrument,
  uninstrument,
}
use opentelemetry_openstack.Taskflow.Patching.Partly.{instrument-stays_partly}
use opentelemetry_openstack.Taskflow.Patching.Restored.{Pristine, uninstrument-instrument}

listens : Unit {0}
unfolding receive_all receive flow_receiver start_flow finish_flow flow_finish_state on_atom
    start_atom open_atom give_context hand_over finish_atom set_failure collect create
    atom_start_method atom_finish_method lookup put erase note_all try_except pure traced_atom_body
listens = tt

abbrev text : State → String
text failure = "FAILURE"
text _ = "?"

-- A graph with a flow pattern, an atom, and an atom that refuses attributes.
abbrev graph : Graph
graph = some (
    record { name = some "pattern"; executes = false; object = 1; sealed = false }
    ∷ record { name = some "a"; executes = true; object = 2; sealed = false }
    ∷ record { name = some "b"; executes = true; object = 3; sealed = true }
    ∷ [])

abbrev of : String → Details
of s = record { name = some s; uuid = some s; result = none }

abbrev fresh : TraceListener memory
fresh = create memory text quiet

-- A flow starts, both atoms start, one is notified twice, one fails, and the flow is suspended.
abbrev notices : List Notification
notices =
    flow running (of "f")
    ∷ atom task running (of "a")
    ∷ atom task running (of "a")
    ∷ atom retry running (of "b")
    ∷ atom task failure (of "a")
    ∷ flow suspended (of "f")
    ∷ []

abbrev after : List Notification → TraceListener memory
after ns = receive_all memory text graph ns fresh

-- One span for the flow and one for each atom; the flow's and the first atom's are ended, and the
-- second atom's is still open.
spans_run :
    (map (λ (n, a). SpanArgs.name a) (after notices).world.started
      ≡ "taskflow.retry.execute" ∷ "taskflow.task.execute" ∷ "taskflow.flow.run" ∷ [])
    × ((after notices).world.ended ≡ 0 ∷ 1 ∷ [])
    × ((after notices).atom_spans ≡ ((some "b", execute), 2) ∷ [])
unfolding listens
spans_run = (refl, refl, refl)

receive_all-Implements_example : Implements (after notices) (advance_all notices idle)
receive_all-Implements_example =
    receive_all-Implements text graph notices fresh idle (create-Implements text quiet)

abbrev started : TraceListener memory
started = after (flow running (of "f") ∷ [])

started-IsLinked : IsLinked started
unfolding listens
started-IsLinked = inr (0, none, refl, refl)

receive_all-IsLinked_example : IsLinked (receive_all memory text graph notices started)
receive_all-IsLinked_example = receive_all-IsLinked text graph notices started started-IsLinked

atom_span_is_child_example :
    (a : SpanArgs (Option ℕ)) × (c : Option ℕ) × (a.parent ≡ some (some 0))
    × (a.name ≡ "taskflow.task.execute")
    × ((receive memory text graph (atom task running (of "a")) started).world
        ≡ (memory.start_span a started.world).1)
    × (lookup
          (some "a", execute)
          (receive memory text graph (atom task running (of "a")) started).atom_spans
        ≡ some (memory.start_span a started.world).0)
unfolding listens
atom_span_is_child_example =
    atom_span_is_child memory text graph task running execute (of "a") (flow running (of "f") ∷ [])
      quiet refl refl 0 refl

-- A body that leaks a context and raises.
abbrev body : ℕ → Exec (TraceListener memory) Value
body object l = (err attribute_error, record l { world = record l.world { current = some 9 } })

-- Functions as numbers: wrapping one adds 100, and wrapping `__init__` adds 1000.
abbrev process : Process ℕ
process = record {
  executor =
      ("_execute_task", 1)
      ∷ ("helper", 2)
      ∷ ("_revert_task", 3)
      ∷ ("_execute_retry", 4)
      ∷ ("_revert_retry", 5)
      ∷ [];
  engine_init = 6;
  original_engine_init = none;
  original_atom_bodies = none;
}

patches : Unit {0}
unfolding instrument instrument_engines uninstrument patch_atom_bodies patch_loop
    unpatch_atom_bodies lookup put
patches = tt

abbrev wrap : ℕ → ℕ
wrap n = Prim.Native.Nat.◌+◌ n 100

abbrev wrap_init : ℕ → ℕ
wrap_init n = Prim.Native.Nat.◌+◌ n 1000

patched_run :
    (instrument wrap wrap_init true process).1.executor
    ≡ ("_execute_task", 101)
      ∷ ("helper", 2)
      ∷ ("_revert_task", 103)
      ∷ ("_execute_retry", 104)
      ∷ ("_revert_retry", 105)
      ∷ []
unfolding patches
patched_run = refl

uninstrument-instrument_example :
    ((instrument wrap wrap_init true process).0 ≡ ok tt)
    × ((uninstrument (instrument wrap wrap_init true process).1).0 ≡ ok tt)
    × Pristine (uninstrument (instrument wrap wrap_init true process).1).1 process
unfolding patches
uninstrument-instrument_example =
    uninstrument-instrument wrap wrap_init process refl
      ((1, refl), ((3, refl), ((4, refl), ((5, refl), tt))))

-- A TaskFlow whose executor module has no functions for retries.
abbrev older : Process ℕ
older = record {
  executor = ("_execute_task", 1) ∷ ("_revert_task", 3) ∷ [];
  engine_init = 6;
  original_engine_init = none;
  original_atom_bodies = none;
}

abbrev failed : Process ℕ
failed = (instrument wrap wrap_init true older).1

instrument-stays_partly_example :
    ((instrument wrap wrap_init true older).0 ≡ err attribute_error)
    × ((k : String) (f : ℕ)
        → member k ("_execute_task" ∷ "_revert_task" ∷ []) ≡ true
        → lookup k older.executor ≡ some f
        → lookup k failed.executor ≡ some (wrap f))
    × (failed.engine_init ≡ 6)
    × (uninstrument failed ≡ (ok tt, failed))
unfolding lookup
instrument-stays_partly_example =
    instrument-stays_partly wrap wrap_init older ("_execute_task" ∷ "_revert_task" ∷ [])
      "_execute_retry" ("_revert_retry" ∷ []) refl refl ((1, refl), ((3, refl), tt)) refl
