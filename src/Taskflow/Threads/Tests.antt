-- ===== src/Taskflow/Threads/Tests.antt =====
-- Two threads that notify a listener at once, over the in-memory API.
use mathlib.Core.List.Perm
use opentelemetry_openstack.Prelude.{
  ◌≤◌, String, ◌≡◌, refl, true, false, none, some, List, [], ◌∷◌, length, arith,
}
use opentelemetry_openstack.Py.Dict.{lookup, put, erase, string_key}
use opentelemetry_openstack.Otel.Memory.{memory, quiet, memory-Exports}
use opentelemetry_openstack.Taskflow.Notification.{
  State, running, failure, suspended, task, Details, Notification, flow, atom, atom_key,
  atom_start_method, atom_finish_method, flow_finish_state,
}
use opentelemetry_openstack.Taskflow.Listener.{
  Graph, collect, create, start_flow, hand_over, open_atom, set_failure,
}
use opentelemetry_openstack.Taskflow.Listener.Protocol.{idle, create-Implements}
use opentelemetry_openstack.Taskflow.Listener.Balance.{Balanced, IsBalanced}
use opentelemetry_openstack.Taskflow.Threads.{
  Thread, looking, ending, System, Run, rest, notified, continued, notify, lock_start_atom,
  lock_finish_atom, lock_finish_flow, test_cache, fill_cache, read_cache, go_on,
}
use opentelemetry_openstack.Taskflow.Threads.Balance.{all_taken, run-IsBalanced}
use opentelemetry_openstack.Taskflow.Threads.Quiet.{IsOver, reached}
use opentelemetry_openstack.Taskflow.Threads.Drained.{AllIdle, all_spans_end}
use opentelemetry_openstack.Taskflow.Threads.Bounded.{still_open, phases, atom_spans_bounded}

interleaves : Unit {0}
unfolding notify lock_start_atom lock_finish_atom lock_finish_flow test_cache fill_cache read_cache
    go_on start_flow open_atom hand_over set_failure collect create flow_finish_state
    atom_start_method atom_finish_method lookup put erase
interleaves = tt

abbrev text : State → String
text _ = "?"

abbrev graph : Graph
graph = some (record { name = some "a"; executes = true; object = 2; sealed = false } ∷ [])

abbrev of : String → Details
of s = record { name = some s; uuid = some s; result = none }

abbrev start : System memory text
start = record {
  listener = create memory text quiet;
  threads = Thread.idle ∷ Thread.idle ∷ [];
  others = [];
}

-- A flow and an atom start; while the thread that was notified of the atom's start looks it up, the
-- other one is notified that it failed, and then that the flow is over.
abbrev notices : List Notification
notices =
    flow suspended (of "f")
    ∷ atom task failure (of "a")
    ∷ atom task running (of "a")
    ∷ flow running (of "f")
    ∷ []

abbrev interleaved : (t : System memory text) × Run memory text graph start notices t
unfolding interleaves
interleaved = (
  _,
  notified (flow suspended (of "f")) (_ ∷ []) [] refl (
      continued _ (_ ∷ []) [] refl (
        continued _ [] _ refl (
          continued _ (_ ∷ []) [] refl (
            notified (atom task failure (of "a")) (_ ∷ []) [] refl (
              continued _ [] _ refl (
                notified (atom task running (of "a")) [] _ refl
                  (notified (flow running (of "f")) [] _ refl rest))))))),
)

abbrev between : System memory text
between = interleaved.0

-- The first thread is still to hand the context over, of a span that the second one has ended.
threads_between :
    (between.threads ≡ looking (some "a") 1 ∷ ending 0 [] ∷ [])
    × (between.listener.world.ended ≡ 1 ∷ [])
    × (between.listener.atom_spans ≡ [])
unfolding interleaves
threads_between = (refl, refl, refl)

start-IsBalanced : IsBalanced memory-Exports [] (create memory text quiet)
unfolding create memory-Exports
start-IsBalanced = record { keys = tt; spans = Perm.refl _ }

run-IsBalanced_example :
    IsBalanced memory-Exports (all_taken between.threads between.others) between.listener
run-IsBalanced_example = run-IsBalanced memory-Exports text graph interleaved.1 start-IsBalanced

notices-IsOver : IsOver (reached notices idle)
notices-IsOver = record { flow = refl; atoms = λ k. ground arith }

all_spans_end_example :
    (u : System memory text) × Run memory text graph between [] u
    × AllIdle u.threads
    × (u.others ≡ between.others)
    × Balanced memory-Exports u.listener.world u.others
all_spans_end_example =
    all_spans_end text graph memory-Exports idle start-IsBalanced (create-Implements text quiet)
      interleaved.1 notices-IsOver

atom_spans_bounded_example :
    length between.listener.atom_spans
    ≤ length (still_open (reached notices idle).atom_open (phases (some "a" ∷ [])))
atom_spans_bounded_example =
    atom_spans_bounded (some "a" ∷ []) memory-Exports text graph idle interleaved.1 start-IsBalanced
      (create-Implements text quiet) (λ j unknown. refl) (tt, (refl, (refl, (tt, tt))))
