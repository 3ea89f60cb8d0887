-- ===== src/Service/Tests.antt =====
-- The propagation on a concrete API, and the instrumentor on a process whose functions are stacks
-- of wrappers over a number.
use opentelemetry_openstack.Py.Wrapt.Stacks.{stacks, stacks-Replaces}
use opentelemetry_openstack.Prelude.{◌≡◌, refl, true, false, Option, none, some, List, [], ◌∷◌}
use opentelemetry_openstack.Py.Value.{Value, null, int, pos, Items, end, ok, err, type_error}
use opentelemetry_openstack.Py.Exec.{Exec, try_except, pure, ◌>>=◌}
use opentelemetry_openstack.Py.Wrapt.{Target, target_key, wrap_all}
use opentelemetry_openstack.Otel.Memory.{World, memory, quiet, memory-KeepsContext}
use opentelemetry_openstack.Service.Propagation.{
  Callable, Argument, callable, value, traced, spawn_wrapper, Threads,
}
use opentelemetry_openstack.Service.Continuity.{RunsUnder, spawn_wrapper-continues}
use opentelemetry_openstack.Service.Backend.{
  BackendType, Backends, choose, backend_name, select_backend, backend_by_name,
}
use opentelemetry_openstack.Service.Instrumentor.{
  spawn, Installed, entry_points, eventlet_spawns, futurist_submits, set_backend, keep_wraps,
  install, Process, instrument, uninstrument,
}
use opentelemetry_openstack.Service.Instrumentor.Restored.{uninstrument-instrument_all}

-- A process with the span 7 current.
abbrev busy : World
busy = record quiet { current = some 7 }

-- A task that raises and leaves another context behind.
abbrev task : Callable memory
task args kwargs w = (err type_error, record w { current = some 9 })

abbrev spawn_after_args : List (Argument memory)
spawn_after_args = value (int (pos 5)) ∷ callable task ∷ value null ∷ []

-- The spawn keeps its callable, and calls it in a worker with nothing current.
abbrev spawned : List (Argument memory) → Items → Exec World Value
spawned (d ∷ callable f ∷ r) kwargs w = f [] end quiet
spawned args kwargs w = (ok null, w)

spawned_ends : spawn_wrapper memory 1 spawned spawn_after_args end busy ≡ (err type_error, quiet)
unfolding spawn_wrapper traced
spawned_ends = refl

spawn_wrapper-continues_example :
    (g : Callable memory) × (spawn_wrapper memory 1 spawned spawn_after_args end busy
      ≡ spawned (value (int (pos 5)) ∷ callable g ∷ value null ∷ []) end busy)
    × RunsUnder memory memory-KeepsContext (some 7) g task
spawn_wrapper-continues_example =
    spawn_wrapper-continues memory memory-KeepsContext 1 spawned spawn_after_args end task busy refl
      refl

-- Without its callable the spawn is passed on.
abbrev main_thread : Threads memory
main_thread = record { contexts = λ n. none; world = busy }

abbrev start : Exec (Threads memory) Value
start s = (ok null, s)

abbrev run : Exec (Threads memory) Value
run s = (err type_error, record s { world = record quiet { current = some 9 } })

-- oslo.service's backend, as a variable.
abbrev backends : Backends
backends = record {
  State = Option BackendType;
  get_backend_type = λ s. s;
  init_backend = λ b s. (ok tt, some b);
}

-- Every target is a function without wrappers.
abbrev pristine : Process stacks backends
pristine = record { modules = λ t. some []; backend = none; wraps = [] }

abbrev with_eventlet : Installed
with_eventlet = record { eventlet = true; thread_pool = true; green_thread_pool = false }

-- Between the two calls the threads and the greenthreads are wrapped.
wrapped_between :
    (instrument stacks backends with_eventlet true none none pristine).1.modules
      ("GreenPool", "spawn")
    ≡ some (spawn 0 ∷ [])
unfolding instrument set_backend keep_wraps install wrap_all entry_points eventlet_spawns
    futurist_submits select_backend choose backend_by_name backend_name try_except pure ◌>>=◌
wrapped_between = refl

uninstrument-instrument_all_example :
    ((instrument stacks backends with_eventlet true none none pristine).0 ≡ ok tt)
    × ((uninstrument stacks backends
          (instrument stacks backends with_eventlet true none none pristine).1).0
        ≡ ok tt)
    × ((j : Target)
        → (uninstrument stacks backends
              (instrument stacks backends with_eventlet true none none pristine).1).1.modules
            j
          ≡ some [])
    × ((uninstrument stacks backends
          (instrument stacks backends with_eventlet true none none pristine).1).1.wraps
        ≡ [])
unfolding select_backend choose backend_by_name backend_name try_except
uninstrument-instrument_all_example =
    uninstrument-instrument_all stacks stacks-Replaces with_eventlet backends true none none
      pristine refl (λ t k h. ([], refl))
