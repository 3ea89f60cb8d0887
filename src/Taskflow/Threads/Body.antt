-- ===== src/Taskflow/Threads/Body.antt =====
-- listener.py: `_traced_atom_body` as steps of a run.
use opentelemetry_openstack.Prelude.{ℕ, String, ◌≡◌, Bool, true, none, some, List, ◌++◌, update}
use opentelemetry_openstack.Py.Value.{Value}
use opentelemetry_openstack.Py.Exec.{Exec}
use opentelemetry_openstack.Otel.Span.{Telemetry}
use opentelemetry_openstack.Taskflow.Notification.{State, Notification}
use opentelemetry_openstack.Taskflow.Listener.{Graph, TraceListener}
use opentelemetry_openstack.Taskflow.Bodies.{traced_atom_body}
use opentelemetry_openstack.Taskflow.Threads.{System, Run, entered, left}
use opentelemetry_openstack.Taskflow.Threads.Drained.{Run-trans}

module _ {T : Telemetry} (state_text : State → String) (graph : Graph) where
  -- What the body of an atom finds, whose object has the context `c`.
  abbrev inside : TraceListener T → ℕ → T.Context → TraceListener T
  inside l object c = record l {
    contexts = update l.contexts object none;
    world = (T.attach c l.world).1;
  }

  -- An atom's body under its wrapper is a part of a run, where the body, with what other threads
  -- do until it ends, is a run from what it finds.
  traced_atom_body-steps :
      (has_dict : ℕ → Bool) (original : ℕ → Exec (TraceListener T) Value) (object : ℕ)
      (c : T.Context) {s t u : System T state_text} {ns ms : List Notification}
      → has_dict object ≡ true
      → t.listener.contexts object ≡ some c
      → Run T state_text graph s ns t
      → Run T state_text graph (record t { listener = inside t.listener object c }) ms u
      → (original object (inside t.listener object c)).1 ≡ u.listener
      → Run T state_text graph s (ms ++ ns) (record u {
        listener = (traced_atom_body T state_text has_dict original object t.listener).1;
      })
  unfolding traced_atom_body
  traced_atom_body-steps has_dict original object c {t} {u} dictionary found before during ends =
      rw (dictionary, found, traced_atom_body, ends)
        (left (T.attach c t.listener.world).0
          (Run-trans state_text graph (entered object c found before) during))
