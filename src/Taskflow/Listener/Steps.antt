-- ===== src/Taskflow/Listener/Steps.antt =====
-- What one atom notification does to the table of spans, to the flow's span and to the API's state,
-- whether or not handing the context to the atom succeeds.
use opentelemetry_openstack.Prelude.{String, ◌≡◌, refl, Option, none, some, arith}
use opentelemetry_openstack.Py.Exec.{Exec, pure, try_except}
use opentelemetry_openstack.Py.Dict.{lookup}
use opentelemetry_openstack.Otel.Span.{Telemetry}
use opentelemetry_openstack.Taskflow.Notification.{
  State, running, reverting, Method, execute, revert, Kind, Details, atom_key, atom_start_method,
  atom_finish_method,
}
use opentelemetry_openstack.Taskflow.Listener.{
  Graph, Node, TraceListener, hand_over, give_context, open_atom, start_atom, finish_atom, on_atom,
}

-- The listener's spans and the API's state are the same; the cache of atoms and the attributes of
-- the atoms may differ.
pub record SameSpans {T : Telemetry} (a b : TraceListener T) : Type 0 where
  pub flow_span : a.flow_span ≡ b.flow_span
  pub flow_context : a.flow_context ≡ b.flow_context
  pub atom_spans : a.atom_spans ≡ b.atom_spans
  pub world : a.world ≡ b.world

pub swallowed {ℓ} :
    {S : Type ℓ} (m : Exec S (Unit {0})) (s : S) → (try_except m (λ e. pure tt) s).1 ≡ (m s).1
unfolding try_except pure
swallowed m s = ground arith

module _ {T : Telemetry} (state_text : State → String) where
  pub hand_over-SameSpans :
      (span : T.Span) (node : Node) (l : TraceListener T)
      → SameSpans (hand_over T state_text span node l).1 l
  unfolding hand_over
  hand_over-SameSpans span node l = ground arith

  give_context-SameSpans :
      (graph : Graph) (name : Option String) (span : T.Span) (l : TraceListener T)
      → SameSpans (give_context T state_text graph name span l).1 l
  unfolding give_context hand_over
  give_context-SameSpans graph name span l = ground arith

  -- `_start_atom` up to the end of the lock.
  unfoldable pub locked_start :
      Kind → Option String → Option String → Method → TraceListener T → TraceListener T
  locked_start kind name uuid method l = elim (lookup (uuid, method) l.atom_spans) [
    | some span ↦ l
    | none ↦ (open_atom T state_text kind name uuid method l).1
  ]

  -- A notification of an atom without the step that hands the context over.
  unfoldable pub locked_step : Kind → State → Details → TraceListener T → TraceListener T
  locked_step kind state details l = elim (atom_start_method state) [
    | some method ↦ locked_start kind details.name details.uuid method l
    | none ↦ elim (atom_finish_method state) [
      | some (method, failed) ↦ finish_atom T state_text details.uuid method failed details.result l
      | none ↦ l
    ]
  ]

  start_atom-SameSpans :
      (graph : Graph) (kind : Kind) (name uuid : Option String) (method : Method)
      (l : TraceListener T)
      → SameSpans
          (start_atom T state_text graph kind name uuid method l).1
          (locked_start kind name uuid method l)
  unfolding start_atom locked_start
  start_atom-SameSpans graph kind name uuid method l =
      let (span, l') = open_atom T state_text kind name uuid method l in
      ground (arith, give_context-SameSpans graph name span l')

  pub on_atom-SameSpans :
      (graph : Graph) (kind : Kind) (state : State) (details : Details) (l : TraceListener T)
      → SameSpans
          (on_atom T state_text graph kind state details l).1
          (locked_step kind state details l)
  unfolding on_atom locked_step atom_start_method atom_finish_method
  on_atom-SameSpans graph kind running details l =
      rw swallowed (start_atom-SameSpans graph kind details.name details.uuid execute l)
  on_atom-SameSpans graph kind reverting details l =
      rw swallowed (start_atom-SameSpans graph kind details.name details.uuid revert l)
  on_atom-SameSpans graph kind _ details l =
      rw swallowed
        (record { flow_span = refl; flow_context = refl; atom_spans = refl; world = refl })

  module _ (graph : Graph) (kind : Kind) (state : State) (d : Details) (m : Method)
      (l : TraceListener T) (starts : atom_start_method state ≡ some m)
      (fresh : lookup (d.uuid, m) l.atom_spans ≡ none) where
    -- The notification that starts a phase with no open span opens one and hands its context over.
    pub on_atom-start :
        (on_atom T state_text graph kind state d l).1
        ≡ (give_context T state_text graph d.name
            (open_atom T state_text kind d.name d.uuid m l).0
            (open_atom T state_text kind d.name d.uuid m l).1).1
    unfolding on_atom start_atom
    on_atom-start = rw swallowed (rw starts (rw (fresh, start_atom) refl))
