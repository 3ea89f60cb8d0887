-- ===== src/Taskflow/Listener.antt =====
-- listener.py: `_TraceListener`. Each notification is one step on the listener and on what it
-- shares with the engine: the attribute on the atoms, and the API's state. The lock makes each
-- block that reads and writes the table of spans one step of its own.
pub mod Steps
pub mod Protocol
pub mod Balance
pub mod Parent
use opentelemetry_openstack.Prelude.{
  ℕ, String, Bool, true, false, Option, none, some, List, [], ◌∷◌, if◌then◌else◌, concat, update,
  ◌&&◌,
}
use opentelemetry_openstack.Py.Value.{Exn, attribute_error, Items, end, item, str, Result, ok, err}
use opentelemetry_openstack.Py.Exec.{Exec, pure, raise, try_except, modify, ◌>>=◌, ◌>>◌}
use opentelemetry_openstack.Py.Dict.{Dict, lookup, put, erase, string_key}
use opentelemetry_openstack.Otel.Span.{
  internal, Note, error_status, exception, SpanArgs, Telemetry, note_all,
}
use opentelemetry_openstack.Taskflow.Notification.{
  State, running, Method, Kind, method_name, kind_name, atom_start_method, atom_finish_method,
  flow_finish_state, Failure, Details, Notification, flow, atom, AtomKey, atom_key, text_or_none,
}

-- A node of the execution graph: whether it has a `name` and an `execute`, the object, and whether
-- the object refuses new attributes.
pub record Node : Type 0 where
  pub name : Option String
  pub executes : Bool
  pub object : ℕ
  pub sealed : Bool

-- `self._engine.compilation.execution_graph`, `none` where reading it raises.
abbrev pub Graph : Type 0
Graph = Option (List Node)

-- The comprehension in `_atom_by_name`: of two nodes with one name the later stays.
unfoldable pub collect : Dict String Node → List Node → Dict String Node
collect found [] = found
collect found (n ∷ ns) =
    collect
      (elim n.name [ none ↦ found | some name ↦ if n.executes then put name n found else found ]) ns

pub record TraceListener (T : Telemetry) : Type 0 where
  pub flow_span : Option T.Span
  pub flow_context : Option T.Context
  pub atoms_by_name : Option (Dict String Node)
  pub atom_spans : Dict AtomKey T.Span
  -- `_otel_taskflow_context` of each atom
  pub contexts : ℕ → Option T.Context
  pub world : T.World

module _ (T : Telemetry) (state_text : State → String) where
  -- `__init__`
  unfoldable pub create : T.World → TraceListener T
  create w = record {
    flow_span = none;
    flow_context = none;
    atoms_by_name = none;
    atom_spans = [];
    contexts = λ n. none;
    world = w;
  }

  -- `attach`, given the listener's `register()`
  unfoldable pub attach :
      {S : Type 0} → (TraceListener T → Exec S (Unit {0})) → T.World → Exec S (TraceListener T)
  attach register w = let listener = create w in register listener >> pure listener

  -- `_set_failure`
  unfoldable pub set_failure : Option Failure → List Note
  set_failure none = error_status none ∷ []
  set_failure (some f) = elim f.exception [
    | none ↦ error_status (some f.exception_str) ∷ []
    | some e ↦ exception e ∷ error_status (some f.exception_str) ∷ []
  ]

  abbrev pub flow_args : Details → SpanArgs T.Context
  flow_args details = record {
    name = "taskflow.flow.run";
    kind = internal;
    parent = none;
    attributes =
        item "taskflow.flow.name" (text_or_none details.name)
          (item "taskflow.flow.uuid" (text_or_none details.uuid) end);
  }

  -- `_start_flow`
  unfoldable pub start_flow : Details → TraceListener T → TraceListener T
  start_flow details l = elim l.flow_span [
    | some span ↦ l
    | none ↦
        let (span, w) = T.start_span (flow_args details) l.world in
        record l {
          flow_span = some span;
          flow_context = some (T.set_span_in_context span (T.get_current w));
          world = w;
        }
  ]

  -- `_finish_flow`
  unfoldable pub finish_flow : State → Bool → TraceListener T → TraceListener T
  finish_flow state failed l =
      let closed : TraceListener T = record l { flow_span = none; flow_context = none } in
      elim l.flow_span [
        | none ↦ closed
        | some span ↦
            let notes = if failed then error_status (some (state_text state)) ∷ [] else [] in
            record closed { world = T.end_span span (note_all T span notes l.world) }
      ]

  -- `_flow_receiver`
  unfoldable pub flow_receiver : State → Details → TraceListener T → TraceListener T
  flow_receiver running details l = start_flow details l
  flow_receiver state details l = elim (flow_finish_state state) [
    | none ↦ l
    | some failed ↦ finish_flow state failed l
  ]

  -- What `_atom_by_name` leaves in `_atoms_by_name`, and what it returns.
  abbrev pub known_atoms : Graph → TraceListener T → Dict String Node
  known_atoms graph l = elim l.atoms_by_name [
    | some atoms ↦ atoms
    | none ↦ elim graph [ none ↦ [] | some nodes ↦ collect [] nodes ]
  ]

  abbrev pub find_atom : Option String → Dict String Node → Option Node
  find_atom none atoms = none
  find_atom (some name) atoms = lookup name atoms

  abbrev pub atom_args :
      Kind → Option String → Option String → Method → Option T.Context → SpanArgs T.Context
  atom_args kind name uuid method parent =
      let prefix = concat "taskflow." (kind_name kind) in
      record {
        name = concat prefix (concat "." (method_name method));
        kind = internal;
        parent = parent;
        attributes = item (concat prefix ".name") (text_or_none name) (
            item (concat prefix ".uuid") (text_or_none uuid)
              (item (concat prefix ".method") (str (method_name method)) end));
      }

  -- `setattr(atom, _CONTEXT_ATTR, trace.set_span_in_context(span))`
  unfoldable pub hand_over : T.Span → Node → Exec (TraceListener T) (Unit {0})
  hand_over span node l = if node.sealed then (err attribute_error, l) else (
    ok tt,
    record l {
      contexts =
          update l.contexts node.object (some (T.set_span_in_context span (T.get_current l.world)));
    },
  )

  -- The part of `_start_atom` under the lock, where the key has no open span.
  unfoldable pub open_atom :
      Kind → Option String → Option String → Method → TraceListener T → T.Span × TraceListener T
  open_atom kind name uuid method l =
      let (span, w) = T.start_span (atom_args kind name uuid method l.flow_context) l.world in
      (span, record l { atom_spans = put (uuid, method) span l.atom_spans; world = w })

  -- The part after the lock.
  unfoldable pub give_context : Graph → Option String → T.Span → Exec (TraceListener T) (Unit {0})
  give_context graph name span l =
      let atoms = known_atoms graph l in
      let cached : TraceListener T = record l { atoms_by_name = some atoms } in
      elim (find_atom name atoms) [
        | none ↦ (ok tt, cached)
        | some node ↦ hand_over span node cached
      ]

  -- `_start_atom`
  unfoldable pub start_atom :
      Graph → Kind → Option String → Option String → Method → Exec (TraceListener T) (Unit {0})
  start_atom graph kind name uuid method l = elim (lookup (uuid, method) l.atom_spans) [
    | some span ↦ (ok tt, l)
    | none ↦ let (span, l') = open_atom kind name uuid method l in give_context graph name span l'
  ]

  -- `_finish_atom`
  unfoldable pub finish_atom :
      Option String → Method → Bool → Option Failure → TraceListener T → TraceListener T
  finish_atom uuid method failed result l = elim (lookup (uuid, method) l.atom_spans) [
    | none ↦ l
    | some span ↦
        let notes = if failed then set_failure result else [] in
        record l {
          atom_spans = erase (uuid, method) l.atom_spans;
          world = T.end_span span (note_all T span notes l.world);
        }
  ]

  -- `_on_atom`: what goes wrong is logged, and does not reach the engine.
  unfoldable pub on_atom : Graph → Kind → State → Details → Exec (TraceListener T) (Unit {0})
  on_atom graph kind state details =
      try_except
        (λ l. elim (atom_start_method state) [
          | some method ↦ start_atom graph kind details.name details.uuid method l
          | none ↦ elim (atom_finish_method state) [
            | some (method, failed) ↦
                (ok tt, finish_atom details.uuid method failed details.result l)
            | none ↦ (ok tt, l)
          ]
        ])
        (λ e. pure tt)

  -- The listener's receivers.
  unfoldable pub receive : Graph → Notification → TraceListener T → TraceListener T
  receive graph (flow state details) l = flow_receiver state details l
  receive graph (atom kind state details) l = (on_atom graph kind state details l).1

  unfoldable pub receive_all : Graph → List Notification → TraceListener T → TraceListener T
  receive_all graph [] l = l
  receive_all graph (n ∷ ns) l = receive_all graph ns (receive graph n l)
