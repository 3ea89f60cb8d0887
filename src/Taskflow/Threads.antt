-- ===== src/Taskflow/Threads.antt =====
-- listener.py: the receivers of `_TraceListener` in several threads. A thread is notified and runs
-- the block under the lock in one step. What follows the block is a step for each access to what
-- the threads share: the cache of atoms, an atom's attribute, and the calls on a span.
pub mod Alone
pub mod Kept
pub mod Balance
pub mod Settled
pub mod Quiet
pub mod Drained
pub mod Body
pub mod Bounded
mod Tests
use mathlib.Core.List.{Perm}
use opentelemetry_openstack.Prelude.{
  ℕ, zero, suc, ◌+◌, String, ◌≡◌, Bool, Option, none, some, List, [], ◌∷◌, ◌++◌, if◌then◌else◌,
  update,
}
use opentelemetry_openstack.Py.Dict.{Dict, lookup, erase, string_key}
use opentelemetry_openstack.Otel.Span.{Note, error_status, SpanArgs, Telemetry}
use opentelemetry_openstack.Taskflow.Notification.{
  State, running, Method, Kind, Failure, Details, Notification, flow, atom, atom_key,
  atom_start_method, atom_finish_method, flow_finish_state,
}
use opentelemetry_openstack.Taskflow.Listener.{
  Node, Graph, TraceListener, collect, find_atom, set_failure, start_flow, open_atom, hand_over,
}

-- Where a thread stands in a receiver, with the local variables that are live there.
pub data Thread (T : Telemetry) : Type 0 where
  idle : Thread T
  -- before the test of the cache in `_atom_by_name`
  started : (name : Option String) (span : T.Span) → Thread T
  -- before the assignment of the cache
  collecting : (name : Option String) (span : T.Span) → Thread T
  -- before the last line of `_atom_by_name`
  looking : (name : Option String) (span : T.Span) → Thread T
  -- before the `setattr` of `_start_atom`
  resolved : (node : Node) (span : T.Span) → Thread T
  -- after the block under the lock of `_finish_flow` or `_finish_atom`
  ending : (span : T.Span) (notes : List Note) → Thread T

module _ (T : Telemetry) (state_text : State → String) where
  -- `_finish_flow`, the block under the lock
  unfoldable pub lock_finish_flow : State → Bool → TraceListener T → TraceListener T × Thread T
  lock_finish_flow state failed l =
      let closed : TraceListener T = record l { flow_span = none; flow_context = none } in
      elim l.flow_span [
        | none ↦ (closed, idle)
        | some span ↦ (
          closed,
          ending span (if failed then error_status (some (state_text state)) ∷ [] else []),
        )
      ]

  -- `_start_atom`, the block under the lock
  unfoldable pub lock_start_atom :
      Kind → Option String → Option String → Method → TraceListener T → TraceListener T × Thread T
  lock_start_atom kind name uuid method l = elim (lookup (uuid, method) l.atom_spans) [
    | some span ↦ (l, idle)
    | none ↦
        let (span, l') = open_atom T state_text kind name uuid method l in (l', started name span)
  ]

  -- `_finish_atom`, the block under the lock
  unfoldable pub lock_finish_atom :
      Option String → Method → Bool → Option Failure → TraceListener T → TraceListener T × Thread T
  lock_finish_atom uuid method failed result l = elim (lookup (uuid, method) l.atom_spans) [
    | none ↦ (l, idle)
    | some span ↦ (
      record l { atom_spans = erase (uuid, method) l.atom_spans },
      ending span (if failed then set_failure T state_text result else []),
    )
  ]

  -- A thread that is notified: the receiver up to the end of its block under the lock.
  unfoldable pub notify : Notification → TraceListener T → TraceListener T × Thread T
  notify (flow running details) l = (start_flow T state_text details l, idle)
  notify (flow state details) l = elim (flow_finish_state state) [
    | none ↦ (l, idle)
    | some failed ↦ lock_finish_flow state failed l
  ]
  notify (atom kind state details) l = elim (atom_start_method state) [
    | some method ↦ lock_start_atom kind details.name details.uuid method l
    | none ↦ elim (atom_finish_method state) [
      | some (method, failed) ↦ lock_finish_atom details.uuid method failed details.result l
      | none ↦ (l, idle)
    ]
  ]

  -- `_atom_by_name`, a step. That the cache is not there in the last line would raise, which
  -- `_on_atom` catches.
  unfoldable pub test_cache : Option String → T.Span → TraceListener T → TraceListener T × Thread T
  test_cache name span l = elim l.atoms_by_name [
    | none ↦ (l, collecting name span)
    | some atoms ↦ (l, looking name span)
  ]

  unfoldable pub fill_cache :
      Graph → Option String → T.Span → TraceListener T → TraceListener T × Thread T
  fill_cache graph name span l =
      let found : Dict String Node = elim graph [ none ↦ [] | some nodes ↦ collect [] nodes ] in
      (record l { atoms_by_name = some found }, looking name span)

  unfoldable pub read_cache : Option String → T.Span → TraceListener T → TraceListener T × Thread T
  read_cache name span l = elim l.atoms_by_name [
    | none ↦ (l, idle)
    | some atoms ↦ elim (find_atom T state_text name atoms) [
      | none ↦ (l, idle)
      | some node ↦ (l, resolved node span)
    ]
  ]

  -- A thread goes on after the block under the lock. What `setattr` raises, `_on_atom` catches.
  unfoldable pub go_on : Graph → TraceListener T × Thread T → TraceListener T × Thread T
  go_on graph (l, idle) = (l, idle)
  go_on graph (l, started name span) = test_cache name span l
  go_on graph (l, collecting name span) = fill_cache graph name span l
  go_on graph (l, looking name span) = read_cache name span l
  go_on graph (l, resolved node span) = ((hand_over T state_text span node l).1, idle)
  go_on graph (l, ending span (n ∷ ns)) =
      (record l { world = T.note span n l.world }, ending span ns)
  go_on graph (l, ending span []) = (record l { world = T.end_span span l.world }, idle)

  -- The number of steps after which a thread is idle.
  abbrev pub steps_left : Thread T → ℕ
  steps_left idle = 0
  steps_left (started name span) = 4
  steps_left (collecting name span) = 3
  steps_left (looking name span) = 2
  steps_left (resolved node span) = 1
  steps_left (ending span []) = 1
  steps_left (ending span (n ∷ ns)) = suc (steps_left (ending span ns))

  -- The listener, the threads of the engine that notify it, and the open spans of the rest of the
  -- program.
  pub record System : Type 0 where
    pub listener : TraceListener T
    pub threads : List (Thread T)
    pub others : List T.Span

  -- One thread of a list takes the place of another.
  abbrev pub turned :
      System → List (Thread T) → TraceListener T × Thread T → List (Thread T) → System
  turned s before next after = record s { listener = next.0; threads = before ++ next.1 ∷ after }

  -- The rest of the program does something with the API.
  abbrev pub in_world : System → T.World → System
  in_world s w = record s { listener = record s.listener { world = w } }

  -- The runs of a system in any interleaving, with the notifications in the order in which their
  -- blocks ran under the lock, the latest first. In the rest of the program the bodies of the atoms
  -- run: the wrapper of a body takes the atom's context and attaches it, the body begins, notes and
  -- ends spans of its own, and the wrapper detaches the context.
  pub data Run (graph : Graph) (s : System) : List Notification → System → Type 0 where
    rest : Run graph s [] s
    notified :
        {t : System} {ns : List Notification} (n : Notification) (before after : List (Thread T))
        → t.threads ≡ before ++ idle ∷ after
        → Run graph s ns t
        → Run graph s (n ∷ ns) (turned t before (notify n t.listener) after)
    continued :
        {t : System} {ns : List Notification} (p : Thread T) (before after : List (Thread T))
        → t.threads ≡ before ++ p ∷ after
        → Run graph s ns t
        → Run graph s ns (turned t before (go_on graph (t.listener, p)) after)
    begun :
        {t : System} {ns : List Notification} (a : SpanArgs T.Context)
        → Run graph s ns t
        → Run graph s ns (record t {
          listener = record t.listener { world = (T.start_span a t.listener.world).1 };
          others = (T.start_span a t.listener.world).0 ∷ t.others;
        })
    ended :
        {t : System} {ns : List Notification} (span : T.Span) (remaining : List T.Span)
        → Perm t.others (span ∷ remaining)
        → Run graph s ns t
        → Run graph s ns (record t {
          listener = record t.listener { world = T.end_span span t.listener.world };
          others = remaining;
        })
    entered :
        {t : System} {ns : List Notification} (object : ℕ) (c : T.Context)
        → t.listener.contexts object ≡ some c
        → Run graph s ns t
        → Run graph s ns (record t {
          listener = record t.listener {
            contexts = update t.listener.contexts object none;
            world = (T.attach c t.listener.world).1;
          };
        })
    left :
        {t : System} {ns : List Notification} (token : T.Token)
        → Run graph s ns t
        → Run graph s ns (in_world t (T.detach token t.listener.world))
    noted :
        {t : System} {ns : List Notification} (span : T.Span) (n : Note)
        → Run graph s ns t
        → Run graph s ns (in_world t (T.note span n t.listener.world))
