-- ===== src/Taskflow/Threads/Kept.antt =====
-- What one step of a thread does to the balance of the spans, with the span that the thread holds.
use mathlib.Core.List.{Perm, perm_middle}
use mathlib.Core.List.Perm
use opentelemetry_openstack.Prelude.{
  String, refl, Bool, true, false, Option, List, [], ◌∷◌, ◌++◌, Option-cases, inl, inr,
}
use opentelemetry_openstack.Py.Dict.{values, lookup, erase, erase-NodupKeys, values-erase_perm}
use opentelemetry_openstack.Otel.Span.{Telemetry, note_all}
use opentelemetry_openstack.Otel.Laws.{Exports}
use opentelemetry_openstack.Taskflow.Notification.{
  State, running, success, failure, reverting, reverted, revert_failure, suspended, execute, revert,
  Method, Kind, Failure, Notification, flow, atom, atom_key, atom_start_method, atom_finish_method,
  flow_finish_state,
}
use opentelemetry_openstack.Taskflow.Listener.{Graph, TraceListener, find_atom}
use opentelemetry_openstack.Taskflow.Listener.Steps.{hand_over-SameSpans}
use opentelemetry_openstack.Taskflow.Listener.Balance.{
  perm-Balanced, end-Balanced, flow_list, IsBalanced, start_flow-IsBalanced, open_atom-IsBalanced,
  IsBalanced-SameSpans,
}
use opentelemetry_openstack.Taskflow.Threads.{
  Thread, idle, started, collecting, looking, resolved, ending, lock_finish_flow, lock_start_atom,
  lock_finish_atom, notify, test_cache, fill_cache, read_cache, go_on,
}

-- The span that a thread has taken from the listener and is about to end.
abbrev pub taken : {T : Telemetry} → Thread T → List T.Span
taken (ending span notes) = span ∷ []
taken _ = []

module _ {T : Telemetry} (x : Exports T) (state_text : State → String) where
  pub open_spans-perm :
      (l : TraceListener T) {others others' : List T.Span}
      → Perm others others'
      → IsBalanced x others l
      → IsBalanced x others' l
  open_spans-perm l p h = record {
    keys = h.keys;
    spans =
        perm-Balanced x l.world
          (Perm.append_left (flow_list x l.flow_span) (Perm.append_left (values l.atom_spans) p))
          h.spans;
  }

  module _ (others : List T.Span) where
    abbrev IsKept : TraceListener T × Thread T → Type 0
    IsKept (l, p) = IsBalanced x (taken p ++ others) l

    lock_finish_flow-IsKept :
        (state : State) (failed : Bool) (l : TraceListener T)
        → IsBalanced x others l
        → IsKept (lock_finish_flow T state_text state failed l)
    unfolding lock_finish_flow
    lock_finish_flow-IsKept state failed l h = elim (Option-cases l.flow_span) [
      | inl closed ↦
          rw (closed, lock_finish_flow) (record { keys = h.keys; spans = rw closed at h.spans })
      | inr (span, found) ↦
          rw (found, lock_finish_flow)
            (record {
              keys = h.keys;
              spans =
                  perm-Balanced x l.world (Perm.symm (perm_middle (values l.atom_spans) others))
                    (rw found at h.spans);
            })
    ]

    lock_start_atom-IsKept :
        (kind : Kind) (name uuid : Option String) (method : Method) (l : TraceListener T)
        → IsBalanced x others l
        → IsKept (lock_start_atom T state_text kind name uuid method l)
    unfolding lock_start_atom
    lock_start_atom-IsKept kind name uuid method l h =
        elim (Option-cases (lookup (uuid, method) l.atom_spans)) [
          | inl fresh ↦
              rw (fresh, lock_start_atom)
                (open_atom-IsBalanced x state_text others kind name uuid method l fresh h)
          | inr (span, found) ↦ rw (found, lock_start_atom) h
        ]

    lock_finish_atom-IsKept :
        (uuid : Option String) (method : Method) (failed : Bool) (result : Option Failure)
        (l : TraceListener T)
        → IsBalanced x others l
        → IsKept (lock_finish_atom T state_text uuid method failed result l)
    unfolding lock_finish_atom
    lock_finish_atom-IsKept uuid method failed result l h =
        elim (Option-cases (lookup (uuid, method) l.atom_spans)) [
          | inl absent ↦ rw (absent, lock_finish_atom) h
          | inr (span, found) ↦
              rw (found, lock_finish_atom)
                (record {
                  keys = erase-NodupKeys (uuid, method) l.atom_spans h.keys;
                  spans =
                      perm-Balanced x l.world
                        (Perm.append_left (flow_list x l.flow_span) (
                          Perm.trans
                            (Perm.append_right others
                              (values-erase_perm (uuid, method) span l.atom_spans h.keys found))
                            (Perm.symm
                              (perm_middle (values (erase (uuid, method) l.atom_spans)) others))))
                        h.spans;
                })
        ]

    -- The block under the lock keeps the balance, with the span that the thread takes.
    pub notify-IsKept :
        (n : Notification) (l : TraceListener T)
        → IsBalanced x others l
        → IsKept (notify T state_text n l)
    unfolding notify atom_start_method atom_finish_method flow_finish_state
    notify-IsKept (flow running d) l h =
        start_flow-IsBalanced x state_text others d l.flow_span l refl h
    notify-IsKept (flow success d) l h = lock_finish_flow-IsKept success false l h
    notify-IsKept (flow failure d) l h = lock_finish_flow-IsKept failure true l h
    notify-IsKept (flow reverted d) l h = lock_finish_flow-IsKept reverted true l h
    notify-IsKept (flow revert_failure d) l h = lock_finish_flow-IsKept revert_failure true l h
    notify-IsKept (flow suspended d) l h = lock_finish_flow-IsKept suspended false l h
    notify-IsKept (flow _ d) l h = h
    notify-IsKept (atom kind running d) l h = lock_start_atom-IsKept kind d.name d.uuid execute l h
    notify-IsKept (atom kind reverting d) l h = lock_start_atom-IsKept kind d.name d.uuid revert l h
    notify-IsKept (atom kind success d) l h =
        lock_finish_atom-IsKept d.uuid execute false d.result l h
    notify-IsKept (atom kind failure d) l h =
        lock_finish_atom-IsKept d.uuid execute true d.result l h
    notify-IsKept (atom kind reverted d) l h =
        lock_finish_atom-IsKept d.uuid revert false d.result l h
    notify-IsKept (atom kind revert_failure d) l h =
        lock_finish_atom-IsKept d.uuid revert true d.result l h
    notify-IsKept (atom kind _ d) l h = h

    test_cache-IsKept :
        (name : Option String) (span : T.Span) (l : TraceListener T)
        → IsBalanced x others l
        → IsKept (test_cache T state_text name span l)
    unfolding test_cache
    test_cache-IsKept name span l h = elim (Option-cases l.atoms_by_name) [
      | inl empty ↦ rw (empty, test_cache) h
      | inr (atoms, filled) ↦ rw (filled, test_cache) h
    ]

    read_cache-IsKept :
        (name : Option String) (span : T.Span) (l : TraceListener T)
        → IsBalanced x others l
        → IsKept (read_cache T state_text name span l)
    unfolding read_cache
    read_cache-IsKept name span l h = elim (Option-cases l.atoms_by_name) [
      | inl empty ↦ rw (empty, read_cache) h
      | inr (atoms, filled) ↦ elim (Option-cases (find_atom T state_text name atoms)) [
        | inl absent ↦ rw (filled, absent, read_cache) h
        | inr (node, found) ↦ rw (filled, found, read_cache) h
      ]
    ]

    -- A step outside of the lock keeps the balance, with the span that the thread holds.
    pub go_on-IsKept :
        (graph : Graph) (p : Thread T) (l : TraceListener T)
        → IsKept (l, p)
        → IsKept (go_on T state_text graph (l, p))
    unfolding go_on fill_cache note_all
    go_on-IsKept graph idle l h = h
    go_on-IsKept graph (started name span) l h = test_cache-IsKept name span l h
    go_on-IsKept graph (collecting name span) l h = record { keys = h.keys; spans = h.spans }
    go_on-IsKept graph (looking name span) l h = read_cache-IsKept name span l h
    go_on-IsKept graph (resolved node span) l h =
        IsBalanced-SameSpans x state_text others (hand_over-SameSpans state_text span node l) h
    go_on-IsKept graph (ending span (n ∷ ns)) l h = record {
      keys = h.keys;
      spans = rw (x.begun-note span n l.world, x.finished-note span n l.world) h.spans;
    }
    go_on-IsKept graph (ending span []) l h = record {
      keys = h.keys;
      spans = end-Balanced x span [] l.world _ (
          perm-Balanced x l.world
            (Perm.trans
              (Perm.append_left (flow_list x l.flow_span)
                (perm_middle (values l.atom_spans) others))
              (perm_middle (flow_list x l.flow_span) _))
            h.spans);
    }
