-- ===== src/Taskflow/Listener/Balance.antt =====
-- listener.py: the spans that were begun, against those that have ended and those in the table.
use mathlib.Core.List.{Perm, perm_middle}
use mathlib.Core.List.Perm
use opentelemetry_openstack.Prelude.{
  String, ◌≡◌, refl, Bool, true, false, Option, none, some, List, [], ◌∷◌, ◌++◌, Option-cases, inl,
  inr,
}
use opentelemetry_openstack.Py.Dict.{
  values, lookup, NodupKeys, put-NodupKeys, erase-NodupKeys, values-put_perm, values-erase_perm,
}
use opentelemetry_openstack.Otel.Span.{SpanArgs, Note, Telemetry, note_all}
use opentelemetry_openstack.Otel.Laws.{Exports, begun-note_all, finished-note_all}
use opentelemetry_openstack.Taskflow.Notification.{
  State, running, reverting, success, failure, reverted, revert_failure, suspended, Method, execute,
  revert, Kind, Details, Failure, Notification, flow, atom, atom_key, atom_start_method,
  atom_finish_method, flow_finish_state,
}
use opentelemetry_openstack.Taskflow.Listener.{
  Graph, TraceListener, start_flow, finish_flow, flow_receiver, open_atom, atom_args, flow_args,
  finish_atom, receive, receive_all,
}
use opentelemetry_openstack.Taskflow.Listener.Steps.{
  SameSpans, locked_start, locked_step, on_atom-SameSpans,
}

module _ {T : Telemetry} (x : Exports T) where
  -- The spans that were begun are those that were ended and those of the list, each as often.
  abbrev pub Balanced : T.World → List T.Span → Type 0
  Balanced w live = Perm (x.begun w) (x.finished w ++ live)

  pub start-Balanced :
      (a : SpanArgs T.Context) (w : T.World) (live : List T.Span)
      → Balanced w live
      → Balanced (T.start_span a w).1 ((T.start_span a w).0 ∷ live)
  start-Balanced a w live h =
      rw (x.begun-start a w, x.finished-start a w)
        (Perm.trans (Perm.cons _ h) (Perm.symm (perm_middle (x.finished w) live)))

  pub end-Balanced :
      (s : T.Span) (ns : List Note) (w : T.World) (live : List T.Span)
      → Balanced w (s ∷ live)
      → Balanced (T.end_span s (note_all T s ns w)) live
  end-Balanced s ns w live h =
      rw
        (
          x.begun-end s (note_all T s ns w),
          x.finished-end s (note_all T s ns w),
          begun-note_all x s ns w,
          finished-note_all x s ns w,
        )
        (Perm.trans h (perm_middle (x.finished w) live))

  pub perm-Balanced :
      (w : T.World) {live live' : List T.Span}
      → Perm live live'
      → Balanced w live
      → Balanced w live'
  perm-Balanced w p h = Perm.trans h (Perm.append_left (x.finished w) p)

  abbrev pub flow_list : Option T.Span → List T.Span
  flow_list none = []
  flow_list (some s) = s ∷ []

  -- `others` are the spans of the rest of the program that are open.
  abbrev pub open_spans : TraceListener T → List T.Span → List T.Span
  open_spans l others = flow_list l.flow_span ++ (values l.atom_spans ++ others)

  pub record IsBalanced (others : List T.Span) (l : TraceListener T) : Type 0 where
    pub keys : NodupKeys l.atom_spans
    pub spans : Balanced l.world (open_spans l others)

  module _ (state_text : State → String) (others : List T.Span) where
    pub start_flow-IsBalanced :
        (d : Details) (o : Option T.Span) (l : TraceListener T)
        → l.flow_span ≡ o
        → IsBalanced others l
        → IsBalanced others (start_flow T state_text d l)
    unfolding start_flow
    start_flow-IsBalanced d none l e h = rw e (record {
      keys = h.keys;
      spans = start-Balanced (flow_args T state_text d) l.world _ (rw e at h.spans);
    })
    start_flow-IsBalanced d (some s) l e h =
        rw e (record { keys = h.keys; spans = rw e at h.spans })

    finish_flow-IsBalanced :
        (state : State) (failed : Bool) (o : Option T.Span) (l : TraceListener T)
        → l.flow_span ≡ o
        → IsBalanced others l
        → IsBalanced others (finish_flow T state_text state failed l)
    unfolding finish_flow
    finish_flow-IsBalanced state failed none l e h =
        rw e (record { keys = h.keys; spans = rw e at h.spans })
    finish_flow-IsBalanced state failed (some s) l e h =
        rw e (record { keys = h.keys; spans = end-Balanced s _ l.world _ (rw e at h.spans) })

    flow-IsBalanced :
        (state : State) (d : Details) (l : TraceListener T)
        → IsBalanced others l
        → IsBalanced others (flow_receiver T state_text state d l)
    unfolding flow_receiver flow_finish_state
    flow-IsBalanced running d l h = start_flow-IsBalanced d l.flow_span l refl h
    flow-IsBalanced success d l h = finish_flow-IsBalanced success false l.flow_span l refl h
    flow-IsBalanced failure d l h = finish_flow-IsBalanced failure true l.flow_span l refl h
    flow-IsBalanced reverted d l h = finish_flow-IsBalanced reverted true l.flow_span l refl h
    flow-IsBalanced revert_failure d l h =
        finish_flow-IsBalanced revert_failure true l.flow_span l refl h
    flow-IsBalanced suspended d l h = finish_flow-IsBalanced suspended false l.flow_span l refl h
    flow-IsBalanced _ d l h = h

    pub open_atom-IsBalanced :
        (kind : Kind) (name uuid : Option String) (m : Method) (l : TraceListener T)
        → lookup (uuid, m) l.atom_spans ≡ none
        → IsBalanced others l
        → IsBalanced others (open_atom T state_text kind name uuid m l).1
    unfolding open_atom
    open_atom-IsBalanced kind name uuid m l fresh h =
        let args = atom_args T state_text kind name uuid m l.flow_context in
        let (span, w) = T.start_span args l.world in
        let flows = flow_list l.flow_span in
        record {
          keys = put-NodupKeys (uuid, m) span l.atom_spans h.keys;
          spans =
              perm-Balanced w
                (Perm.trans (Perm.symm (perm_middle flows _)) (
                  Perm.append_left flows (
                    Perm.append_right others
                      (Perm.symm (values-put_perm (uuid, m) span l.atom_spans fresh)))))
                (start-Balanced args l.world _ h.spans);
        }

    locked_start-IsBalanced :
        (kind : Kind) (name uuid : Option String) (m : Method) (l : TraceListener T)
        → IsBalanced others l
        → IsBalanced others (locked_start state_text kind name uuid m l)
    unfolding locked_start
    locked_start-IsBalanced kind name uuid m l h =
        elim (Option-cases (lookup (uuid, m) l.atom_spans)) [
          | inl fresh ↦ rw (fresh, locked_start) (open_atom-IsBalanced kind name uuid m l fresh h)
          | inr (span, found) ↦ rw (found, locked_start) h
        ]

    finish_atom-IsBalanced :
        (uuid : Option String) (m : Method) (failed : Bool) (result : Option Failure)
        (l : TraceListener T)
        → IsBalanced others l
        → IsBalanced others (finish_atom T state_text uuid m failed result l)
    unfolding finish_atom
    finish_atom-IsBalanced uuid m failed result l h =
        elim (Option-cases (lookup (uuid, m) l.atom_spans)) [
          | inl absent ↦ rw (absent, finish_atom) h
          | inr (span, found) ↦
              rw (found, finish_atom)
                (record {
                  keys = erase-NodupKeys (uuid, m) l.atom_spans h.keys;
                  spans = end-Balanced span _ l.world _ (
                      perm-Balanced l.world
                        (Perm.trans
                          (Perm.append_left (flow_list l.flow_span) (
                            Perm.append_right others
                              (values-erase_perm (uuid, m) span l.atom_spans h.keys found)))
                          (perm_middle (flow_list l.flow_span) _))
                        h.spans);
                })
        ]

    atom-IsBalanced :
        (kind : Kind) (state : State) (d : Details) (l : TraceListener T)
        → IsBalanced others l
        → IsBalanced others (locked_step state_text kind state d l)
    unfolding locked_step atom_start_method atom_finish_method
    atom-IsBalanced kind running d l h = locked_start-IsBalanced kind d.name d.uuid execute l h
    atom-IsBalanced kind reverting d l h = locked_start-IsBalanced kind d.name d.uuid revert l h
    atom-IsBalanced kind success d l h = finish_atom-IsBalanced d.uuid execute false d.result l h
    atom-IsBalanced kind failure d l h = finish_atom-IsBalanced d.uuid execute true d.result l h
    atom-IsBalanced kind reverted d l h = finish_atom-IsBalanced d.uuid revert false d.result l h
    atom-IsBalanced kind revert_failure d l h =
        finish_atom-IsBalanced d.uuid revert true d.result l h
    atom-IsBalanced kind _ d l h = h

    pub IsBalanced-SameSpans :
        {a b : TraceListener T} → SameSpans a b → IsBalanced others b → IsBalanced others a
    IsBalanced-SameSpans same h = record {
      keys = rw same.atom_spans h.keys;
      spans = rw (same.world, same.flow_span, same.atom_spans) h.spans;
    }

    receive-IsBalanced :
        (graph : Graph) (n : Notification) (l : TraceListener T)
        → IsBalanced others l
        → IsBalanced others (receive T state_text graph n l)
    unfolding receive
    receive-IsBalanced graph (flow state d) l h = flow-IsBalanced state d l h
    receive-IsBalanced graph (atom kind state d) l h =
        IsBalanced-SameSpans (on_atom-SameSpans state_text graph kind state d l)
          (atom-IsBalanced kind state d l h)

    -- After any notifications, in any order and with any repetitions, the spans that were begun are
    -- those that were ended, those that the listener still holds open (the flow's and one for each
    -- key of its table) and those of the rest of the program, each as often; and no key of the
    -- table has two entries.
    receive_all-IsBalanced :
        (graph : Graph) (ns : List Notification) (l : TraceListener T)
        → IsBalanced others l
        → IsBalanced others (receive_all T state_text graph ns l)
    unfolding receive_all
    receive_all-IsBalanced graph [] l h = h
    receive_all-IsBalanced graph (n ∷ ns) l h =
        receive_all-IsBalanced graph ns (receive T state_text graph n l)
          (receive-IsBalanced graph n l h)
