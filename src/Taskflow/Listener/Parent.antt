-- ===== src/Taskflow/Listener/Parent.antt =====
-- listener.py: the parent of an atom's span, and the context that the atom is given.
use mathlib.Core.Option.{none-ne-some, some-injective}
use opentelemetry_openstack.Prelude.{
  String, ◌≡◌, refl, Bool, true, false, Option, none, some, List, [], ◌∷◌, arith, ◌⊎◌, inl, inr,
  concat,
}
use opentelemetry_openstack.Py.Dict.{lookup, put, lookup-put}
use opentelemetry_openstack.Otel.Span.{SpanArgs, Telemetry}
use opentelemetry_openstack.Taskflow.Notification.{
  State, running, success, failure, reverted, revert_failure, suspended, Method, Kind, kind_name,
  method_name, Details, Notification, flow, atom, atom_key, same_key_iff, atom_start_method,
  flow_finish_state,
}
use opentelemetry_openstack.Taskflow.Listener.{
  Graph, Node, TraceListener, create, start_flow, finish_flow, flow_receiver, open_atom, atom_args,
  give_context, hand_over, known_atoms, find_atom, finish_atom, receive, receive_all,
}
use opentelemetry_openstack.Taskflow.Listener.Steps.{
  locked_start, locked_step, on_atom-SameSpans, on_atom-start,
}

-- The context for the atoms is the flow span's, and there is one while the flow's span is open.
abbrev pub IsLinked : {T : Telemetry} → TraceListener T → Type 0
IsLinked {T} l =
    ((l.flow_span ≡ none) × (l.flow_context ≡ none))
    ⊎ ((s : T.Span) × (c : T.Context) × (l.flow_span ≡ some s)
        × (l.flow_context ≡ some (T.set_span_in_context s c)))

module _ {T : Telemetry} (state_text : State → String) where
  start_flow-IsLinked :
      (d : Details) (o : Option T.Span) (l : TraceListener T)
      → l.flow_span ≡ o
      → IsLinked l
      → IsLinked (start_flow T state_text d l)
  unfolding start_flow
  start_flow-IsLinked d none l e h = rw e (inr (_, _, refl, refl))
  start_flow-IsLinked d (some s) l e h = rw e (rw e at h)

  finish_flow-IsLinked :
      (state : State) (failed : Bool) (l : TraceListener T)
      → IsLinked (finish_flow T state_text state failed l)
  unfolding finish_flow
  finish_flow-IsLinked state failed l = inl (ground arith, ground arith)

  flow-IsLinked :
      (state : State) (d : Details) (l : TraceListener T)
      → IsLinked l
      → IsLinked (flow_receiver T state_text state d l)
  unfolding flow_receiver flow_finish_state
  flow-IsLinked running d l h = start_flow-IsLinked d l.flow_span l refl h
  flow-IsLinked success d l h = finish_flow-IsLinked success false l
  flow-IsLinked failure d l h = finish_flow-IsLinked failure true l
  flow-IsLinked reverted d l h = finish_flow-IsLinked reverted true l
  flow-IsLinked revert_failure d l h = finish_flow-IsLinked revert_failure true l
  flow-IsLinked suspended d l h = finish_flow-IsLinked suspended false l
  flow-IsLinked _ d l h = h

  -- An atom's notification leaves the flow's span and its context alone.
  locked_step-keeps_flow :
      (kind : Kind) (state : State) (d : Details) (l : TraceListener T)
      → ((locked_step state_text kind state d l).flow_span ≡ l.flow_span)
        × ((locked_step state_text kind state d l).flow_context ≡ l.flow_context)
  unfolding locked_step locked_start finish_atom open_atom
  locked_step-keeps_flow kind state d l = ground arith

  receive-IsLinked :
      (graph : Graph) (n : Notification) (l : TraceListener T)
      → IsLinked l
      → IsLinked (receive T state_text graph n l)
  unfolding receive
  receive-IsLinked graph (flow state d) l h = flow-IsLinked state d l h
  receive-IsLinked graph (atom kind state d) l h =
      let same = on_atom-SameSpans state_text graph kind state d l in
      let (span, context) = locked_step-keeps_flow kind state d l in
      rw (same.flow_span, same.flow_context, span, context) h

  pub receive_all-IsLinked :
      (graph : Graph) (ns : List Notification) (l : TraceListener T)
      → IsLinked l
      → IsLinked (receive_all T state_text graph ns l)
  unfolding receive_all
  receive_all-IsLinked graph [] l h = h
  receive_all-IsLinked graph (n ∷ ns) l h =
      receive_all-IsLinked graph ns (receive T state_text graph n l) (receive-IsLinked graph n l h)

  module _ (graph : Graph) (kind : Kind) (state : State) (m : Method) (d : Details)
      (l : TraceListener T) (starts : atom_start_method state ≡ some m)
      (fresh : lookup (d.uuid, m) l.atom_spans ≡ none) where
    abbrev pub opened : T.Span × T.World
    opened = T.start_span (atom_args T state_text kind d.name d.uuid m l.flow_context) l.world

    opens :
        ((locked_step state_text kind state d l).world ≡ opened.1)
        × ((locked_step state_text kind state d l).atom_spans
            ≡ put (d.uuid, m) opened.0 l.atom_spans)
    unfolding locked_step locked_start open_atom
    opens = rw (starts, locked_step) (rw (fresh, locked_start) (refl, refl))

    pub entered :
        lookup (d.uuid, m) (receive T state_text graph (atom kind state d) l).atom_spans
        ≡ some opened.0
    unfolding receive
    entered = rw (
      (on_atom-SameSpans state_text graph kind state d l).atom_spans,
      opens.1,
      lookup-put (d.uuid, m) (d.uuid, m) opened.0 l.atom_spans,
      (same_key_iff (d.uuid, m) (d.uuid, m)).1 refl,
    )

    -- While the flow's span is open, the notification that starts a phase of an atom with no open
    -- span starts one whose parent context is the flow span's, and enters it under the atom's key.
    span_under_flow :
        (s : T.Span)
        → IsLinked l
        → l.flow_span ≡ some s
        → (a : SpanArgs T.Context) × (c : T.Context) × (a.parent ≡ some (T.set_span_in_context s c))
          × (a.name ≡ concat (concat "taskflow." (kind_name kind)) (concat "." (method_name m)))
          × ((receive T state_text graph (atom kind state d) l).world ≡ (T.start_span a l.world).1)
          × (lookup (d.uuid, m) (receive T state_text graph (atom kind state d) l).atom_spans
              ≡ some (T.start_span a l.world).0)
    unfolding receive
    span_under_flow s (inl (closed, _)) live = absurd (none-ne-some s (rw closed at live))
    span_under_flow s (inr (s', c, live', linked)) live =
        let same = on_atom-SameSpans state_text graph kind state d l in
        (
          atom_args T state_text kind d.name d.uuid m l.flow_context,
          c,
          rw (linked, some-injective s' s (rw live' at live)) refl,
          refl,
          rw (same.world, opens.0) refl,
          entered,
        )

    -- The atom that the graph has under the name, if it takes attributes, is given the context of
    -- the span that was started for it.
    pub context_reaches_atom :
        (node : Node)
        → find_atom T state_text d.name (known_atoms T state_text graph l) ≡ some node
        → node.sealed ≡ false
        → (receive T state_text graph (atom kind state d) l).contexts node.object
          ≡ some (T.set_span_in_context opened.0 (T.get_current opened.1))
    unfolding receive open_atom give_context hand_over
    context_reaches_atom node found takes =
        rw (on_atom-start state_text graph kind state d m l starts fresh)
          (rw (found, give_context) (rw takes (ground arith)))

module _ (T : Telemetry) (state_text : State → String) (graph : Graph) (kind : Kind) (state : State)
    (m : Method) (d : Details) (ns : List Notification) (w : T.World) where
  -- The listener after the given notifications.
  abbrev pub after : TraceListener T
  after = receive_all T state_text graph ns (create T state_text w)

  -- A listener is created and receives any notifications, one at a time, after which the flow's
  -- span is open. Then the notification that starts a phase of an atom with no open span starts
  -- one whose parent context is the flow span's, and enters it under the atom's key.
  pub atom_span_is_child :
      atom_start_method state ≡ some m
      → lookup (d.uuid, m) after.atom_spans ≡ none
      → (s : T.Span) → after.flow_span ≡ some s
      → (a : SpanArgs T.Context) × (c : T.Context) × (a.parent ≡ some (T.set_span_in_context s c))
        × (a.name ≡ concat (concat "taskflow." (kind_name kind)) (concat "." (method_name m)))
        × ((receive T state_text graph (atom kind state d) after).world
            ≡ (T.start_span a after.world).1)
        × (lookup (d.uuid, m) (receive T state_text graph (atom kind state d) after).atom_spans
            ≡ some (T.start_span a after.world).0)
  unfolding create
  atom_span_is_child starts fresh s live =
      span_under_flow state_text graph kind state m d after starts fresh s
        (receive_all-IsLinked state_text graph ns (create T state_text w) (inl (refl, refl))) live
