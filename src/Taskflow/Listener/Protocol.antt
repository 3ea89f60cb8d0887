-- ===== src/Taskflow/Listener/Protocol.antt =====
-- The listener against an abstract protocol that forgets the spans: whether the flow's span is
-- open, and which atoms' phases have an open span.
use opentelemetry_openstack.Prelude.{
  String, ◌≡◌, refl, Bool, true, false, Option, none, some, List, [], ◌∷◌, if◌then◌else◌, arith,
}
use opentelemetry_openstack.Py.Dict.{lookup, lookup-put, lookup-erase}
use opentelemetry_openstack.Otel.Span.{Telemetry}
use opentelemetry_openstack.Taskflow.Notification.{
  State, running, reverting, success, failure, reverted, revert_failure, suspended, Method, execute,
  revert, Kind, Details, Notification, flow, atom, AtomKey, atom_key, same_key, same_key_iff,
  atom_start_method, atom_finish_method, flow_finish_state,
}
use opentelemetry_openstack.Taskflow.Listener.{
  Graph, TraceListener, create, start_flow, finish_flow, flow_receiver, open_atom, finish_atom,
  receive, receive_all,
}
use opentelemetry_openstack.Taskflow.Listener.Steps.{
  SameSpans, locked_start, locked_step, on_atom-SameSpans,
}

pub record Protocol : Type 0 where
  pub flow_open : Bool
  pub atom_open : AtomKey → Bool

abbrev pub idle : Protocol
idle = record { flow_open = false; atom_open = λ k. false }

abbrev assign : (AtomKey → Bool) → AtomKey → Bool → AtomKey → Bool
assign f k b j = if same_key k j then b else f j

-- What a notification means: a phase is open from its start to its end.
abbrev pub advance : Notification → Protocol → Protocol
advance (flow running d) p = record p { flow_open = true }
advance (flow success d) p = record p { flow_open = false }
advance (flow failure d) p = record p { flow_open = false }
advance (flow reverted d) p = record p { flow_open = false }
advance (flow revert_failure d) p = record p { flow_open = false }
advance (flow suspended d) p = record p { flow_open = false }
advance (atom k running d) p = record p { atom_open = assign p.atom_open (d.uuid, execute) true }
advance (atom k reverting d) p = record p { atom_open = assign p.atom_open (d.uuid, revert) true }
advance (atom k success d) p = record p { atom_open = assign p.atom_open (d.uuid, execute) false }
advance (atom k failure d) p = record p { atom_open = assign p.atom_open (d.uuid, execute) false }
advance (atom k reverted d) p = record p { atom_open = assign p.atom_open (d.uuid, revert) false }
advance (atom k revert_failure d) p = record p {
  atom_open = assign p.atom_open (d.uuid, revert) false;
}
advance _ p = p

abbrev pub advance_all : List Notification → Protocol → Protocol
advance_all [] p = p
advance_all (n ∷ ns) p = advance_all ns (advance n p)

abbrev pub is_some {ℓ} : {A : Type ℓ} → Option A → Bool
is_some none = false
is_some (some a) = true

pub record Implements {T : Telemetry} (l : TraceListener T) (p : Protocol) : Type 0 where
  pub flow : is_some l.flow_span ≡ p.flow_open
  pub atoms : (k : AtomKey) → is_some (lookup k l.atom_spans) ≡ p.atom_open k

module _ {T : Telemetry} (state_text : State → String) where
  flow-Implements :
      (state : State) (d : Details) (l : TraceListener T) (p : Protocol)
      → Implements l p
      → Implements (flow_receiver T state_text state d l) (advance (Notification.flow state d) p)
  unfolding flow_receiver start_flow finish_flow flow_finish_state
  flow-Implements running d l p h = record {
    flow = ground (arith, h.flow);
    atoms = λ k. ground (arith, h.atoms k);
  }
  flow-Implements _ d l p h = record {
    flow = ground (arith, h.flow);
    atoms = λ k. ground (arith, h.atoms k);
  }

  started-Implements :
      (kind : Kind) (name uuid : Option String) (m : Method) (l : TraceListener T) (p : Protocol)
      → Implements l p
      → Implements
          (locked_start state_text kind name uuid m l)
          (record p { atom_open = assign p.atom_open (uuid, m) true })
  unfolding locked_start open_atom
  started-Implements kind name uuid m l p h = record {
    flow = ground (arith, h.flow);
    atoms = λ k. ground (
      arith,
      h.atoms k,
      lookup-put (uuid, m) k (open_atom T state_text kind name uuid m l).0 l.atom_spans,
      same_key_iff (uuid, m) k,
    );
  }

  finished-Implements :
      (uuid : Option String) (m : Method) (failed : Bool) (d : Details) (l : TraceListener T)
      (p : Protocol)
      → Implements l p
      → Implements
          (finish_atom T state_text uuid m failed d.result l)
          (record p { atom_open = assign p.atom_open (uuid, m) false })
  unfolding finish_atom
  finished-Implements uuid m failed d l p h = record {
    flow = ground (arith, h.flow);
    atoms = λ k.
        ground (arith, h.atoms k, lookup-erase (uuid, m) k l.atom_spans, same_key_iff (uuid, m) k);
  }

  atom-Implements :
      (kind : Kind) (state : State) (d : Details) (l : TraceListener T) (p : Protocol)
      → Implements l p
      → Implements (locked_step state_text kind state d l) (advance (atom kind state d) p)
  unfolding locked_step atom_start_method atom_finish_method
  atom-Implements kind running d l p h = started-Implements kind d.name d.uuid execute l p h
  atom-Implements kind reverting d l p h = started-Implements kind d.name d.uuid revert l p h
  atom-Implements kind success d l p h = finished-Implements d.uuid execute false d l p h
  atom-Implements kind failure d l p h = finished-Implements d.uuid execute true d l p h
  atom-Implements kind reverted d l p h = finished-Implements d.uuid revert false d l p h
  atom-Implements kind revert_failure d l p h = finished-Implements d.uuid revert true d l p h
  atom-Implements kind _ d l p h = h

  Implements-SameSpans :
      {a b : TraceListener T} {p : Protocol} → SameSpans a b → Implements b p → Implements a p
  Implements-SameSpans same h = record {
    flow = rw same.flow_span h.flow;
    atoms = λ k. rw same.atom_spans (h.atoms k);
  }

  pub receive-Implements :
      (graph : Graph) (n : Notification) (l : TraceListener T) (p : Protocol)
      → Implements l p
      → Implements (receive T state_text graph n l) (advance n p)
  unfolding receive
  receive-Implements graph (flow state d) l p h = flow-Implements state d l p h
  receive-Implements graph (atom kind state d) l p h =
      Implements-SameSpans (on_atom-SameSpans state_text graph kind state d l)
        (atom-Implements kind state d l p h)

  -- After any notifications, in any order, a listener that implements a state of the protocol
  -- implements the state to which the notifications lead: the flow's span is open exactly when the
  -- last notification of a flow that opens or closes it opened it, and an atom's phase has an open
  -- span exactly when its last start came after its last end.
  pub receive_all-Implements :
      (graph : Graph) (ns : List Notification) (l : TraceListener T) (p : Protocol)
      → Implements l p
      → Implements (receive_all T state_text graph ns l) (advance_all ns p)
  unfolding receive_all
  receive_all-Implements graph [] l p h = h
  receive_all-Implements graph (n ∷ ns) l p h =
      receive_all-Implements graph ns (receive T state_text graph n l) (advance n p)
        (receive-Implements graph n l p h)

  pub create-Implements : (w : T.World) → Implements (create T state_text w) idle
  unfolding create lookup
  create-Implements w = record { flow = refl; atoms = λ k. refl }
