-- ===== src/Taskflow/Threads/Quiet.antt =====
-- listener.py: a listener in several threads, after what it was notified of.
use opentelemetry_openstack.Prelude.{
  ℕ, zero, suc, String, ◌≡◌, refl, sym, ap, ◌∙◌, false, Option, none, some, List, [], ◌∷◌, arith,
}
use opentelemetry_openstack.Py.Dict.{Dict, lookup}
use opentelemetry_openstack.Otel.Span.{Telemetry}
use opentelemetry_openstack.Taskflow.Notification.{
  State, Notification, AtomKey, atom_key, same_key_iff,
}
use opentelemetry_openstack.Taskflow.Listener.{Graph, TraceListener, hand_over}
use opentelemetry_openstack.Taskflow.Listener.Protocol.{
  Protocol, advance, is_some, Implements, receive-Implements,
}
use opentelemetry_openstack.Taskflow.Threads.{
  Thread, idle, ending, notify, test_cache, fill_cache, read_cache, go_on, steps_left, System, Run,
  rest, notified, continued, begun, ended, entered, left, noted,
}
use opentelemetry_openstack.Taskflow.Threads.Alone.{go_on_for, notify-alone}

-- Where the notifications of a run, the latest first, lead the protocol.
abbrev pub reached : List Notification → Protocol → Protocol
reached [] p = p
reached (n ∷ ns) p = advance n (reached ns p)

-- The flow and every phase of an atom are over.
pub record IsOver (p : Protocol) : Type 0 where
  pub flow : p.flow_open ≡ false
  pub atoms : (k : AtomKey) → p.atom_open k ≡ false

record SameTable {T : Telemetry} (a b : TraceListener T) : Type 0 where
  flow_span : a.flow_span ≡ b.flow_span
  atom_spans : a.atom_spans ≡ b.atom_spans

pub empty_of_absent :
    {V : Type 0} (d : Dict AtomKey V) → ((k : AtomKey) → is_some (lookup k d) ≡ false) → d ≡ []
unfolding lookup
empty_of_absent [] h = refl
empty_of_absent ((k, v) ∷ d) h = absurd (ground (arith, h k, same_key_iff k k))

module _ {T : Telemetry} (state_text : State → String) (graph : Graph) where
  go_on-SameTable :
      (p : Thread T) (l : TraceListener T) → SameTable (go_on T state_text graph (l, p)).0 l
  unfolding go_on test_cache fill_cache read_cache hand_over
  go_on-SameTable idle l = record { flow_span = refl; atom_spans = refl }
  go_on-SameTable (ending span []) l = record { flow_span = refl; atom_spans = refl }
  go_on-SameTable (ending span (n ∷ ns)) l = record { flow_span = refl; atom_spans = refl }
  go_on-SameTable _ l = ground arith

  go_on_for-SameTable :
      (n : ℕ) (p : Thread T) (l : TraceListener T)
      → SameTable (go_on_for state_text graph n (l, p)).0 l
  unfolding go_on_for
  go_on_for-SameTable zero p l = record { flow_span = refl; atom_spans = refl }
  go_on_for-SameTable (suc n) p l =
      let (l', p') = go_on T state_text graph (l, p) in
      let first = go_on-SameTable p l in
      let later = go_on_for-SameTable n p' l' in
      record {
        flow_span = later.flow_span ∙ first.flow_span;
        atom_spans = later.atom_spans ∙ first.atom_spans;
      }

  Implements-SameTable :
      {a b : TraceListener T} {p : Protocol} → SameTable a b → Implements b p → Implements a p
  Implements-SameTable same h = record {
    flow = rw same.flow_span h.flow;
    atoms = λ k. rw same.atom_spans (h.atoms k);
  }

  notify-Implements :
      (n : Notification) (l : TraceListener T) (p : Protocol)
      → Implements l p
      → Implements (notify T state_text n l).0 (advance n p)
  notify-Implements n l p h =
      let (l', q) = notify T state_text n l in
      let same = go_on_for-SameTable (steps_left T state_text q) q l' in
      let whole = ap (λ at. at.0) (notify-alone state_text graph n l) in
      Implements-SameTable
        (record {
          flow_span = sym same.flow_span ∙ ap (λ m. m.flow_span) whole;
          atom_spans = sym same.atom_spans ∙ ap (λ m. m.atom_spans) whole;
        })
        (receive-Implements state_text graph n l p h)

  pub run-Implements :
      {s t : System T state_text} {ns : List Notification} (p : Protocol)
      → Run T state_text graph s ns t
      → Implements s.listener p
      → Implements t.listener (reached ns p)
  run-Implements p rest h = h
  run-Implements p (notified {t} n before after at r) h =
      notify-Implements n t.listener _ (run-Implements p r h)
  run-Implements p (continued {t} q before after at r) h =
      Implements-SameTable (go_on-SameTable q t.listener) (run-Implements p r h)
  run-Implements p (begun a r) h =
      Implements-SameTable (record { flow_span = refl; atom_spans = refl }) (run-Implements p r h)
  run-Implements p (ended span others gone r) h =
      Implements-SameTable (record { flow_span = refl; atom_spans = refl }) (run-Implements p r h)
  run-Implements p (entered object c found r) h =
      Implements-SameTable (record { flow_span = refl; atom_spans = refl }) (run-Implements p r h)
  run-Implements p (left token r) h =
      Implements-SameTable (record { flow_span = refl; atom_spans = refl }) (run-Implements p r h)
  run-Implements p (noted span n r) h =
      Implements-SameTable (record { flow_span = refl; atom_spans = refl }) (run-Implements p r h)

pub none_of_absent {ℓ} : {A : Type ℓ} (o : Option A) → is_some o ≡ false → o ≡ none
none_of_absent none h = refl
none_of_absent (some a) h = cc
