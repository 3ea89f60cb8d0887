-- ===== src/Taskflow/Threads/Balance.antt =====
-- listener.py: the spans of a listener in several threads: open, held by a thread, or ended.
use mathlib.Core.List.{Perm, perm_middle}
use mathlib.Core.List.Perm
use opentelemetry_openstack.Prelude.{String, ◌≡◌, List, [], ◌∷◌, ◌++◌}
use opentelemetry_openstack.Py.Dict.{values}
use opentelemetry_openstack.Otel.Span.{Telemetry, note_all}
use opentelemetry_openstack.Otel.Laws.{Exports}
use opentelemetry_openstack.Taskflow.Notification.{State, Notification, atom_key}
use opentelemetry_openstack.Taskflow.Listener.{Graph, TraceListener}
use opentelemetry_openstack.Taskflow.Listener.Balance.{
  perm-Balanced, start-Balanced, end-Balanced, flow_list, open_spans, IsBalanced,
}
use opentelemetry_openstack.Taskflow.Threads.Kept.{
  taken, open_spans-perm, notify-IsKept, go_on-IsKept,
}
use opentelemetry_openstack.Taskflow.Threads.{
  Thread, idle, notify, go_on, System, turned, Run, rest, notified, continued, begun, ended,
  entered, left, noted,
}

-- The spans that the threads have taken, before `others`.
abbrev pub all_taken : {T : Telemetry} → List (Thread T) → List T.Span → List T.Span
all_taken [] others = others
all_taken (p ∷ ps) others = taken p ++ all_taken ps others

swap-perm {ℓ} : {A : Type ℓ} (xs ys zs : List A) → Perm (xs ++ (ys ++ zs)) (ys ++ (xs ++ zs))
swap-perm [] ys zs = Perm.refl _
swap-perm (a ∷ xs) ys zs =
    Perm.trans (Perm.cons a (swap-perm xs ys zs)) (Perm.symm (perm_middle ys (xs ++ zs)))

module _ {T : Telemetry} (x : Exports T) (state_text : State → String) where
  all_taken-middle :
      (before after : List (Thread T)) (p : Thread T) (others : List T.Span)
      → Perm
          (all_taken (before ++ p ∷ after) others)
          (taken p ++ all_taken before (all_taken after others))
  all_taken-middle [] after p others = Perm.refl _
  all_taken-middle (q ∷ before) after p others =
      Perm.trans (Perm.append_left (taken q) (all_taken-middle before after p others))
        (swap-perm (taken q) (taken p) _)

  all_taken-perm :
      (ps : List (Thread T)) {others others' : List T.Span}
      → Perm others others'
      → Perm (all_taken ps others) (all_taken ps others')
  all_taken-perm [] h = h
  all_taken-perm (p ∷ ps) h = Perm.append_left (taken p) (all_taken-perm ps h)

  -- Each span that was begun is ended, open in the listener, taken by one thread, or of the rest.
  abbrev IsSound : System T state_text → Type 0
  IsSound s = IsBalanced x (all_taken s.threads s.others) s.listener

  turned-IsSound :
      (s : System T state_text) (p : Thread T) (before after : List (Thread T))
      (next : TraceListener T × Thread T)
      → s.threads ≡ before ++ p ∷ after
      → ((spans : List T.Span)
          → IsBalanced x (taken p ++ spans) s.listener
          → IsBalanced x (taken next.1 ++ spans) next.0)
      → IsSound s
      → IsSound (turned T state_text s before next after)
  turned-IsSound s p before after next at keeps h =
      open_spans-perm x state_text next.0
        (Perm.symm (all_taken-middle before after next.1 s.others))
        (keeps (all_taken before (all_taken after s.others)) (
          open_spans-perm x state_text s.listener (all_taken-middle before after p s.others)
            (rw at at h)))

  all_taken-cons :
      (ps : List (Thread T)) (span : T.Span) (others : List T.Span)
      → Perm (all_taken ps (span ∷ others)) (span ∷ all_taken ps others)
  all_taken-cons [] span others = Perm.refl _
  all_taken-cons (p ∷ ps) span others =
      Perm.trans (Perm.append_left (taken p) (all_taken-cons ps span others))
        (perm_middle (taken p) (all_taken ps others))

  pulled :
      (s : System T state_text) (span : T.Span) (others : List T.Span)
      → Perm
          (open_spans x s.listener (all_taken s.threads (span ∷ others)))
          (span ∷ open_spans x s.listener (all_taken s.threads others))
  pulled s span others =
      Perm.trans
        (Perm.append_left (flow_list x s.listener.flow_span) (
          Perm.trans
            (Perm.append_left (values s.listener.atom_spans) (all_taken-cons s.threads span others))
            (perm_middle (values s.listener.atom_spans) _)))
        (perm_middle (flow_list x s.listener.flow_span) _)

  -- From a system of which this holds, it holds in any interleaving of the threads that notify the
  -- listener and of the rest of the program: the spans that were begun are those that were ended,
  -- those that the listener holds open (the flow's, and one for each key of its table), those that
  -- a thread has taken from the listener and is about to end, and those of the rest, each as
  -- often; and no key of the table has two entries.
  pub run-IsBalanced :
      (graph : Graph) {s t : System T state_text} {ns : List Notification}
      → Run T state_text graph s ns t
      → IsBalanced x (all_taken s.threads s.others) s.listener
      → IsBalanced x (all_taken t.threads t.others) t.listener
  unfolding note_all
  run-IsBalanced graph rest h = h
  run-IsBalanced graph (notified {t} n before after at r) h =
      turned-IsSound t idle before after (notify T state_text n t.listener) at
        (λ spans. notify-IsKept x state_text spans n t.listener) (run-IsBalanced graph r h)
  run-IsBalanced graph (continued {t} p before after at r) h =
      turned-IsSound t p before after (go_on T state_text graph (t.listener, p)) at
        (λ spans. go_on-IsKept x state_text spans graph p t.listener) (run-IsBalanced graph r h)
  run-IsBalanced graph (begun {t} a r) h =
      let before = run-IsBalanced graph r h in
      record {
        keys = before.keys;
        spans =
            perm-Balanced x _ (Perm.symm (pulled t _ t.others))
              (start-Balanced x a t.listener.world _ before.spans);
      }
  run-IsBalanced graph (ended {t} span others gone r) h =
      let before =
        open_spans-perm x state_text t.listener (all_taken-perm t.threads gone)
          (run-IsBalanced graph r h) in
      record {
        keys = before.keys;
        spans =
            end-Balanced x span [] t.listener.world _
              (perm-Balanced x _ (pulled t span others) before.spans);
      }
  run-IsBalanced graph (entered {t} object c found r) h =
      let before = run-IsBalanced graph r h in
      record {
        keys = before.keys;
        spans =
            rw (x.begun-attach c t.listener.world, x.finished-attach c t.listener.world)
              before.spans;
      }
  run-IsBalanced graph (left {t} token r) h =
      let before = run-IsBalanced graph r h in
      record {
        keys = before.keys;
        spans =
            rw (x.begun-detach token t.listener.world, x.finished-detach token t.listener.world)
              before.spans;
      }
  run-IsBalanced graph (noted {t} span n r) h =
      let before = run-IsBalanced graph r h in
      record {
        keys = before.keys;
        spans =
            rw (x.begun-note span n t.listener.world, x.finished-note span n t.listener.world)
              before.spans;
      }
