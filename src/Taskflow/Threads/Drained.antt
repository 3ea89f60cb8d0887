-- ===== src/Taskflow/Threads/Drained.antt =====
-- listener.py: the threads that have a span to end.
use mathlib.Core.List.{append_assoc}
use opentelemetry_openstack.Prelude.{
  ℕ, zero, suc, ◌≤◌, String, ◌≡◌, refl, sym, ◌∙◌, List, [], ◌∷◌, ◌++◌, arith, All, All-append,
}
use opentelemetry_openstack.Otel.Span.{Telemetry}
use opentelemetry_openstack.Otel.Laws.{Exports}
use opentelemetry_openstack.Taskflow.Notification.{State, Notification}
use opentelemetry_openstack.Taskflow.Listener.{Graph, TraceListener}
use opentelemetry_openstack.Taskflow.Listener.Protocol.{Protocol, Implements}
use opentelemetry_openstack.Taskflow.Listener.Balance.{Balanced, IsBalanced}
use opentelemetry_openstack.Taskflow.Threads.{
  Thread, idle, go_on, steps_left, System, turned, Run, rest, notified, continued, begun, ended,
  entered, left, noted,
}
use opentelemetry_openstack.Taskflow.Threads.Alone.{go_on_for}
use opentelemetry_openstack.Taskflow.Threads.Balance.{all_taken, run-IsBalanced}
use opentelemetry_openstack.Taskflow.Threads.Settled.{stands_after, settles, go_on-steps_left}
use opentelemetry_openstack.Taskflow.Threads.Quiet.{
  reached, IsOver, empty_of_absent, none_of_absent, run-Implements,
}

abbrev pub AllIdle : {T : Telemetry} → List (Thread T) → Type 0
AllIdle = All (λ p. p ≡ idle)

all_taken-AllIdle :
    {T : Telemetry} (ps : List (Thread T)) (others : List T.Span)
    → AllIdle ps
    → all_taken ps others ≡ others
all_taken-AllIdle [] others h = refl
all_taken-AllIdle (p ∷ ps) others (h, hs) = rw h (all_taken-AllIdle ps others hs)

module _ {T : Telemetry} (state_text : State → String) (graph : Graph) where
  pub Run-trans :
      {s t u : System T state_text} {ns ms : List Notification}
      → Run T state_text graph s ns t
      → Run T state_text graph t ms u
      → Run T state_text graph s (ms ++ ns) u
  Run-trans r rest = r
  Run-trans r (notified n before after at q) = notified n before after at (Run-trans r q)
  Run-trans r (continued p before after at q) = continued p before after at (Run-trans r q)
  Run-trans r (begun a q) = begun a (Run-trans r q)
  Run-trans r (ended span others gone q) = ended span others gone (Run-trans r q)
  Run-trans r (entered object c found q) = entered object c found (Run-trans r q)
  Run-trans r (left token q) = left token (Run-trans r q)
  Run-trans r (noted span n q) = noted span n (Run-trans r q)

  go_on_for-settles :
      (n : ℕ) (p : Thread T) (l : TraceListener T)
      → steps_left T state_text p ≤ n
      → (go_on_for state_text graph n (l, p)).1 ≡ idle
  unfolding go_on_for stands_after
  go_on_for-settles zero p l h = settles state_text graph 0 (λ i. l) p h
  go_on_for-settles (suc n) p l h =
      go_on_for-settles n _ _ (go_on-steps_left state_text graph p l n h)

  continues :
      {s : System T state_text} {ns : List Notification} (n : ℕ) (t : System T state_text)
      (p : Thread T) (before after : List (Thread T))
      → t.threads ≡ before ++ p ∷ after
      → Run T state_text graph s ns t
      → Run T state_text graph s ns
          (turned T state_text t before (go_on_for state_text graph n (t.listener, p)) after)
  unfolding go_on_for
  continues zero t p before after at r = rw (sym at) r
  continues (suc n) t p before after at r =
      let next = go_on T state_text graph (t.listener, p) in
      continues n (turned T state_text t before next after) next.1 before after refl
        (continued p before after at r)

  -- The threads of `after` run one by one until they are idle.
  drained :
      (before after : List (Thread T)) (t : System T state_text)
      → t.threads ≡ before ++ after
      → AllIdle before
      → (u : System T state_text) × Run T state_text graph t [] u
        × AllIdle u.threads
        × (u.others ≡ t.others)
  drained before [] t at h = (t, rest, rw at (All-append _ before [] h tt), refl)
  drained before (p ∷ after) t at h =
      let next = go_on_for state_text graph (steps_left T state_text p) (t.listener, p) in
      let settled = go_on_for-settles (steps_left T state_text p) p t.listener (omega arith) in
      let (u, r, quiet, same) =
        drained (before ++ next.1 ∷ []) after (turned T state_text t before next after)
          (sym (append_assoc before (next.1 ∷ []) after))
          (All-append _ before (next.1 ∷ []) h (settled, tt)) in
      (u, Run-trans (continues (steps_left T state_text p) t p before after at rest) r, quiet, same)

  module _ (x : Exports T) {s : System T state_text} (p : Protocol)
      (balanced : IsBalanced x (all_taken s.threads s.others) s.listener)
      (implements : Implements s.listener p) where
    -- With nothing open and every thread idle, each span that was begun is ended or of the rest.
    idle-Balanced :
        {u : System T state_text} {ns : List Notification}
        → Run T state_text graph s ns u
        → IsOver (reached ns p)
        → AllIdle u.threads
        → Balanced x u.listener.world u.others
    idle-Balanced {u} r over quiet =
        let after = run-Implements state_text graph p r implements in
        let no_flow = none_of_absent u.listener.flow_span (after.flow ∙ over.flow) in
        let no_atom = empty_of_absent u.listener.atom_spans (λ k. after.atoms k ∙ over.atoms k) in
        rw (no_flow, no_atom, all_taken-AllIdle u.threads u.others quiet) at
          (run-IsBalanced x state_text graph r balanced).spans

    -- From a system whose spans are balanced and whose listener implements a state of the protocol,
    -- after a run in any interleaving, with notifications after which the flow and every phase of
    -- an atom are over, the threads that are still in a receiver come to return by steps of their
    -- own, and then every span that was begun is ended or is one of the rest of the program.
    pub all_spans_end :
        {t : System T state_text} {ns : List Notification}
        → Run T state_text graph s ns t
        → IsOver (reached ns p)
        → (u : System T state_text) × Run T state_text graph t [] u
          × AllIdle u.threads
          × (u.others ≡ t.others)
          × Balanced x u.listener.world u.others
    all_spans_end {t} r over =
        let (u, more, quiet, same) = drained [] t.threads t refl tt in
        (u, more, quiet, same, idle-Balanced (Run-trans r more) over quiet)
