-- ===== src/Taskflow/Threads/Settled.antt =====
-- The steps that a thread has left, while other threads change the listener.
use opentelemetry_openstack.Prelude.{ℕ, zero, suc, ◌≤◌, String, ◌≡◌, refl, [], ◌∷◌, arith}
use opentelemetry_openstack.Otel.Span.{Telemetry}
use opentelemetry_openstack.Taskflow.Notification.{State, atom_key}
use opentelemetry_openstack.Taskflow.Listener.{Graph, TraceListener}
use opentelemetry_openstack.Taskflow.Threads.{
  Thread, idle, started, collecting, looking, resolved, ending, test_cache, fill_cache, read_cache,
  go_on, steps_left,
}

module _ {T : Telemetry} (state_text : State → String) (graph : Graph) where
  -- Where a thread stands after `n` steps, of which step `i` finds the listener `ls i`.
  unfoldable pub stands_after : ℕ → (ℕ → TraceListener T) → Thread T → Thread T
  stands_after zero ls p = p
  stands_after (suc n) ls p =
      stands_after n (λ i. ls (suc i)) (go_on T state_text graph (ls 0, p)).1

  pub go_on-steps_left :
      (p : Thread T) (l : TraceListener T) (n : ℕ)
      → steps_left T state_text p ≤ suc n
      → steps_left T state_text (go_on T state_text graph (l, p)).1 ≤ n
  unfolding go_on test_cache fill_cache read_cache
  go_on-steps_left idle l n h = ground arith
  go_on-steps_left (started name span) l n h = ground arith
  go_on-steps_left (collecting name span) l n h = ground arith
  go_on-steps_left (looking name span) l n h = ground arith
  go_on-steps_left (resolved node span) l n h = ground arith
  go_on-steps_left (ending span []) l n h = ground arith
  go_on-steps_left (ending span (m ∷ ms)) l n h = ground arith

  pub settles :
      (n : ℕ) (ls : ℕ → TraceListener T) (p : Thread T)
      → steps_left T state_text p ≤ n
      → stands_after n ls p ≡ idle
  unfolding stands_after
  settles zero ls idle h = refl
  settles zero ls (ending span []) h = ground arith
  settles zero ls (ending span (m ∷ ms)) h = ground arith
  settles zero ls _ h = ground arith
  settles (suc n) ls p h = settles n (λ i. ls (suc i)) _ (go_on-steps_left p (ls 0) n h)
