-- ===== src/Bootstrap/Forkhook.antt =====
-- _oslo_service_eventlet.py: `register_forkhook`, and the handler that it registers.
use opentelemetry_openstack.Prelude.{
  ℕ, suc, ◌+◌, ◌≡◌, refl, ◌∙◌, Bool, true, false, not, List, [], ◌∷◌, ◌++◌, if◌then◌else◌, arith,
  Bool-cases, inl, inr,
}
use opentelemetry_openstack.Py.Value.{
  Value, Exn, is_exception, Result, ok, err, bind_result, getattr, getattr_required, is_none,
  truthy,
}
use opentelemetry_openstack.Py.Exec.{Exec, pure, lift, try_except, ◌>>=◌}
use opentelemetry_openstack.Py.Exec.Laws.{Result-cases}
use opentelemetry_openstack.Bootstrap.Process.{
  ForkHandler, fresh_hub_handler, foreign, Platform, State,
}

module _ (O : Platform) where
  -- `hubs and getattr(hubs._threadlocal, "hub", None) is not None`
  unfoldable pub has_hub : Value → Result Bool
  has_hub hubs =
      if truthy hubs
      then bind_result (getattr_required hubs "_threadlocal")
          (λ threadlocal. bind_result (getattr threadlocal "hub") (λ hub. ok (not (is_none hub))))
      else ok false

  abbrev pub fresh_hub_if : Bool → Exec O.World (Unit {0})
  fresh_hub_if b = if b then O.use_hub else pure tt

  -- `_fresh_hub`
  unfoldable pub fresh_hub : Exec O.World (Unit {0})
  fresh_hub =
      try_except (λ w. (lift (has_hub (O.eventlet_hubs w)) >>= fresh_hub_if) w) (λ e. pure tt)

  -- The registration of the handler.
  abbrev install_forkhook : State O → State O
  install_forkhook p = record p {
    after_in_child = p.after_in_child ++ fresh_hub_handler ∷ [];
    forkhook_installed = true;
  }

  -- `register_forkhook()`
  unfoldable pub register_forkhook : Exec (State O) Bool
  register_forkhook p =
      if p.forkhook_installed
      then (ok true, p)
      else if O.has_register_at_fork
      then (ok true, install_forkhook p)
      else (ok false, p)

abbrev pub holds : Result Bool → Bool
holds (ok b) = b
holds (err e) = false

-- How many of the registered handlers are `_fresh_hub`.
unfoldable pub fresh_hub_count : List ForkHandler → ℕ
fresh_hub_count [] = 0
fresh_hub_count (fresh_hub_handler ∷ hs) = suc (fresh_hub_count hs)
fresh_hub_count (foreign n ∷ hs) = fresh_hub_count hs

fresh_hub_count-append :
    (xs ys : List ForkHandler)
    → fresh_hub_count (xs ++ ys) ≡ fresh_hub_count xs + fresh_hub_count ys
unfolding fresh_hub_count
fresh_hub_count-append [] ys = omega arith
fresh_hub_count-append (fresh_hub_handler ∷ xs) ys = omega (arith, fresh_hub_count-append xs ys)
fresh_hub_count-append (foreign n ∷ xs) ys = fresh_hub_count-append xs ys

-- A call of `register_forkhook`, or a handler that other code registers.
pub data Event : Type 0 where
  register : Event
  other_handler : ℕ → Event

module _ (O : Platform) where
  unfoldable pub event : Event → State O → State O
  event register p = (register_forkhook O p).1
  event (other_handler n) p = record p { after_in_child = p.after_in_child ++ foreign n ∷ [] }

  unfoldable pub events : List Event → State O → State O
  events [] p = p
  events (e ∷ es) p = events es (event e p)

  -- `_fresh_hub` is registered once if the flag is set, and not at all otherwise.
  abbrev pub IsOnce : State O → Type 0
  IsOnce p = fresh_hub_count p.after_in_child ≡ (if p.forkhook_installed then 1 else 0)

  event-IsOnce : (e : Event) (p : State O) → IsOnce p → IsOnce (event e p)
  unfolding event register_forkhook fresh_hub_count
  event-IsOnce register p once = elim (Bool-cases p.forkhook_installed) [
    | inl installed ↦ rw installed (rw installed at once)
    | inr absent ↦ elim (Bool-cases O.has_register_at_fork) [
      | inl can ↦
          let unregistered = rw absent at once in
          let e = fresh_hub_count-append p.after_in_child (fresh_hub_handler ∷ []) in
          rw (absent, can) (omega (arith, e, unregistered))
      | inr cannot ↦ rw (absent, cannot) (rw absent at once)
    ]
  ]
  event-IsOnce (other_handler n) p once =
      (let e = fresh_hub_count-append p.after_in_child (foreign n ∷ []) in omega (arith, e)) ∙ once

  events-IsOnce : (es : List Event) (p : State O) → IsOnce p → IsOnce (events es p)
  unfolding events
  events-IsOnce [] p once = once
  events-IsOnce (e ∷ es) p once = events-IsOnce es (event e p) (event-IsOnce e p once)

  -- Where forks can have handlers, in a process whose flag says whether `_fresh_hub` is registered,
  -- once or not at all: after any calls of `register_forkhook` and registrations of other handlers,
  -- one more call returns `True`, and `_fresh_hub` is registered exactly once.
  pub register_forkhook-once :
      (es : List Event) (p : State O)
      → O.has_register_at_fork ≡ true
      → IsOnce p
      → ((register_forkhook O (events es p)).0 ≡ ok true)
        × (fresh_hub_count (register_forkhook O (events es p)).1.after_in_child ≡ 1)
  unfolding event register_forkhook
  register_forkhook-once es p can once =
      let later = event-IsOnce register (events es p) (events-IsOnce es p once) in
      elim (Bool-cases (events es p).forkhook_installed) [
        | inl installed ↦ rw installed (refl, rw installed at later)
        | inr absent ↦ rw (absent, can) (refl, rw (absent, can) at later)
      ]

  -- In the child the handler ends normally, whatever `Exception` it meets; it takes a fresh hub
  -- where the parent had one, and otherwise changes nothing.
  fresh_hub-ends :
      (w : O.World)
      → ((e : Exn) → has_hub O (O.eventlet_hubs w) ≡ err e → is_exception e ≡ true)
      → ((e : Exn) → (O.use_hub w).0 ≡ err e → is_exception e ≡ true)
      → ((fresh_hub O w).0 ≡ ok tt)
        × ((fresh_hub O w).1
            ≡ (if holds (has_hub O (O.eventlet_hubs w)) then (O.use_hub w).1 else w))
  unfolding fresh_hub try_except pure ◌>>=◌
  fresh_hub-ends w caught caught' = elim (Result-cases (has_hub O (O.eventlet_hubs w))) [
    | inl (b, read) ↦ elim (Bool-cases b) [
      | inl has ↦ elim (Result-cases (O.use_hub w).0) [
        | inl (u, used) ↦ rw (read, has, used) (refl, refl)
        | inr (e, raised) ↦ rw (read, has, raised, caught' e raised) (refl, refl)
      ]
      | inr has_not ↦ rw (read, has_not) (refl, refl)
    ]
    | inr (e, raised) ↦ rw (raised, caught e raised) (refl, refl)
  ]
