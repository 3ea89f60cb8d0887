-- ===== src/Log/Attached.antt =====
-- The instrumentor's handler, while oslo.log sets its handlers up again and other code adds and
-- removes others.
use opentelemetry_openstack.Prelude.{ℕ, ◌≤◌, ◌≡◌, ◌≢◌, refl, ◌∙◌, true, Option, none, some, arith}
use opentelemetry_openstack.Py.Value.{Value, Items, get, ok}
use opentelemetry_openstack.Py.Builtins.{Builtins}
use opentelemetry_openstack.Py.Exec.{Exec, pure, ◌>>=◌}
use opentelemetry_openstack.Py.Exec.Laws.{bind-ok, bind-lift-ok}
use opentelemetry_openstack.Py.Wrapt.{Wrapt, Target, Replaces}
use opentelemetry_openstack.Py.Wrapt.Laws.{unwrap-wrap}
use opentelemetry_openstack.Log.Level.{Defaults, handler_level}
use opentelemetry_openstack.Log.Instrumentor.{
  add_handler, remove_handler, Wrapper, setup_target, guarded_setup_wrapper, Host, Process,
  attach_handler, guarded_setup, Factory, detach_handler, restore_factory, uninstrument, instrument,
  configure_format, make_handler, provider_of, handler_args, install_record_factory, wrap_setup,
}
use opentelemetry_openstack.Log.Handlers.{
  count, without, count-attach_to, count-add_handler, count-remove_handler, remove_handler-without,
}

module _ (P : Wrapt Wrapper) (H : Host) where
  -- What the instrumentor keeps, and the functions, are as they were.
  abbrev pub Keeps : Process P H → Process P H → Type 0
  Keeps p q =
      (q.own_handler ≡ p.own_handler) × (q.old_factory ≡ p.old_factory) × (q.modules ≡ p.modules)

  -- One event of the process after the instrumentation: `oslo_log.setup` returns, by way of its
  -- wrapper, and has not attached the instrumentor's handler twice itself; other code adds or
  -- removes another handler; or something else changes, be it the factory of records.
  pub data Step : Process P H → Process P H → Type 0 where
    set_up :
        (setup : Exec (Process P H) Value) (p : Process P H) (v : Value)
        → (setup p).0 ≡ ok v
        → Keeps p (setup p).1
        → ((h : ℕ) → p.own_handler ≡ some h → count h (setup p).1.handlers ≤ 1)
        → Step p (guarded_setup P H setup p).1
    add :
        (j : ℕ) (p : Process P H)
        → p.own_handler ≢ some j
        → Step p (record p { handlers = add_handler j p.handlers })
    remove :
        (j : ℕ) (p : Process P H)
        → p.own_handler ≢ some j
        → Step p (record p { handlers = remove_handler j p.handlers })
    elsewhere :
        (f : Factory) (w : H.World) (p : Process P H) → Step p (record p { factory = f; world = w })

  pub data Steps : Process P H → Process P H → Type 0 where
    stop : (p : Process P H) → Steps p p
    step : (p q r : Process P H) → Step p q → Steps q r → Steps p r

  -- The instrumentor's handler is attached once, and its functions `m` and the factory `before` are
  -- still there.
  abbrev pub IsAttached : ℕ → Factory → P.Modules → Process P H → Type 0
  IsAttached h before m p =
      (p.own_handler ≡ some h)
      × (count h p.handlers ≡ 1)
      × (p.old_factory ≡ some before)
      × (p.modules ≡ m)

  -- What `setup` leaves, with the handler attached.
  set_up-IsAttached :
      (setup : Exec (Process P H) Value) (p : Process P H) (h : ℕ) (before : Factory)
      (m : P.Modules) (v : Value)
      → (setup p).0 ≡ ok v
      → Keeps p (setup p).1
      → count h (setup p).1.handlers ≤ 1
      → IsAttached h before m p
      → IsAttached h before m (guarded_setup P H setup p).1
  unfolding guarded_setup attach_handler pure ◌>>=◌
  set_up-IsAttached setup p h before m v returned (own', old', modules') once
        (own, one, old, modules) =
      rw (bind-ok _ setup p v returned) (
        own' ∙ own,
        rw (own' ∙ own) (count-attach_to h (setup p).1.handlers once),
        old' ∙ old,
        modules' ∙ modules,
      )

  distinct : (h j : ℕ) (o : Option ℕ) → o ≡ some h → o ≢ some j → j ≢ h
  distinct h j o own ne e = ne (rw e own)

  module _ (h : ℕ) (before : Factory) (m : P.Modules) where
    Step-IsAttached :
        (p q : Process P H) → Step p q → IsAttached h before m p → IsAttached h before m q
    Step-IsAttached _ _ (set_up setup p v returned keeps once) attached =
        set_up-IsAttached setup p h before m v returned keeps (once h attached.0) attached
    Step-IsAttached _ _ (add j p ne) (own, one, old, modules) = (
      own,
      count-add_handler h j p.handlers (distinct h j p.own_handler own ne) ∙ one,
      old,
      modules,
    )
    Step-IsAttached _ _ (remove j p ne) (own, one, old, modules) = (
      own,
      count-remove_handler h j p.handlers (distinct h j p.own_handler own ne) ∙ one,
      old,
      modules,
    )
    Step-IsAttached _ _ (elsewhere f w p) attached = attached

    Steps-IsAttached :
        (p q : Process P H) → Steps p q → IsAttached h before m p → IsAttached h before m q
    Steps-IsAttached _ _ (stop p) attached = attached
    Steps-IsAttached _ _ (step p q r one more) attached =
        Steps-IsAttached q r more (Step-IsAttached p q one attached)

    -- The process that `_uninstrument` leaves of one where the handler is attached.
    uninstrument-ok :
        (p : Process P H)
        → IsAttached h before m p
        → (P.unwrap setup_target m).0 ≡ ok tt
        → uninstrument P H p ≡ (
          ok tt,
          record p {
            modules = (P.unwrap setup_target m).1;
            factory = before;
            handlers = without h p.handlers;
            own_handler = none;
            old_factory = none;
          },
        )
    unfolding uninstrument restore_factory detach_handler ◌>>=◌
    uninstrument-ok p (own, one, old, modules) unwraps =
        rw (old, modules, unwraps, own, remove_handler-without h p.handlers (rw one (omega arith)))
          refl

  module _ (replaces : Replaces P) (b : Builtins) (d : Defaults) (kwargs : Items)
      (p c : Process P H) (level : Value) (h : ℕ) (w : H.World) (f : P.Function)
      (configured : configure_format P H b d kwargs p ≡ (ok tt, c))
      (resolved : handler_level b d kwargs ≡ ok level)
      (made : H.new_handler
          (handler_args P H b d kwargs (provider_of P H b d kwargs p) level)
          c.world
        ≡ (ok h, w))
      (fresh : count h c.handlers ≡ 0) where
    -- The process before the wrapping of `setup`.
    abbrev with_handler : Process P H
    with_handler =
        attach_handler P H
          (record (install_record_factory P H (provider_of P H b d kwargs p) (get kwargs "log_hook")
            c) { own_handler = some h; world = w })

    make_handler-ok :
        make_handler P H b d kwargs
          (provider_of P H b d kwargs p)
          (install_record_factory P H (provider_of P H b d kwargs p) (get kwargs "log_hook") c)
        ≡ (
          ok tt,
          record (install_record_factory P H
              (provider_of P H b d kwargs p)
              (get kwargs "log_hook")
              c) { own_handler = some h; world = w },
        )
    unfolding make_handler install_record_factory
    make_handler-ok = rw (bind-lift-ok _ (handler_level b d kwargs) _ level resolved, made) refl

    instrument-wraps : instrument P H b d kwargs true p ≡ wrap_setup P H with_handler
    unfolding instrument ◌>>=◌
    instrument-wraps = rw (configured, make_handler-ok) refl

    abbrev instrumented_modules : P.Modules
    instrumented_modules = (P.wrap_function_wrapper setup_target guarded_setup_wrapper c.modules).1

    with_handler-IsAttached :
        IsAttached h c.factory instrumented_modules (wrap_setup P H with_handler).1
    unfolding attach_handler install_record_factory
    with_handler-IsAttached =
        (refl, count-attach_to h c.handlers (rw fresh (omega arith)), refl, refl)

    -- `_instrument` on a process where `setup` exists, `basicConfig`, if it is called, returns, the
    -- level of the handler is a valid one and the handler is new, returns. However often oslo.log
    -- then sets up its handlers, and whatever other handlers come and go, the handler stays
    -- attached, once; and `_uninstrument` then returns, takes it away and leaves the others in
    -- their order, and gives the factory of records and every function back.
    pub attached_until_uninstrumented :
        (q : Process P H)
        → P.resolve c.modules setup_target ≡ some f
        → Steps (instrument P H b d kwargs true p).1 q
        → ((instrument P H b d kwargs true p).0 ≡ ok tt)
          × (q.own_handler ≡ some h)
          × (count h q.handlers ≡ 1)
          × ((uninstrument P H q).0 ≡ ok tt)
          × ((uninstrument P H q).1.handlers ≡ without h q.handlers)
          × ((uninstrument P H q).1.factory ≡ c.factory)
          × ((t : Target) → P.resolve (uninstrument P H q).1.modules t ≡ P.resolve c.modules t)
    unfolding attach_handler install_record_factory
    attached_until_uninstrumented q here steps =
        let (wraps, unwraps, back) =
          unwrap-wrap P replaces setup_target guarded_setup_wrapper f c.modules here in
        let (own, one, old, modules) =
          Steps-IsAttached h c.factory instrumented_modules (wrap_setup P H with_handler).1 q
            (rw instrument-wraps at steps) with_handler-IsAttached in
        let undone =
          uninstrument-ok h c.factory instrumented_modules q (own, one, old, modules) unwraps in
        rw (undone, instrument-wraps) (wraps, own, one, refl, refl, refl, back)
