-- ===== src/Keystone/Instrumentor.antt =====
-- `KeystoneMiddlewareInstrumentor`, over an interface of wrapt and of the class's own attributes.
use opentelemetry_openstack.Prelude.{
  ◌≡◌, ◌≢◌, refl, sym, ◌∙◌, Bool, true, ◌&&◌, if◌then◌else◌, Option, none, some, Bool-cases, inl,
  inr,
}
use opentelemetry_openstack.Py.Value.{ok}
use opentelemetry_openstack.Py.Exec.{Exec, ◌>>◌}
use opentelemetry_openstack.Py.Wrapt.{
  ne_of_false, Target, Wrapt, Wraps, Unwraps, same_target, same_target_iff,
}
use opentelemetry_openstack.Py.Wrapt.Pairs.{wrap_both-ok}

abbrev pub call_target : Target
call_target = ("BaseAuthProtocol", "__call__")

abbrev pub process_request_target : Target
process_request_target = ("BaseAuthProtocol", "process_request")

-- `_call_wrapper(tracer)` and `_process_request_wrapper(tracer)`
pub data Wrapper : Type 0 where
  wrap_call wrap_process_request : Wrapper

-- The class's `__dict__`, and the assignment of an attribute.
pub record ClassAttributes (P : Wrapt Wrapper) : Type 0 where
  pub own : P.Modules → Target → Option P.Function
  pub assign : Target → P.Function → P.Modules → P.Modules

-- An assigned attribute is the one that the class then has, and no other changes.
pub record Assigns (P : Wrapt Wrapper) (C : ClassAttributes P) : Type 0 where
  pub assigning :
      (t : Target) (f : P.Function) (m : P.Modules) → P.resolve (C.assign t f m) t ≡ some f
  pub assigning_others :
      (t j : Target) (f : P.Function) (m : P.Modules)
      → t ≢ j
      → P.resolve (C.assign t f m) j ≡ P.resolve m j

module _ (P : Wrapt Wrapper) (C : ClassAttributes P) where
  pub record Process : Type 0 where
    pub modules : P.Modules
    -- `_original_call`
    pub original_call : Option P.Function

  abbrev in_modules : Exec P.Modules (Unit {0}) → Exec Process (Unit {0})
  in_modules run p = let (r, m) = run p.modules in (r, record p { modules = m })

  abbrev save_call : Process → Process
  save_call p = record p { original_call = C.own p.modules call_target }

  abbrev wrap_both : Exec P.Modules (Unit {0})
  wrap_both =
      P.wrap_function_wrapper call_target wrap_call
      >> P.wrap_function_wrapper process_request_target wrap_process_request

  -- `_instrument()`, given `is_instrumentation_enabled()` and whether the class could be imported
  unfoldable pub instrument : Bool → Bool → Exec Process (Unit {0})
  instrument enabled available p =
      if enabled && available then in_modules wrap_both (save_call p) else (ok tt, p)

  abbrev restore_call : Option P.Function → Process → Process
  restore_call none p = p
  restore_call (some f) p = record p {
    modules = C.assign call_target f p.modules;
    original_call = none;
  }

  -- `_uninstrument()`
  unfoldable pub uninstrument : Bool → Exec Process (Unit {0})
  uninstrument available p =
      if available
      then in_modules (P.unwrap process_request_target) (restore_call p.original_call p)
      else (ok tt, p)

module _ (P : Wrapt Wrapper) (C : ClassAttributes P) (wraps : Wraps P)
    (unwraps : Unwraps P process_request_target) (assigns : Assigns P C) (f g : P.Function)
    (p : Process P C) (own_call : C.own p.modules call_target ≡ some f)
    (there : P.resolve p.modules call_target ≡ some f)
    (there' : P.resolve p.modules process_request_target ≡ some g) where
  abbrev differ : call_target ≢ process_request_target
  differ = ne_of_false call_target process_request_target refl

  abbrev once : P.Modules
  once = (P.wrap_function_wrapper call_target wrap_call p.modules).1

  abbrev twice : P.Modules
  twice = (P.wrap_function_wrapper process_request_target wrap_process_request once).1

  abbrev assigned : P.Modules
  assigned = C.assign call_target f twice

  back :
      (j : Target)
      → ((P.unwrap process_request_target assigned).0 ≡ ok tt)
        × (P.resolve (P.unwrap process_request_target assigned).1 j ≡ P.resolve p.modules j)
  back j =
      let (run, returned, here, here') =
        wrap_both-ok P call_target process_request_target wrap_call wrap_process_request f g
          p.modules differ there there' wraps in
      let (undone, second_back) =
        unwraps.unwrapping wrap_process_request g assigned
          (assigns.assigning_others call_target process_request_target f twice differ ∙ here') in
      (
        undone,
        elim (Bool-cases (same_target process_request_target j)) [
          | inl same ↦
              rw (sym ((same_target_iff process_request_target j).0 same), second_back, there') refl
          | inr other ↦
              let ne = ne_of_false process_request_target j other in
              unwraps.unwrapping_others j assigned ne
              ∙ (elim (Bool-cases (same_target call_target j)) [
                | inl same ↦
                    rw
                      (
                        sym ((same_target_iff call_target j).0 same),
                        assigns.assigning call_target f twice,
                        there,
                      )
                      refl
                | inr other' ↦
                    let ne' = ne_of_false call_target j other' in
                    assigns.assigning_others call_target j f twice ne'
                    ∙ wraps.wrapping_others process_request_target j wrap_process_request once ne
                    ∙ wraps.wrapping_others call_target j wrap_call p.modules ne'
              ])
        ],
      )

  -- On a class that defines both methods itself, where `unwrap` gives `process_request` back, and
  -- may do anything at all for `__call__`: `_instrument`, with the instrumentation enabled,
  -- wraps `__call__` and `process_request`, and `_uninstrument` then gives every function back,
  -- `__call__` by its saved original; both return, and no original is kept.
  pub uninstrument-instrument_middleware :
      ((instrument P C true true p).0 ≡ ok tt)
      × (P.resolve (instrument P C true true p).1.modules call_target
          ≡ some (P.function_wrapper wrap_call f))
      × (P.resolve (instrument P C true true p).1.modules process_request_target
          ≡ some (P.function_wrapper wrap_process_request g))
      × ((uninstrument P C true (instrument P C true true p).1).0 ≡ ok tt)
      × ((uninstrument P C true (instrument P C true true p).1).1.original_call ≡ none)
      × ((j : Target)
          → P.resolve (uninstrument P C true (instrument P C true true p).1).1.modules j
            ≡ P.resolve p.modules j)
  unfolding instrument uninstrument
  uninstrument-instrument_middleware =
      let (run, returned, here, here') =
        wrap_both-ok P call_target process_request_target wrap_call wrap_process_request f g
          p.modules differ there there' wraps in
      rw (own_call, run)
        (rw run at returned, here, here', (back call_target).0, refl, λ j. (back j).1)
