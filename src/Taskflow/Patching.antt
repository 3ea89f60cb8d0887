-- ===== src/Taskflow/Patching.antt =====
-- listener.py: `patch_atom_bodies` and `unpatch_atom_bodies`; __init__.py: `_wrap_engine_init` and
-- the instrumentor's two methods. A function of the patched modules is a value of the type `F`.
pub mod Restored
pub mod Partly
use opentelemetry_openstack.Prelude.{
  String, Bool, true, false, Option, none, some, List, [], ◌∷◌, if◌then◌else◌,
}
use opentelemetry_openstack.Py.Value.{Exn, attribute_error, Result, ok, err}
use opentelemetry_openstack.Py.Exec.{Exec, pure, try_except, ◌>>=◌, ◌>>◌}
use opentelemetry_openstack.Py.Dict.{Dict, lookup, put, string_key}

abbrev pub atom_body_functions : List String
atom_body_functions = "_execute_task" ∷ "_revert_task" ∷ "_execute_retry" ∷ "_revert_retry" ∷ []

module _ {F : Type 0} where
  -- The loop of `patch_atom_bodies`, over the executor module's names. A missing name raises, and
  -- what was patched before it stays patched.
  unfoldable pub patch_loop :
      (F → F) → List String → Dict String F → Exec (Dict String F) (Dict String F)
  patch_loop traced [] originals executor = (ok originals, executor)
  patch_loop traced (name ∷ names) originals executor = elim (lookup name executor) [
    | none ↦ (err attribute_error, executor)
    | some original ↦
        patch_loop traced names (put name original originals) (put name (traced original) executor)
  ]

  unfoldable pub patch_atom_bodies : (F → F) → Exec (Dict String F) (Dict String F)
  patch_atom_bodies traced = patch_loop traced atom_body_functions []

  -- `unpatch_atom_bodies`
  unfoldable pub unpatch_atom_bodies : Dict String F → Dict String F → Dict String F
  unpatch_atom_bodies [] executor = executor
  unpatch_atom_bodies ((name, original) ∷ originals) executor =
      unpatch_atom_bodies originals (put name original executor)

-- `traced_init`: the listener is attached after the engine's own `__init__`, and what goes wrong in
-- attaching it is logged.
unfoldable pub traced_init {ℓ} :
    {S : Type ℓ} → Exec S (Unit {0}) → Exec S (Unit {0}) → Exec S (Unit {0})
traced_init original attach = original >> try_except attach (λ e. pure tt)

-- The patched modules, and the class attributes of `TaskflowInstrumentor`.
pub record Process (F : Type 0) : Type 0 where
  pub executor : Dict String F
  pub engine_init : F
  pub original_engine_init : Option F
  pub original_atom_bodies : Option (Dict String F)

module _ {F : Type 0} (traced wrap_init : F → F) where
  -- The bodies first: where that raises, `__init__` is not wrapped.
  unfoldable pub instrument_engines : Exec (Process F) (Unit {0})
  instrument_engines p =
      let (patched, executor) = patch_atom_bodies traced p.executor in
      elim patched [
        | err e ↦ (err e, record p { executor = executor })
        | ok originals ↦ (
          ok tt,
          record p {
            executor = executor;
            engine_init = wrap_init p.engine_init;
            original_engine_init = some p.engine_init;
            original_atom_bodies = some originals;
          },
        )
      ]

  -- `_instrument`, given whether taskflow is installed.
  unfoldable pub instrument : Bool → Exec (Process F) (Unit {0})
  instrument installed p = elim p.original_engine_init [
    | some init ↦ (ok tt, p)
    | none ↦ if installed then instrument_engines p else (ok tt, p)
  ]

-- `_uninstrument`. `unpatch_atom_bodies(None)` raises.
unfoldable pub uninstrument : {F : Type 0} → Exec (Process F) (Unit {0})
uninstrument p = elim p.original_engine_init [
  | none ↦ (ok tt, p)
  | some init ↦ elim p.original_atom_bodies [
    | none ↦ (err attribute_error, record p { engine_init = init; original_engine_init = none })
    | some originals ↦ (
      ok tt,
      record {
        executor = unpatch_atom_bodies originals p.executor;
        engine_init = init;
        original_engine_init = none;
        original_atom_bodies = none;
      },
    )
  ]
]
