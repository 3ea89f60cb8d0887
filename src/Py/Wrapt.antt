-- ===== src/Py/Wrapt.antt =====
-- Replacing the functions of a library by wrappers: `wrapt.wrap_function_wrapper` and
-- `opentelemetry.instrumentation.utils.unwrap`. Their code is not part of this repository: they are
-- an interface, with what their documentation promises for a target that exists.
pub mod Laws
pub mod Stacks
pub mod Pairs
use opentelemetry_openstack.Prelude.{
  String, ◌≡◌, ◌≢◌, refl, sym, ◌∙◌, ap, ◌↔◌, Bool, true, false, ◌&&◌, Option, none, some, List, [],
  ◌∷◌, ◌==◌, eq_iff, arith, Bool-cases, inl, inr, Option-cases, if◌then◌else◌,
}
use opentelemetry_openstack.Py.Value.{Result, ok}
use opentelemetry_openstack.Py.Exec.{Exec, pure, ◌>>=◌, ◌>>◌}
use opentelemetry_openstack.Py.Exec.Laws.{bind-ok}
use opentelemetry_openstack.Py.Dict.{Key, Dict, lookup, NodupKeys}

-- The owner of a function, a module or a class, and the function's name.
abbrev pub Target : Type 0
Target = String × String

abbrev pub same_target : Target → Target → Bool
same_target (o, n) (p, m) = (o == p) && (n == m)

pub same_target_iff : (s t : Target) → (same_target s t ≡ true) ↔ (s ≡ t)
same_target_iff (o, n) (p, m) = ground (arith, eq_iff o p, eq_iff n m)

instance abbrev pub target_key : Key Target
target_key = record { same = same_target; same_iff = same_target_iff }

pub ne_of_false : (s t : Target) → same_target s t ≡ false → s ≢ t
ne_of_false s t h e = ground (arith, h, (same_target_iff s t).1 e)

-- `W` are the wrappers.
pub record Wrapt (W : Type 0) : Type 1 where
  pub Modules : Type 0
  pub Function : Type 0
  -- the function that a target names, `none` for a missing one
  pub resolve : Modules → Target → Option Function
  -- `wrapt.FunctionWrapper(f, wrapper)`
  pub function_wrapper : W → Function → Function
  pub wrap_function_wrapper : Target → W → Exec Modules (Unit {0})
  pub unwrap : Target → Exec Modules (Unit {0})

-- A call of `wrap_function_wrapper` replaces the one function that its target names.
pub record Wraps {W : Type 0} (P : Wrapt W) : Type 0 where
  pub wrapping :
      (t : Target) (k : W) (f : P.Function) (m : P.Modules)
      → P.resolve m t ≡ some f
      → ((P.wrap_function_wrapper t k m).0 ≡ ok tt)
        × (P.resolve (P.wrap_function_wrapper t k m).1 t ≡ some (P.function_wrapper k f))
  pub wrapping_others :
      (t j : Target) (k : W) (m : P.Modules)
      → t ≢ j
      → P.resolve (P.wrap_function_wrapper t k m).1 j ≡ P.resolve m j

-- A call of `unwrap` with the target `t` gives its function back, and changes no other.
pub record Unwraps {W : Type 0} (P : Wrapt W) (t : Target) : Type 0 where
  pub unwrapping :
      (k : W) (f : P.Function) (m : P.Modules)
      → P.resolve m t ≡ some (P.function_wrapper k f)
      → ((P.unwrap t m).0 ≡ ok tt) × (P.resolve (P.unwrap t m).1 t ≡ some f)
  pub unwrapping_others :
      (j : Target) (m : P.Modules) → t ≢ j → P.resolve (P.unwrap t m).1 j ≡ P.resolve m j

-- Both hold for every target.
pub record Replaces {W : Type 0} (P : Wrapt W) : Type 0 where
  pub wraps : Wraps P
  pub unwraps : (t : Target) → Unwraps P t

-- The targets, in the order of their wrapping.
abbrev pub targets : {W : Type 0} → Dict Target W → List Target
targets [] = []
targets ((t, k) ∷ ts) = t ∷ targets ts

module _ {W : Type 0} (P : Wrapt W) where
  -- A loop of wrappings.
  unfoldable pub wrap_all : Dict Target W → Exec P.Modules (Unit {0})
  wrap_all [] = pure tt
  wrap_all ((t, k) ∷ ts) = P.wrap_function_wrapper t k >> wrap_all ts

  -- A loop of unwrappings.
  unfoldable pub unwrap_all : List Target → Exec P.Modules (Unit {0})
  unwrap_all [] = pure tt
  unwrap_all (t ∷ ts) = P.unwrap t >> unwrap_all ts

  -- Each target is a function that exists.
  abbrev pub Present : Dict Target W → P.Modules → Type 0
  Present ts m =
      (t : Target) (k : W) → lookup t ts ≡ some k → (f : P.Function) × (P.resolve m t ≡ some f)
