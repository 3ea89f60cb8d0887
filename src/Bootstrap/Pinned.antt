-- ===== src/Bootstrap/Pinned.antt =====
-- The patch and the choice of oslo.service's backend.
use opentelemetry_openstack.Prelude.{
  String, ◌≡◌, refl, ap, ◌∙◌, Bool, true, false, Option, ◌⊎◌, Bool-cases, inl, inr,
}
use opentelemetry_openstack.Py.Value.{import_error, Value, ok, err}
use opentelemetry_openstack.Py.Builtins.{Builtins}
use opentelemetry_openstack.Py.Exec.{Exec, ◌>>=◌}
use opentelemetry_openstack.Py.Exec.Keeps.{Keeps}
use opentelemetry_openstack.Py.Dict.{Dict, string_key, lookup}
use opentelemetry_openstack.Bootstrap.Process.{Process, Platform, State}
use opentelemetry_openstack.Bootstrap.Patch.{warning, patch_body, opted_in, try_patch}
use opentelemetry_openstack.Bootstrap.Patched.{entered, left, strip_path-runs, left-lookups}
use opentelemetry_openstack.Service.Backend.{Backends, pre_instrument}

abbrev environ_of : {W : Type 0} → Process W → Dict String String
environ_of p = p.environ

module _ (O : Platform) where
  -- What the imports of the SDK's modules and of `threading`, and a warning, document: they leave
  -- the environment alone.
  pub record KeepsEnviron : Type 0 where
    pub importing : (name : String) (p : State O) → (O.import_module name p).1.environ ≡ p.environ
    pub original : (p : State O) → (O.original_threading p).1.environ ≡ p.environ
    pub warning_ : (text : String) (p : State O) → (O.warn text p).1.environ ≡ p.environ

  module _ (laws : KeepsEnviron) where
    module _ (b : Builtins) (this_dir : String) (p : State O) where
      abbrev pub flag : Bool
      flag = opted_in O b (lookup "OTEL_PYTHON_EVENTLET_MONKEY_PATCH" p.environ)

      try_patch-runs :
          flag ≡ true
          → (try_patch O b this_dir p).1 ≡ left O this_dir p (patch_body O (entered O this_dir p)).1
      unfolding try_patch
      try_patch-runs opted = rw opted (ap (λ x. x.1) (strip_path-runs O this_dir (patch_body O) p))

      abbrev pub left_variable : Option String
      left_variable = lookup "OTEL_PYTHON_OSLO_SERVICE_BACKEND" (try_patch O b this_dir p).1.environ

      abbrev pub hook_run : (B : Backends) → Exec B.State (Unit {0})
      hook_run B = pre_instrument B true left_variable

      -- The environment when eventlet is missing and the warning returns.
      missing-environ :
          (k : String)
          → flag ≡ true
          → O.import_module "eventlet" (entered O this_dir p)
            ≡ (err import_error, entered O this_dir p)
          → lookup k (try_patch O b this_dir p).1.environ ≡ lookup k p.environ
      unfolding patch_body ◌>>=◌
      missing-environ k opted missing =
          rw (try_patch-runs opted, missing)
            (left-lookups O this_dir p (O.warn (warning O) (entered O this_dir p)).1 k
              (laws.warning_ (warning O) (entered O this_dir p)))

      missing-outcome :
          flag ≡ true
          → O.import_module "eventlet" (entered O this_dir p)
            ≡ (err import_error, entered O this_dir p)
          → (try_patch O b this_dir p).0 ≡ (O.warn (warning O) (entered O this_dir p)).0
      unfolding try_patch patch_body ◌>>=◌
      missing-outcome opted missing =
          rw opted (ap (λ x. x.0) (strip_path-runs O this_dir (patch_body O) p) ∙ rw missing refl)

      idle-outcome : flag ≡ false → (try_patch O b this_dir p).0 ≡ ok tt
      unfolding try_patch
      idle-outcome not_opted = rw not_opted refl

      idle-environ :
          (k : String)
          → flag ≡ false
          → lookup k (try_patch O b this_dir p).1.environ ≡ lookup k p.environ
      unfolding try_patch
      idle-environ k not_opted = rw not_opted refl

      -- Without the opt-in, or where eventlet is not installed, the patch leaves every variable of
      -- the environment as it was, `PYTHONPATH` included, and raises nothing but what the warning
      -- raises.
      try_patch-without_eventlet :
          (k : String)
          → (flag ≡ false)
            ⊎ (O.import_module "eventlet" (entered O this_dir p)
                ≡ (err import_error, entered O this_dir p))
          → (((try_patch O b this_dir p).0 ≡ ok tt)
              ⊎ ((try_patch O b this_dir p).0 ≡ (O.warn (warning O) (entered O this_dir p)).0))
            × (lookup k (try_patch O b this_dir p).1.environ ≡ lookup k p.environ)
      try_patch-without_eventlet k (inl not_opted) =
          (inl (idle-outcome not_opted), idle-environ k not_opted)
      try_patch-without_eventlet k (inr missing) = elim (Bool-cases flag) [
        | inl opted ↦ (inr (missing-outcome opted missing), missing-environ k opted missing)
        | inr not_opted ↦ (inl (idle-outcome not_opted), idle-environ k not_opted)
      ]
