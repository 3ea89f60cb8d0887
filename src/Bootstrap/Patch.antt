-- ===== src/Bootstrap/Patch.antt =====
-- _oslo_service_eventlet.py: `_strip_path` and `try_patch`.
use opentelemetry_openstack.Prelude.{
  member, String, Bool, Option, or_else, if◌then◌else◌, ◌==◌, concat,
}
use opentelemetry_openstack.Py.Value.{import_error, Result, ok, err}
use opentelemetry_openstack.Py.Builtins.{Builtins}
use opentelemetry_openstack.Py.Exec.{Exec, pure, lift, modify, finally, ◌>>=◌, ◌>>◌}
use opentelemetry_openstack.Py.Dict.{string_key, lookup}
use opentelemetry_openstack.Bootstrap.Entries.{join, entries, others}
use opentelemetry_openstack.Bootstrap.Process.{Platform, State, set_environ}
use opentelemetry_openstack.Bootstrap.Forkhook.{register_forkhook}
use opentelemetry_openstack.Bootstrap.Sdk.{unpatch_sdk}

-- The value that is written back.
abbrev pub path_of : Option String → String
path_of original = or_else original ""

module _ (O : Platform) where
  -- `PYTHONPATH` without a directory
  unfoldable pub hidden_path : String → Option String → String
  hidden_path this_dir original = join O.pathsep (others this_dir (entries O.pathsep original))

  -- `with _strip_path(): body`, given this module's directory
  unfoldable pub strip_path : {A : Type 0} → String → Exec (State O) A → Exec (State O) A
  strip_path this_dir body p =
      let original = lookup "PYTHONPATH" p.environ in
      if member this_dir (entries O.pathsep original)
      then finally body (set_environ "PYTHONPATH" (path_of original))
          (set_environ "PYTHONPATH" (hidden_path this_dir original) p)
      else body p

  abbrev pub warning : String
  warning =
      concat "OTEL_PYTHON_EVENTLET_MONKEY_PATCH is set to true, but "
        (concat "eventlet is not installed; continuing without " "monkey-patching.")

  -- What follows the patch.
  abbrev pub after_patch : Exec (State O) (Unit {0})
  after_patch =
      modify (set_environ "OTEL_PYTHON_OSLO_SERVICE_BACKEND" "eventlet")
      >> (register_forkhook O >>= λ installed. unpatch_sdk O >>= λ rebound. pure tt)

  -- The import of eventlet and the patch, with the `except`: what the rest of the body does then.
  abbrev pub patched : Result (Unit {0}) → Exec (State O) (Unit {0})
  patched (ok u) = after_patch
  patched (err import_error) = O.warn warning
  patched (err e) = lift (err e)

  unfoldable pub patch_body : Exec (State O) (Unit {0})
  patch_body p = let (r, p') = (O.import_module "eventlet" >> O.monkey_patch) p in patched r p'

  -- `flag.strip().lower() == "true"`, for the variable's value
  unfoldable pub opted_in : Builtins → Option String → Bool
  opted_in b variable =
      let value = or_else variable "" in
      b.lower (b.strip (if value == "" then "false" else value)) == "true"

  -- `try_patch()`
  unfoldable pub try_patch : Builtins → String → Exec (State O) (Unit {0})
  try_patch b this_dir p =
      if opted_in b (lookup "OTEL_PYTHON_EVENTLET_MONKEY_PATCH" p.environ)
      then strip_path this_dir patch_body p
      else (ok tt, p)
