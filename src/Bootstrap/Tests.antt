-- ===== src/Bootstrap/Tests.antt =====
-- The theorems on a process where eventlet is installed and one of the SDK's modules is.
use opentelemetry_openstack.Prelude.{
  ℕ, suc, String, ◌≡◌, refl, Bool, true, false, Option, none, some, [], ◌∷◌, ◌==◌, if◌then◌else◌,
  ◌⊎◌,
}
use mathlib.Core.Option.{map}
use opentelemetry_openstack.Py.Value.{
  Value, null, str, obj, bare, attr, Items, end, Result, ok, err, type_error, import_error,
}
use opentelemetry_openstack.Py.Builtins.{Builtins}
use opentelemetry_openstack.Py.Exec.{pure, ◌>>◌}
use opentelemetry_openstack.Py.Dict.{string_key, lookup, put}
use opentelemetry_openstack.Service.Backend.{BackendType, Backends}
use opentelemetry_openstack.Bootstrap.Entries.{split, entries, others}
use opentelemetry_openstack.Bootstrap.Process.{Process, Platform, State, foreign}
use opentelemetry_openstack.Bootstrap.Forkhook.{
  register_forkhook, fresh_hub_count, register, other_handler, events, register_forkhook-once,
}
use opentelemetry_openstack.Bootstrap.Patch.{strip_path}
use opentelemetry_openstack.Bootstrap.Patched.{is_entry, entered, strip_path-restores}

abbrev available : String → Bool
available name = if name == "eventlet" then true else name == "opentelemetry.sdk._shared_internal"

-- A real `threading`.
abbrev threading : Value
threading = obj [] (
    attr "Event" (str "E")
      (attr "Lock" (str "L") (attr "RLock" (str "R") (attr "Thread" (str "T") bare))))

abbrev load : String → Process ℕ → Option Items → Process ℕ
load name p none = record p { modules = put name end p.modules }
load name p (some m) = p

abbrev load_if : Bool → String → Process ℕ → Result (Unit {0}) × Process ℕ
load_if true name p = (ok tt, load name p (lookup name p.modules))
load_if false name p = (err import_error, p)

abbrev platform : Platform
platform = record {
  World = ℕ;
  pathsep = ":";
  has_register_at_fork = true;
  import_module = λ name. load_if (available name) name;
  monkey_patch = λ p. (ok tt, record p { world = suc p.world });
  original_threading = λ p. (ok threading, p);
  is_module = λ v. true;
  warn = λ text p. (ok tt, p);
  eventlet_hubs = λ w. null;
  use_hub = pure tt;
}

abbrev builtins : Builtins
builtins = record {
  repr = λ v. "?";
  exn_text = λ e. "failed";
  upper = λ s. s;
  lower = λ s. if s == "TRUE" then "true" else s;
  strip = λ s. s;
  to_int = λ v. err type_error;
  iterate = λ v. err type_error;
}

-- A process whose `PYTHONPATH` has the directory, with the opt-in.
abbrev started : State platform
started = record {
  world = 0;
  environ = ("PYTHONPATH", "/auto:/lib") ∷ ("OTEL_PYTHON_EVENTLET_MONKEY_PATCH", "TRUE") ∷ [];
  modules = [];
  after_in_child = foreign 1 ∷ [];
  forkhook_installed = false;
}

strip_path-restores_example :
    ((strip_path platform "/auto" platform.monkey_patch started).0 ≡ ok tt)
    × (lookup "PYTHONPATH" (strip_path platform "/auto" platform.monkey_patch started).1.environ
        ≡ some "/auto:/lib")
    × (is_entry platform "/auto" (entered platform "/auto" started) ≡ false)
    × ((map (split ":") (lookup "PYTHONPATH" (entered platform "/auto" started).environ)
          ≡ some (others "/auto" (split ":" "/auto:/lib")))
        ⊎ (others "/auto" (split ":" "/auto:/lib") ≡ []))
unfolding lookup entries split
strip_path-restores_example =
    strip_path-restores platform "/auto" platform.monkey_patch started "/auto:/lib" refl refl

register_forkhook-once_example :
    ((register_forkhook platform
        (events platform (register ∷ other_handler 2 ∷ register ∷ []) started)).0
      ≡ ok true)
    × (fresh_hub_count
          (register_forkhook platform
            (events platform (register ∷ other_handler 2 ∷ register ∷ []) started)).1.after_in_child
        ≡ 1)
unfolding fresh_hub_count
register_forkhook-once_example =
    register_forkhook-once platform (register ∷ other_handler 2 ∷ register ∷ []) started refl refl

abbrev backends : Backends
backends = record {
  State = Option BackendType;
  get_backend_type = λ s. s;
  init_backend = λ b s. (ok tt, some b);
}

-- The state after the patch of the started process.
abbrev green : State platform
green =
    ((platform.import_module "eventlet" >> platform.monkey_patch)
      (entered platform "/auto" started)).1

-- The same process without the opt-in.
abbrev opted_out : State platform
opted_out = record started { environ = ("PYTHONPATH", "/auto:/lib") ∷ [] }
