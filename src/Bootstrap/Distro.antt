-- ===== src/Bootstrap/Distro.antt =====
-- distro.py and sitecustomize.py: what is set before the SDK is configured.
use opentelemetry_openstack.Prelude.{
  String, ◌≡◌, refl, Bool, Option, none, some, or_else, if◌then◌else◌, Option-cases, inl, inr,
  eq_refl,
}
use opentelemetry_openstack.Py.Value.{ok}
use opentelemetry_openstack.Py.Builtins.{Builtins}
use opentelemetry_openstack.Py.Exec.{Exec, pure, modify, ◌>>=◌, ◌>>◌}
use opentelemetry_openstack.Py.Dict.{string_key, lookup, lookup-put}
use opentelemetry_openstack.Bootstrap.Process.{Process, Platform, State, set_environ}
use opentelemetry_openstack.Bootstrap.Patch.{try_patch}

-- `os.environ.setdefault(name, value)`
abbrev pub default_to : {W : Type 0} → String → String → Process W → Option String → Process W
default_to name value p none = set_environ name value p
default_to name value p (some present) = p

unfoldable pub set_default : {W : Type 0} → String → String → Process W → Process W
set_default name value p = default_to name value p (lookup name p.environ)

-- `DEFAULT_OTLP_PROTOCOL`
abbrev pub default_otlp_protocol : String
default_otlp_protocol = "http/protobuf"

module _ (O : Platform) where
  -- `OsloServiceConfigurator._configure`, given the base class's
  abbrev pub configurator_configure : Exec (State O) (Unit {0}) → Exec (State O) (Unit {0})
  configurator_configure super = super

  -- `OsloServiceDistro._configure`, given the base class's
  unfoldable pub distro_configure : Exec (State O) (Unit {0}) → Exec (State O) (Unit {0})
  distro_configure super =
      modify (set_default "OTEL_EXPORTER_OTLP_PROTOCOL" default_otlp_protocol)
      >> (super >> modify (set_environ "OTEL_PYTHON_CONFIGURATOR" "oslo_service"))

  -- The import of `_oslo_service_eventlet`, and the patch if it is there
  abbrev pub early_patch : Bool → Builtins → String → Exec (State O) (Unit {0})
  early_patch importable b this_dir = if importable then try_patch O b this_dir else pure tt

  -- sitecustomize.py, given whether `_oslo_service_eventlet` can be imported, and
  -- `auto_instrumentation.initialize()` with its import
  unfoldable pub sitecustomize :
      Bool → Builtins → String → Exec (State O) (Unit {0}) → Exec (State O) (Unit {0})
  sitecustomize importable b this_dir initialize =
      early_patch importable b this_dir
      >> (modify (set_default "OTEL_PYTHON_DISTRO" "oslo_service") >> initialize)

set_default-lookup :
    {W : Type 0} (name value : String) (p : Process W)
    → lookup name (set_default name value p).environ ≡ some (or_else (lookup name p.environ) value)
unfolding set_default
set_default-lookup name value p = elim (Option-cases (lookup name p.environ)) [
  | inl unset ↦ rw (unset, lookup-put name name value p.environ, eq_refl name) refl
  | inr (present, set) ↦ rw (set, set) refl
]

module _ (O : Platform) where
  -- The base class configures the distribution in an environment whose OTLP protocol is the one
  -- that the operator set, or else `http/protobuf`. When it returns there, so does the
  -- distribution, and the configurator is this package's, also if the environment named another.
  distro_configure-protocol :
      (super : Exec (State O) (Unit {0})) (p q : State O)
      → super (set_default "OTEL_EXPORTER_OTLP_PROTOCOL" default_otlp_protocol p) ≡ (ok tt, q)
      → (lookup "OTEL_EXPORTER_OTLP_PROTOCOL"
            (set_default "OTEL_EXPORTER_OTLP_PROTOCOL" default_otlp_protocol p).environ
          ≡ some (or_else (lookup "OTEL_EXPORTER_OTLP_PROTOCOL" p.environ) "http/protobuf"))
        × ((distro_configure O super p).0 ≡ ok tt)
        × (lookup "OTEL_PYTHON_CONFIGURATOR" (distro_configure O super p).1.environ
            ≡ some "oslo_service")
  unfolding distro_configure ◌>>=◌
  distro_configure-protocol super p q returned = (
    set_default-lookup "OTEL_EXPORTER_OTLP_PROTOCOL" "http/protobuf" p,
    rw returned refl,
    rw returned
        (lookup-put "OTEL_PYTHON_CONFIGURATOR" "OTEL_PYTHON_CONFIGURATOR" "oslo_service" q.environ),
  )

  -- Where the patch returns, auto-instrumentation is initialized after it, under the distribution
  -- that the operator chose, or else this package's, and the outcome is the initialization's.
  sitecustomize-order :
      (importable : Bool) (b : Builtins) (this_dir : String)
      (initialize : Exec (State O) (Unit {0})) (p q : State O)
      → early_patch O importable b this_dir p ≡ (ok tt, q)
      → (start : State O) × (lookup "OTEL_PYTHON_DISTRO" start.environ
          ≡ some (or_else (lookup "OTEL_PYTHON_DISTRO" q.environ) "oslo_service"))
        × (sitecustomize O importable b this_dir initialize p ≡ initialize start)
  unfolding sitecustomize ◌>>=◌
  sitecustomize-order importable b this_dir initialize p q patched = (
    set_default "OTEL_PYTHON_DISTRO" "oslo_service" q,
    set_default-lookup "OTEL_PYTHON_DISTRO" "oslo_service" q,
    rw patched refl,
  )
