-- ===== src/Session/Instrumentor.antt =====
-- `KeystoneAuth1Instrumentor`, over an interface of wrapt. The tracer is part of the wrapper.
use opentelemetry_openstack.Prelude.{Bool, ◌&&◌, if◌then◌else◌}
use opentelemetry_openstack.Py.Exec.{Exec, pure}
use opentelemetry_openstack.Py.Wrapt.{Target, Wrapt}

abbrev pub request_target : Target
request_target = ("keystoneauth1.session.Session", "request")

module _ {W : Type 0} (P : Wrapt W) (request_wrapper : W) where
  -- `_instrument()`, given `is_instrumentation_enabled()` and whether `Session` could be imported
  unfoldable pub instrument : Bool → Bool → Exec P.Modules (Unit {0})
  instrument enabled available =
      if enabled && available
      then P.wrap_function_wrapper request_target request_wrapper
      else pure tt

  -- `_uninstrument()`
  unfoldable pub uninstrument : Bool → Exec P.Modules (Unit {0})
  uninstrument available = if available then P.unwrap request_target else pure tt
