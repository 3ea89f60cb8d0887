-- ===== src/Proxy/Instrumentor.antt =====
-- `OpenStackSDKInstrumentor`, over an interface of wrapt. The tracer is part of the wrapper.
use opentelemetry_openstack.Prelude.{◌≡◌, refl, Bool, true, ◌&&◌, if◌then◌else◌, some}
use opentelemetry_openstack.Py.Value.{ok}
use opentelemetry_openstack.Py.Exec.{Exec, pure, ◌>>◌}
use opentelemetry_openstack.Py.Wrapt.{ne_of_false, Target, Wrapt, Replaces, target_key}
use opentelemetry_openstack.Py.Wrapt.Pairs.{wrap_both-ok, unwrap_both-ok}
use opentelemetry_openstack.Session.Instrumentor as Session

abbrev pub request_target : Target
request_target = ("openstack.proxy.Proxy", "request")

module _ {W : Type 0} (P : Wrapt W) (request_wrapper : W) where
  -- `_instrument()`, given `is_instrumentation_enabled()` and whether `Proxy` could be imported
  unfoldable pub instrument : Bool → Bool → Exec P.Modules (Unit {0})
  instrument enabled available =
      if enabled && available
      then P.wrap_function_wrapper request_target request_wrapper
      else pure tt

  -- `_uninstrument()`
  unfoldable pub uninstrument : Exec P.Modules (Unit {0})
  uninstrument = P.unwrap request_target

module _ {W : Type 0} (P : Wrapt W) (session proxy : W) where
  abbrev pub instrument_clients : Bool → Exec P.Modules (Unit {0})
  instrument_clients enabled =
      Session.instrument P session enabled true >> instrument P proxy enabled true

  abbrev pub uninstrument_clients : Exec P.Modules (Unit {0})
  uninstrument_clients = Session.uninstrument P session true >> uninstrument P proxy

module _ {W : Type 0} (P : Wrapt W) (replaces : Replaces P) (session proxy : W) where
  -- With the instrumentation enabled, the instrumentors of keystoneauth1 and of openstacksdk wrap
  -- both request methods, and undone in either's turn give every function back; all four calls
  -- return.
  pub uninstrument-instrument_clients :
      (f g : P.Function) (m : P.Modules)
      → P.resolve m Session.request_target ≡ some f
      → P.resolve m request_target ≡ some g
      → ((instrument_clients P session proxy true m).0 ≡ ok tt)
        × (P.resolve (instrument_clients P session proxy true m).1 Session.request_target
            ≡ some (P.function_wrapper session f))
        × (P.resolve (instrument_clients P session proxy true m).1 request_target
            ≡ some (P.function_wrapper proxy g))
        × ((uninstrument_clients P session proxy (instrument_clients P session proxy true m).1).0
            ≡ ok tt)
        × ((j : Target)
            → P.resolve
                (uninstrument_clients P session proxy
                  (instrument_clients P session proxy true m).1).1
                j
              ≡ P.resolve m j)
  unfolding instrument uninstrument Session.instrument Session.uninstrument
  uninstrument-instrument_clients f g m session_there proxy_there =
      let differ = ne_of_false Session.request_target request_target refl in
      let (run, returned, here, here') =
        wrap_both-ok P Session.request_target request_target session proxy f g m differ
          session_there proxy_there replaces.wraps in
      let (undone, back) =
        unwrap_both-ok P Session.request_target request_target session proxy f g m differ
          session_there proxy_there replaces in
      (returned, rw run here, rw run here', undone, back)
