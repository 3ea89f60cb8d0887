-- ===== src/Messaging/Instrumentor.antt =====
-- instrument.py: `OsloMessagingInstrumentor`, given whether oslo.messaging is installed.
use opentelemetry_openstack.Prelude.{◌≡◌, refl, Bool, true, false, [], ◌∷◌, if◌then◌else◌}
use opentelemetry_openstack.Py.Value.{ok}
use opentelemetry_openstack.Py.Exec.{Exec}
use opentelemetry_openstack.Py.Dict.{Dict, NodupKeys, lookup}
use opentelemetry_openstack.Py.Wrapt.{
  Target, target_key, Wrapt, Replaces, Present, wrap_all, unwrap_all, targets,
}
use opentelemetry_openstack.Py.Wrapt.Laws.{wrap_all-IsWrapped, unwrap_all-IsWrapped}

-- `inject_trace(tracer, is_notification)`, `rpc_server_wrapper(tracer)` and
-- `notification_server_wrapper(tracer)`
pub data Wrapper : Type 0 where
  inject : Bool → Wrapper
  rpc_server notification_server : Wrapper

-- `_WRAPPED_METHODS`, each with its wrapper.
unfoldable pub wrapped_methods : Bool → Dict Target Wrapper
wrapped_methods installed =
    if installed
    then (("Transport", "_send"), inject false)
      ∷ (("Transport", "_send_notification"), inject true)
      ∷ (("RPCDispatcher", "dispatch"), rpc_server)
      ∷ (("NotificationDispatcher", "dispatch"), notification_server)
      ∷ []
    else []

module _ (P : Wrapt Wrapper) (installed : Bool) where
  -- `_instrument`
  unfoldable pub instrument : Exec P.Modules (Unit {0})
  instrument = wrap_all P (wrapped_methods installed)

  -- `_uninstrument`
  unfoldable pub uninstrument : Exec P.Modules (Unit {0})
  uninstrument = unwrap_all P (targets (wrapped_methods installed))

NodupKeys-wrapped_methods : (installed : Bool) → NodupKeys (wrapped_methods installed)
unfolding wrapped_methods lookup
NodupKeys-wrapped_methods true = (refl, (refl, (refl, (refl, tt))))
NodupKeys-wrapped_methods false = tt

-- Where oslo.messaging's four methods exist, or oslo.messaging is not installed, `_instrument` and
-- then `_uninstrument` both return, and every function is what it was.
uninstrument-instrument_methods :
    (P : Wrapt Wrapper) (replaces : Replaces P) (installed : Bool) (m : P.Modules)
    → Present P (wrapped_methods installed) m
    → ((instrument P installed m).0 ≡ ok tt)
      × ((uninstrument P installed (instrument P installed m).1).0 ≡ ok tt)
      × ((j : Target)
          → P.resolve (uninstrument P installed (instrument P installed m).1).1 j ≡ P.resolve m j)
unfolding instrument uninstrument
uninstrument-instrument_methods P replaces installed m present =
    let distinct = NodupKeys-wrapped_methods installed in
    let (returned, wrapped) =
      wrap_all-IsWrapped P replaces (wrapped_methods installed) m distinct present in
    let (given_back, same) =
      unwrap_all-IsWrapped P replaces (wrapped_methods installed) m _ distinct present wrapped in
    (returned, given_back, same)
