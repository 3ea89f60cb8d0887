-- ===== src/Log/Instrumentor.antt =====
-- __init__.py: `OsloLogInstrumentor`, over the process's record factory, the handlers of oslo.log's
-- root logger and the functions of oslo.log. The order of handlers is that of their addition.
use opentelemetry_openstack.Prelude.{
  ℕ, Bool, false, Option, none, some, List, [], ◌∷◌, ◌++◌, if◌then◌else◌, nat_eq, ◌||◌,
}
use opentelemetry_openstack.Py.Value.{Value, Items, get, or, Result, ok, err}
use opentelemetry_openstack.Py.Builtins.{Builtins}
use opentelemetry_openstack.Py.Exec.{Exec, pure, lift, gets, modify, ◌>>=◌, ◌>>◌}
use opentelemetry_openstack.Py.Wrapt.{Target, Wrapt}
use opentelemetry_openstack.Log.Level.{
  Defaults, log_format, log_level, set_logging_format, handler_level, log_code_attributes,
  map_oslo_context,
}

-- `logging.getLogRecordFactory()`: the factory of `install_record_factory(provider, log_hook)`,
-- on the one before, or any other.
pub data Factory : Type 0 where
  foreign : ℕ → Factory
  correlating : Value → Value → Factory → Factory

-- The arguments of `OsloLogHandler`.
pub record HandlerArgs : Type 0 where
  pub level : Value
  pub logger_provider : Value
  pub code_attributes : Value
  pub map_context : Value

-- Handlers are known by their identity.
abbrev pub has_handler : ℕ → List ℕ → Bool
has_handler h [] = false
has_handler h (j ∷ hs) = nat_eq j h || has_handler h hs

-- `addHandler`
unfoldable pub add_handler : ℕ → List ℕ → List ℕ
add_handler h hs = if has_handler h hs then hs else hs ++ h ∷ []

-- `removeHandler`
unfoldable pub remove_handler : ℕ → List ℕ → List ℕ
remove_handler h [] = []
remove_handler h (j ∷ hs) = if nat_eq j h then hs else j ∷ remove_handler h hs

-- `_attach_handler`, on the root's handlers
abbrev pub attach_to : Option ℕ → List ℕ → List ℕ
attach_to none hs = hs
attach_to (some h) hs = if has_handler h hs then hs else add_handler h hs

-- `_guarded_setup`
pub data Wrapper : Type 0 where
  guarded_setup_wrapper : Wrapper

abbrev pub setup_target : Target
setup_target = ("oslo_log.log", "setup")

-- What is not this repository's, over its state: the global provider, `logging.basicConfig`, which
-- may add handlers, and the construction of a handler.
pub record Host : Type 1 where
  pub World : Type 0
  pub get_logger_provider : World → Value
  pub basic_config : Value → Value → Exec (List ℕ × World) (Unit {0})
  pub new_handler : HandlerArgs → Exec World ℕ

module _ (P : Wrapt Wrapper) (H : Host) where
  -- The functions, the factory and the root's handlers of the process, and the instrumentor's
  -- `_handler` and `_old_factory`.
  pub record Process : Type 0 where
    pub world : H.World
    pub modules : P.Modules
    pub factory : Factory
    pub handlers : List ℕ
    pub own_handler : Option ℕ
    pub old_factory : Option Factory

  -- `_attach_handler`
  unfoldable pub attach_handler : Process → Process
  attach_handler p = record p { handlers = attach_to p.own_handler p.handlers }

  -- `_guarded_setup`, given the call of the wrapped function
  unfoldable pub guarded_setup : {A : Type 0} → Exec Process A → Exec Process A
  guarded_setup wrapped = wrapped >>= λ result. modify attach_handler >> pure result

  -- `install_record_factory`, and the keeping of what it returns
  unfoldable pub install_record_factory : Value → Value → Process → Process
  install_record_factory provider log_hook p = record p {
    factory = correlating provider log_hook p.factory;
    old_factory = some p.factory;
  }

  abbrev pub wrap_setup : Exec Process (Unit {0})
  wrap_setup p =
      let (r, m) = P.wrap_function_wrapper setup_target guarded_setup_wrapper p.modules in
      (r, record p { modules = m })

  abbrev pub unwrap_setup : Exec Process (Unit {0})
  unwrap_setup p = let (r, m) = P.unwrap setup_target p.modules in (r, record p { modules = m })

  module _ (b : Builtins) (d : Defaults) (kwargs : Items) where
    abbrev pub config_at : Value → Exec Process (Unit {0})
    config_at level p =
        let (r, (hs, w)) = H.basic_config (log_format b d kwargs) level (p.handlers, p.world) in
        (r, record p { handlers = hs; world = w })

    -- The call of `basicConfig`, and its condition.
    unfoldable pub configure_format : Exec Process (Unit {0})
    configure_format =
        if set_logging_format b d kwargs then lift (log_level b d kwargs) >>= config_at else pure tt

    abbrev pub kept : Process → Result ℕ × H.World → Result (Unit {0}) × Process
    kept p (ok h, w) = (ok tt, record p { own_handler = some h; world = w })
    kept p (err e, w) = (err e, record p { world = w })

    abbrev pub handler_args : Value → Value → HandlerArgs
    handler_args provider level = record {
      level = level;
      logger_provider = provider;
      code_attributes = log_code_attributes b d kwargs;
      map_context = map_oslo_context b d kwargs;
    }

    abbrev pub make_at : Value → Value → Exec Process (Unit {0})
    make_at provider level p = kept p (H.new_handler (handler_args provider level) p.world)

    -- `self._handler = OsloLogHandler(…)`
    unfoldable pub make_handler : Value → Exec Process (Unit {0})
    make_handler provider = lift (handler_level b d kwargs) >>= make_at provider

    abbrev pub provider_of : Process → Value
    provider_of p = or (get kwargs "logger_provider") (H.get_logger_provider p.world)

    abbrev pub instrument_with : Value → Exec Process (Unit {0})
    instrument_with provider =
        configure_format
        >> (modify (install_record_factory provider (get kwargs "log_hook"))
            >> (make_handler provider >> (modify attach_handler >> wrap_setup)))

    -- `_instrument(**kwargs)`, given whether oslo.log is available
    unfoldable pub instrument : Bool → Exec Process (Unit {0})
    instrument available = if available then gets provider_of >>= instrument_with else pure tt

  -- The parts of `_uninstrument()` before and after `unwrap`
  abbrev pub factory_back : Option Factory → Process → Process
  factory_back none p = p
  factory_back (some f) p = record p { factory = f; old_factory = none }

  unfoldable pub restore_factory : Process → Process
  restore_factory p = factory_back p.old_factory p

  abbrev pub detach : Option ℕ → Process → Process
  detach none p = p
  detach (some h) p = record p { handlers = remove_handler h p.handlers; own_handler = none }

  unfoldable pub detach_handler : Process → Process
  detach_handler p = detach p.own_handler p

  -- `_uninstrument()`
  unfoldable pub uninstrument : Exec Process (Unit {0})
  uninstrument = modify restore_factory >> (unwrap_setup >> modify detach_handler)
