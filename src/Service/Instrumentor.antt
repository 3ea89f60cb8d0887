-- ===== src/Service/Instrumentor.antt =====
-- _propagation.py: the entry points, `install` and `uninstall`; __init__.py:
-- `OsloServiceInstrumentor`.
pub mod Restored
use opentelemetry_openstack.Prelude.{
  ℕ, String, ◌≡◌, refl, Bool, true, false, Option, none, some, List, [], ◌∷◌, ◌++◌, map,
  if◌then◌else◌,
}
use opentelemetry_openstack.Py.Value.{Result, ok, err}
use opentelemetry_openstack.Py.Exec.{Exec, pure, ◌>>=◌, ◌>>◌}
use opentelemetry_openstack.Py.Dict.{Dict, NodupKeys}
use opentelemetry_openstack.Py.Wrapt.{Target, target_key, Wrapt, wrap_all, unwrap_all, targets}
use opentelemetry_openstack.Service.Backend.{Backends, select_backend}

-- `_wrap_thread_start`, `_wrap_thread_run` and `spawn_wrapper(func_index)`
pub data Wrapper : Type 0 where
  thread_start thread_run : Wrapper
  spawn : ℕ → Wrapper

-- What can be imported: eventlet, and futurist's two executors.
pub record Installed : Type 0 where
  pub eventlet : Bool
  pub thread_pool : Bool
  pub green_thread_pool : Bool

abbrev when : Bool → Dict Target Wrapper → Dict Target Wrapper
when b ts = if b then ts else []

-- `_EVENTLET_SPAWNS`
unfoldable pub eventlet_spawns : Bool → Dict Target Wrapper
eventlet_spawns installed = when installed (
    (("eventlet", "spawn"), spawn 0)
    ∷ (("eventlet", "spawn_n"), spawn 0)
    ∷ (("eventlet", "spawn_after"), spawn 1)
    ∷ (("GreenPool", "spawn"), spawn 0)
    ∷ (("GreenPool", "spawn_n"), spawn 0)
    ∷ [])

-- `_FUTURIST_SUBMITS`
unfoldable pub futurist_submits : Bool → Bool → Dict Target Wrapper
futurist_submits thread_pool green_thread_pool =
    when thread_pool ((("ThreadPoolExecutor", "submit"), spawn 0) ∷ [])
    ++ when green_thread_pool ((("GreenThreadPoolExecutor", "submit"), spawn 0) ∷ [])

-- What `install` wraps, in its order.
unfoldable pub entry_points : Installed → Dict Target Wrapper
entry_points i =
    (("Thread", "start"), thread_start)
    ∷ (("Thread", "run"), thread_run)
    ∷ (eventlet_spawns i.eventlet ++ futurist_submits i.thread_pool i.green_thread_pool)

module _ (P : Wrapt Wrapper) (i : Installed) where
  -- `install`
  unfoldable pub install : Exec P.Modules (List Target)
  install = wrap_all P (entry_points i) >> pure (targets (entry_points i))

-- `uninstall`
unfoldable pub uninstall : (P : Wrapt Wrapper) → List Target → Exec P.Modules (Unit {0})
uninstall P wrapped = unwrap_all P wrapped

module _ (P : Wrapt Wrapper) (B : Backends) where
  -- The patched modules, oslo.service's backend, and `_wraps`.
  pub record Process : Type 0 where
    pub modules : P.Modules
    pub backend : B.State
    pub wraps : List Target

  -- `self._wraps = install()`
  abbrev pub kept : Process → Result (List Target) × P.Modules → Result (Unit {0}) × Process
  kept p (ok wraps, m) = (ok tt, record p { modules = m; wraps = wraps })
  kept p (err e, m) = (err e, record p { modules = m })

  unfoldable pub keep_wraps : Installed → Exec Process (Unit {0})
  keep_wraps i p = kept p (install P i p.modules)

  -- `_select_backend(requested)`
  unfoldable pub set_backend : Bool → Option String → Option String → Exec Process (Unit {0})
  set_backend available variable requested p =
      let (r, b) = select_backend B available variable requested p.backend in
      (r, record p { backend = b })

  -- `_instrument(backend=requested)`
  unfoldable pub instrument :
      Installed → Bool → Option String → Option String → Exec Process (Unit {0})
  instrument i available variable requested =
      set_backend available variable requested >> keep_wraps i

  -- `uninstall(self._wraps)`, and `self._wraps = ()` after it.
  abbrev pub dropped : Process → Result (Unit {0}) × P.Modules → Result (Unit {0}) × Process
  dropped p (ok u, m) = (ok tt, record p { modules = m; wraps = [] })
  dropped p (err e, m) = (err e, record p { modules = m })

  -- `_uninstrument()`
  unfoldable pub uninstrument : Exec Process (Unit {0})
  uninstrument p = dropped p (uninstall P p.wraps p.modules)
