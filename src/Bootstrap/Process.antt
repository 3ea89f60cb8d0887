-- ===== src/Bootstrap/Process.antt =====
-- What the early start changes: the environment, `sys.modules`, and the handlers that
-- `os.register_at_fork` has. What is not this repository's, eventlet and the import of modules, is
-- an interface over that state.
use Prim.Native.Char.{Char}
use opentelemetry_openstack.Prelude.{ℕ, String, Bool, List}
use opentelemetry_openstack.Py.Value.{Value, Items}
use opentelemetry_openstack.Py.Exec.{Exec}
use opentelemetry_openstack.Py.Dict.{Dict, string_key, put}

-- `_fresh_hub`, or a handler of other code
pub data ForkHandler : Type 0 where
  fresh_hub_handler : ForkHandler
  foreign : ℕ → ForkHandler

-- `modules` are those of `sys.modules`, by name, with their attributes; `forkhook_installed` is
-- `_forkhook_installed`.
pub record Process (W : Type 0) : Type 0 where
  pub world : W
  pub environ : Dict String String
  pub modules : Dict String Items
  pub after_in_child : List ForkHandler
  pub forkhook_installed : Bool

pub record Platform : Type 1 where
  pub World : Type 0
  -- `os.pathsep`, and whether `os` has `register_at_fork`
  pub pathsep : Char
  pub has_register_at_fork : Bool
  -- `__import__(name)`, and `eventlet.monkey_patch()`
  pub import_module : String → Exec (Process World) (Unit {0})
  pub monkey_patch : Exec (Process World) (Unit {0})
  -- `from eventlet import patcher; patcher.original("threading")`
  pub original_threading : Exec (Process World) Value
  -- `isinstance(v, types.ModuleType)`
  pub is_module : Value → Bool
  -- `warnings.warn(message)`
  pub warn : String → Exec (Process World) (Unit {0})
  -- `sys.modules.get("eventlet.hubs")`, and its `use_hub()`
  pub eventlet_hubs : World → Value
  pub use_hub : Exec World (Unit {0})

abbrev pub State : Platform → Type 0
State O = Process O.World

-- `os.environ[name] = value`
abbrev pub set_environ : {W : Type 0} → String → String → Process W → Process W
set_environ name value p = record p { environ = put name value p.environ }
