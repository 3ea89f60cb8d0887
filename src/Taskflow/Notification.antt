-- ===== src/Taskflow/Notification.antt =====
-- listener.py: the states that TaskFlow notifies of, and the tables that say what each one means.
use opentelemetry_openstack.Prelude.{
  String, ◌≡◌, ◌↔◌, Bool, true, false, ◌&&◌, Option, none, some, arith, ◌==◌, eq_iff,
}
use opentelemetry_openstack.Py.Value.{Value, Exn, null, str}
use opentelemetry_openstack.Py.Dict.{Key}

-- `taskflow.states`, as far as the tables name them; `other` is any other state.
pub data State : Type 0 where
  running reverting success failure reverted revert_failure suspended : State
  other : String → State

-- The method of an atom that a traced phase represents.
pub data Method : Type 0 where
  execute revert : Method

pub data Kind : Type 0 where
  task retry : Kind

abbrev pub method_name : Method → String
method_name execute = "execute"
method_name revert = "revert"

abbrev pub kind_name : Kind → String
kind_name task = "task"
kind_name retry = "retry"

-- `_ATOM_START_METHODS`
unfoldable pub atom_start_method : State → Option Method
atom_start_method running = some execute
atom_start_method reverting = some revert
atom_start_method _ = none

-- `_ATOM_FINISH_METHODS`, with whether the phase failed.
unfoldable pub atom_finish_method : State → Option (Method × Bool)
atom_finish_method success = some (execute, false)
atom_finish_method failure = some (execute, true)
atom_finish_method reverted = some (revert, false)
atom_finish_method revert_failure = some (revert, true)
atom_finish_method _ = none

-- `_FLOW_FINISH_STATES`, with whether the flow failed.
unfoldable pub flow_finish_state : State → Option Bool
flow_finish_state success = some false
flow_finish_state failure = some true
flow_finish_state reverted = some true
flow_finish_state revert_failure = some true
flow_finish_state suspended = some false
flow_finish_state _ = none

-- A `taskflow.types.failure.Failure`; the exception may have been lost.
pub record Failure : Type 0 where
  pub exception : Option Exn
  pub exception_str : String

-- The entries of the notification's `details` that are read, `none` where one is missing. `result`
-- is `none` for what is no `Failure`.
pub record Details : Type 0 where
  pub name : Option String
  pub uuid : Option String
  pub result : Option Failure

-- A notification of an engine: of its flow, or of one of its atoms.
pub data Notification : Type 0 where
  flow : State → Details → Notification
  atom : Kind → State → Details → Notification

-- The key of an open atom span, `(atom_uuid, method)`.
abbrev pub AtomKey : Type 0
AtomKey = Option String × Method

abbrev pub same_uuid : Option String → Option String → Bool
same_uuid none none = true
same_uuid (some s) (some t) = s == t
same_uuid _ _ = false

abbrev same_method : Method → Method → Bool
same_method execute execute = true
same_method revert revert = true
same_method _ _ = false

abbrev pub same_key : AtomKey → AtomKey → Bool
same_key (u, m) (v, n) = same_uuid u v && same_method m n

pub same_key_iff : (j k : AtomKey) → (same_key j k ≡ true) ↔ (j ≡ k)
same_key_iff (none, m) (none, n) = ground arith
same_key_iff (some s, m) (some t, n) = ground (arith, eq_iff s t)
same_key_iff (none, m) (some t, n) = ground arith
same_key_iff (some s, m) (none, n) = ground arith

instance abbrev pub atom_key : Key AtomKey
atom_key = record { same = same_key; same_iff = same_key_iff }

-- An attribute's value, `None` where the entry is missing.
abbrev pub text_or_none : Option String → Value
text_or_none none = null
text_or_none (some s) = str s
