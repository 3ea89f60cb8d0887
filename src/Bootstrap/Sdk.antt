-- ===== src/Bootstrap/Sdk.antt =====
-- _oslo_service_eventlet.py: `unpatch_sdk`, which gives the SDK's modules the real `threading`.
use opentelemetry_openstack.Prelude.{
  String, Bool, true, false, Option, none, some, List, [], ◌∷◌, if◌then◌else◌,
}
use opentelemetry_openstack.Py.Value.{
  Value, Items, put, import_error, key_error, Result, ok, err, bind_result, getattr_required,
}
use opentelemetry_openstack.Py.Exec.{Exec, pure, lift, try_except, ◌>>=◌, ◌>>◌}
use opentelemetry_openstack.Py.Dict.{Dict, string_key, lookup}
use opentelemetry_openstack.Py.Dict
use opentelemetry_openstack.Bootstrap.Process.{Platform, State}

-- `_SDK_THREAD_NAMES`
abbrev pub sdk_thread_names : List String
sdk_thread_names = "Event" ∷ "Lock" ∷ "RLock" ∷ "Thread" ∷ []

abbrev pub Bindings : Type 0
Bindings = Dict String Value

-- `{name: getattr(real, name) for name in …}`
unfoldable pub bindings_of : Value → List String → Result Bindings
bindings_of real [] = ok []
bindings_of real (name ∷ names) =
    bind_result (getattr_required real name)
      (λ v. bind_result (bindings_of real names) (λ rest. ok ((name, v) ∷ rest)))

-- `rebindings`
unfoldable pub rebindings : Value → Result (Dict String Bindings)
rebindings real = bind_result (bindings_of real sdk_thread_names) (λ names. ok (
    ("opentelemetry.sdk._shared_internal", ("threading", real) ∷ [])
    ∷ ("opentelemetry.sdk.metrics._internal.export", names)
    ∷ []))

-- `for name, value in attributes.items(): setattr(module, name, value)`
unfoldable pub bind_names : Bindings → Items → Items
bind_names [] target = target
bind_names ((name, v) ∷ attributes) target = bind_names attributes (put name v target)

-- `except ImportError: continue`, as whether the module was imported
abbrev pub imported : Result (Unit {0}) → Result Bool
imported (ok u) = ok true
imported (err import_error) = ok false
imported (err e) = err e

module _ (O : Platform) where
  -- `real if isinstance(real, types.ModuleType) else None`
  abbrev pub module_or_none : Value → Option Value
  module_or_none real = if O.is_module real then some real else none

  -- `_unpatched_threading()`
  unfoldable pub unpatched_threading : Exec (State O) (Option Value)
  unpatched_threading =
      try_except (O.original_threading >>= λ real. pure (some real)) (λ e. pure none) >>= λ real.
      pure (elim real [ none ↦ none | some v ↦ module_or_none v ])

  -- `target = sys.modules[module_name]`, and the writes to it
  abbrev rebind_at : String → Bindings → Option Items → Exec (State O) (Unit {0})
  rebind_at name attributes none p = (err key_error, p)
  rebind_at name attributes (some target) p =
      (ok tt, record p { modules = Dict.put name (bind_names attributes target) p.modules })

  unfoldable pub rebind : String → Bindings → Exec (State O) (Unit {0})
  rebind name attributes p = rebind_at name attributes (lookup name p.modules) p

  -- `__import__(module_name)` and its `except`
  unfoldable pub try_import : String → Exec (State O) Bool
  try_import name p = let (r, p') = O.import_module name p in (imported r, p')

  -- The loop.
  unfoldable pub rebind_all : Dict String Bindings → Bool → Exec (State O) Bool
  rebind_all [] rebound = pure rebound
  rebind_all ((name, attributes) ∷ rest) rebound =
      let later = rebind_all rest in
      try_import name >>= λ here.
      if here then rebind name attributes >> later true else later rebound

  abbrev pub unpatch_with : Option Value → Exec (State O) Bool
  unpatch_with none = pure false
  unpatch_with (some real) = lift (rebindings real) >>= λ r. rebind_all r false

  -- `unpatch_sdk()`
  unfoldable pub unpatch_sdk : Exec (State O) Bool
  unpatch_sdk = unpatched_threading >>= unpatch_with
