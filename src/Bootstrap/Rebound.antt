-- ===== src/Bootstrap/Rebound.antt =====
-- The SDK's modules after `unpatch_sdk`.
use opentelemetry_openstack.Prelude.{String, ◌≡◌, Bool, true, false, some, [], ◌∷◌}
use opentelemetry_openstack.Py.Value.{
  Value, Items, Exn, import_error, Result, ok, err, getattr_required,
}
use opentelemetry_openstack.Py.Value as Value
use opentelemetry_openstack.Py.Dict.{Dict, string_key, lookup, NodupKeys}
use opentelemetry_openstack.Py.Dict
use opentelemetry_openstack.Bootstrap.Process.{Platform, State}
use opentelemetry_openstack.Bootstrap.Sdk.{Bindings}

module _ (O : Platform) (available : String → Bool) where
  -- What importing documents: an available module is then one of `sys.modules`, and a module that
  -- was there stays; any other raises `ImportError`.
  pub record Imports : Type 0 where
    pub loads :
        (name : String) (p : State O)
        → available name ≡ true
        → ((O.import_module name p).0 ≡ ok tt)
          × ((m : Items) × (lookup name (O.import_module name p).1.modules ≡ some m))
    pub keeps :
        (name j : String) (m : Items) (p : State O)
        → lookup j p.modules ≡ some m
        → lookup j (O.import_module name p).1.modules ≡ some m
    pub fails :
        (name : String) (p : State O)
        → available name ≡ false
        → (O.import_module name p).0 ≡ err import_error

  -- A module is loaded, and has the bindings.
  abbrev pub IsBound : String → Bindings → State O → Type 0
  IsBound j bindings p =
      (m : Items) × (lookup j p.modules ≡ some m)
      × ((k : String) (v : Value) → lookup k bindings ≡ some v → Value.lookup k m ≡ some v)

  abbrev AllNodup : Dict String Bindings → Type 0
  AllNodup [] = Unit
  AllNodup ((name, bindings) ∷ rs) = NodupKeys bindings × AllNodup rs

  module _ (imports : Imports) where
    module _ (p p1 : State O) (real event lock rlock thread : Value)
        (supplied : O.original_threading p ≡ (ok real, p1)) (genuine : O.is_module real ≡ true)
        (has_event : getattr_required real "Event" ≡ ok event)
        (has_lock : getattr_required real "Lock" ≡ ok lock)
        (has_rlock : getattr_required real "RLock" ≡ ok rlock)
        (has_thread : getattr_required real "Thread" ≡ ok thread) where
      -- The names of the real `threading`, by module of the SDK.
      abbrev pub real_names : Dict String Bindings
      real_names =
          ("opentelemetry.sdk._shared_internal", ("threading", real) ∷ [])
          ∷ (
            "opentelemetry.sdk.metrics._internal.export",
            ("Event", event) ∷ ("Lock", lock) ∷ ("RLock", rlock) ∷ ("Thread", thread) ∷ [],
          )
          ∷ []
