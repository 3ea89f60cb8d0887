-- ===== src/Service/Backend.antt =====
-- __init__.py: the choice of oslo.service's backend. `oslo_service.backend` is not part of this
-- repository: it is an interface over its state.
use opentelemetry_openstack.Prelude.{
  inl, inr, Option-cases, String, ◌≡◌, refl, Bool, true, false, Option, none, some, or_else, ◌==◌,
  if◌then◌else◌,
}
use opentelemetry_openstack.Py.Value.{ok}
use opentelemetry_openstack.Py.Exec.{Exec, pure, try_except}

pub data BackendType : Type 0 where
  threading eventlet : BackendType

-- `oslo_service.backend`
pub record Backends : Type 1 where
  pub State : Type 0
  pub get_backend_type : State → Option BackendType
  pub init_backend : BackendType → Exec State (Unit {0})

-- `_BACKEND_BY_NAME`
unfoldable pub backend_by_name : String → Option BackendType
backend_by_name name =
    if name == "threading"
    then some threading
    else if name == "eventlet"
    then some eventlet
    else none

-- `requested or environ.get(…, "threading")`
unfoldable pub backend_name : Option String → Option String → String
backend_name none variable = or_else variable "threading"
backend_name (some requested) variable =
    if requested == "" then or_else variable "threading" else requested

module _ (B : Backends) where
  -- The part after the lookup of the name.
  unfoldable pub choose : BackendType → Exec B.State (Unit {0})
  choose backend s = elim (B.get_backend_type s) [
    | none ↦ try_except (B.init_backend backend) (λ e. pure tt) s
    | some current ↦ (ok tt, s)
  ]

  -- `_select_backend(requested)`, given whether oslo.service has backends and what the variable
  -- `OTEL_PYTHON_OSLO_SERVICE_BACKEND` is.
  unfoldable pub select_backend : Bool → Option String → Option String → Exec B.State (Unit {0})
  select_backend available variable requested s =
      if available
      then elim (backend_by_name (backend_name requested variable)) [
        | none ↦ (ok tt, s)
        | some backend ↦ choose backend s
      ]
      else (ok tt, s)

  -- `_pre_instrument()`
  unfoldable pub pre_instrument : Bool → Option String → Exec B.State (Unit {0})
  pre_instrument available variable = select_backend available variable none

-- What oslo.service documents of its backend: a backend that was initialized is the active one.
pub record Initializes (B : Backends) : Type 0 where
  pub active :
      (b : BackendType) (s : B.State)
      → (B.init_backend b s).0 ≡ ok tt
      → B.get_backend_type (B.init_backend b s).1 ≡ some b

module _ (B : Backends) where
  -- Where a backend is active, no request changes it, and none raises.
  active_backend_stays :
      (available : Bool) (variable requested : Option String) (current : BackendType) (s : B.State)
      → B.get_backend_type s ≡ some current
      → select_backend B available variable requested s ≡ (ok tt, s)
  unfolding select_backend choose
  active_backend_stays false variable requested current s active = refl
  active_backend_stays true variable requested current s active =
      elim (Option-cases (backend_by_name (backend_name requested variable))) [
        | inl unknown ↦ rw unknown refl
        | inr (b, known) ↦ rw (known, choose, active) refl
      ]

  choose-ok :
      (b : BackendType) (s : B.State)
      → B.get_backend_type s ≡ none
      → (B.init_backend b s).0 ≡ ok tt
      → choose B b s ≡ B.init_backend b s
  unfolding choose try_except
  choose-ok b s idle returned = rw (choose, idle, returned) refl

  pre_instrument-ok :
      (variable : Option String) (b : BackendType) (s : B.State)
      → B.get_backend_type s ≡ none
      → backend_by_name (or_else variable "threading") ≡ some b
      → (B.init_backend b s).0 ≡ ok tt
      → pre_instrument B true variable s ≡ B.init_backend b s
  unfolding pre_instrument select_backend backend_name
  pre_instrument-ok variable b s idle named returned = rw (named, choose-ok b s idle returned) refl

  -- Where no backend is active and the variable names one that initializes (or is unset, for the
  -- threading backend), the hook makes that backend active, and no later request of the
  -- instrumentor, by whatever name, changes it or raises.
  pub hook_decides :
      (initializes : Initializes B) (variable : Option String) (b : BackendType) (s : B.State)
      → B.get_backend_type s ≡ none
      → backend_by_name (or_else variable "threading") ≡ some b
      → (B.init_backend b s).0 ≡ ok tt
      → ((pre_instrument B true variable s).0 ≡ ok tt)
        × (B.get_backend_type (pre_instrument B true variable s).1 ≡ some b)
        × ((requested : Option String)
            → select_backend B true variable requested (pre_instrument B true variable s).1
              ≡ (ok tt, (pre_instrument B true variable s).1))
  hook_decides initializes variable b s idle named returned =
      let selected = pre_instrument-ok variable b s idle named returned in
      let active : B.get_backend_type (pre_instrument B true variable s).1 ≡ some b =
        rw selected (initializes.active b s returned) in
      (
        rw selected returned,
        active,
        λ requested. active_backend_stays true variable requested b _ active,
      )
