-- ===== src/Log/Factory.antt =====
-- _factory.py: the factory of log records, which gives a record the current trace's ids.
use opentelemetry_openstack.Prelude.{String, false, Option, none, some, if◌then◌else◌}
use opentelemetry_openstack.Py.Value.{
  Value, bool, str, dict, Items, end, put, is_none, Result, ok, err, bind_result, call_get, getattr,
  getattr_default,
}
use opentelemetry_openstack.Py.Exec.{Exec, pure, ◌>>=◌, try_except}

-- What is not this repository's, over its state: the factory in force before, the span in context
-- with its ids as texts (`none` for the invalid span and for an invalid span context), the provider
-- object, and the caller's `log_hook`, which may change the record that it is given, and raise.
pub record Logging : Type 1 where
  pub World : Type 0
  pub Args : Type 0
  pub Span : Type 0
  pub old_factory : Args → Exec World Items
  pub current_span : World → Option Span
  pub trace_id : Span → String
  pub span_id : Span → String
  pub sampled : Span → Value
  pub provider : World → Value
  pub log_hook : Option (Span → Exec (Items × World) (Unit {0}))

-- The body of `resolve_service_name` where nothing is cached.
abbrev pub read_service_name : Value → Result Value
read_service_name provider = bind_result (getattr provider "resource") (λ resource.
    bind_result (getattr_default resource "attributes" (dict end))
      (λ attributes. call_get attributes "service.name" (str "")))

module _ (L : Logging) where
  -- The closure's `service_name`, beside the rest of the state.
  pub record State : Type 0 where
    pub world : L.World
    pub service_name : Value

  -- `resolve_service_name()`
  unfoldable pub resolve_service_name : Exec State Value
  resolve_service_name s =
      if is_none s.service_name
      then elim (read_service_name (L.provider s.world)) [
        | ok name ↦ (ok name, record s { service_name = name })
        | err e ↦ (err e, s)
      ]
      else (ok s.service_name, s)

  abbrev pub Hook : Type 0
  Hook = L.Span → Exec (Items × L.World) (Unit {0})

  -- The attributes of a record before the look at the current span.
  unfoldable pub uncorrelated : Value → Items → Items
  uncorrelated name r =
      put "otelTraceSampled" (bool false)
        (put "otelTraceID" (str "0") (put "otelSpanID" (str "0") (put "otelServiceName" name r)))

  unfoldable pub correlated : L.Span → Items → Items
  correlated span r =
      put "otelTraceSampled" (L.sampled span)
        (put "otelTraceID" (str (L.trace_id span)) (put "otelSpanID" (str (L.span_id span)) r))

  -- The call of the hook, and the record as it leaves it.
  abbrev pub hooked : Hook → L.Span → Items → Exec State Items
  hooked hook span r s =
      let (outcome, (r', w)) = try_except (hook span) (λ e. pure tt) (r, s.world) in
      (bind_result outcome (λ u. ok r'), record s { world = w })

  unfoldable pub call_hook : Option Hook → L.Span → Items → Exec State Items
  call_hook none span r = pure r
  call_hook (some hook) span r = hooked hook span r

  -- The part of `record_factory` from the look at the current span on, given the span.
  abbrev pub correlate_at : Option Hook → Option L.Span → Items → Exec State Items
  correlate_at log_hook none r = pure r
  correlate_at log_hook (some span) r = call_hook log_hook span (correlated span r)

  unfoldable pub correlate : Items → Exec State Items
  correlate r s = correlate_at L.log_hook (L.current_span s.world) r s

  abbrev pub in_world : {A : Type 0} → Exec L.World A → Exec State A
  in_world m s = let (r, w) = m s.world in (r, record s { world = w })

  -- `record_factory(*args, **kwargs)`
  unfoldable pub record_factory : L.Args → Exec State Items
  record_factory args = in_world (L.old_factory args) >>= λ r.
      resolve_service_name >>= λ name. correlate (uncorrelated name r)
