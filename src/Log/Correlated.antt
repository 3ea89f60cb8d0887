-- ===== src/Log/Correlated.antt =====
-- What the record factory puts on a record.
use opentelemetry_openstack.Prelude.{
  String, ◌≡◌, refl, Bool, true, false, Option, none, some, if◌then◌else◌, ◌==◌,
}
use opentelemetry_openstack.Prelude.{Bool-cases, inl, inr}
use opentelemetry_openstack.Py.Value.{
  Value, bool, str, Items, lookup, lookup-put, is_none, is_exception, Result, ok, err,
}
use opentelemetry_openstack.Py.Exec.{pure, try_except}
use opentelemetry_openstack.Py.Exec.Laws.{bind-ok, Result-cases}
use opentelemetry_openstack.Log.Factory.{
  Logging, State, read_service_name, resolve_service_name, uncorrelated, correlated, hooked,
  call_hook, correlate, correlate_at, Hook, in_world, record_factory,
}

overwritten {ℓ} :
    {A : Type ℓ} (a b c : Bool) (x y z x' y' z' w : A)
    → (if a
        then x
        else if b
        then y
        else if c
        then z
        else if a
        then x'
        else if b
        then y'
        else if c
        then z'
        else w)
      ≡ (if a then x else if b then y else if c then z else w)
overwritten true b c x y z x' y' z' w = refl
overwritten false true c x y z x' y' z' w = refl
overwritten false false true x y z x' y' z' w = refl
overwritten false false false x y z x' y' z' w = refl

module _ (L : Logging) where
  -- The id that a record shows for a span, if there is one.
  abbrev id_of : (L.Span → String) → Option L.Span → Value
  id_of id none = str "0"
  id_of id (some span) = str (id span)

  abbrev sampled_of : Option L.Span → Value
  sampled_of none = bool false
  sampled_of (some span) = L.sampled span

  -- What a record of `old_factory` has under a key once the factory is done with it.
  abbrev pub expected : Value → Option L.Span → Items → String → Option Value
  expected name span r k =
      if "otelTraceSampled" == k
      then some (sampled_of span)
      else if "otelTraceID" == k
      then some (id_of L.trace_id span)
      else if "otelSpanID" == k
      then some (id_of L.span_id span)
      else if "otelServiceName" == k
      then some name
      else lookup k r

  -- The record of a span, before the hook.
  abbrev pub stamped : Value → Option L.Span → Items → Items
  stamped name none r = uncorrelated L name r
  stamped name (some span) r = correlated L span (uncorrelated L name r)

  pub stamped-lookup :
      (name : Value) (span : Option L.Span) (r : Items) (k : String)
      → lookup k (stamped name span r) ≡ expected name span r k
  unfolding uncorrelated correlated
  stamped-lookup name none r k = simp lookup-put
  stamped-lookup name (some span) r k =
      rw
        (
          lookup-put "otelTraceSampled" k _ _,
          lookup-put "otelTraceID" k _ _,
          lookup-put "otelSpanID" k _ _,
          lookup-put "otelTraceSampled" k _ _,
          lookup-put "otelTraceID" k _ _,
          lookup-put "otelSpanID" k _ _,
          lookup-put "otelServiceName" k _ _,
        )
        (overwritten ("otelTraceSampled" == k) ("otelTraceID" == k) ("otelSpanID" == k) _ _ _ _ _ _
          _)

  -- Whether the hook, where it is called, ends but for what `except Exception` catches.
  abbrev ends_of : Result (Unit {0}) → Bool
  ends_of (ok u) = true
  ends_of (err e) = is_exception e

  abbrev pub hook_ends : Option (Hook L) → Option L.Span → Items → L.World → Bool
  hook_ends (some hook) (some span) r w = ends_of (hook span (r, w)).0
  hook_ends _ _ r w = true

  -- What the hook, where it is called, leaves of the record.
  abbrev pub left_of : Option (Hook L) → Option L.Span → Items → L.World → Items
  left_of (some hook) (some span) r w = (hook span (r, w)).1.0
  left_of _ _ r w = r

  hooked-left :
      (hook : Hook L) (span : L.Span) (r : Items) (s : State L)
      → ends_of (hook span (r, s.world)).0 ≡ true
      → (hooked L hook span r s).0 ≡ ok (hook span (r, s.world)).1.0
  unfolding try_except pure
  hooked-left hook span r s ends = elim (Result-cases (hook span (r, s.world)).0) [
    | inl (u, returned) ↦ rw returned refl
    | inr (e, raised) ↦ rw (raised, rw raised at ends) refl
  ]

  correlate-left :
      (log_hook : Option (Hook L)) (span : Option L.Span) (name : Value) (r : Items) (s : State L)
      → hook_ends log_hook span (stamped name span r) s.world ≡ true
      → (correlate_at L log_hook span (uncorrelated L name r) s).0
        ≡ ok (left_of log_hook span (stamped name span r) s.world)
  unfolding call_hook pure
  correlate-left none none name r s ends = refl
  correlate-left (some hook) none name r s ends = refl
  correlate-left none (some span) name r s ends = refl
  correlate-left (some hook) (some span) name r s ends = hooked-left hook span _ s ends

  resolve-world : (s : State L) → (resolve_service_name L s).1.world ≡ s.world
  unfolding resolve_service_name
  resolve-world s = elim (Bool-cases (is_none s.service_name)) [
    | inl unread ↦ elim (Result-cases (read_service_name (L.provider s.world))) [
      | inl (name, read) ↦ rw (unread, read) refl
      | inr (e, raised) ↦ rw (unread, raised) refl
    ]
    | inr cached ↦ rw cached refl
  ]

  -- `correlate` in a state whose world is known.
  after :
      (name : Value) (r : Items) (s : State L) (w : L.World)
      → s.world ≡ w
      → hook_ends L.log_hook (L.current_span w) (stamped name (L.current_span w) r) w ≡ true
      → (correlate L (uncorrelated L name r) s).0
        ≡ ok (left_of L.log_hook (L.current_span w) (stamped name (L.current_span w) r) w)
  unfolding correlate
  after name r s w e ends =
      rw (← e) (correlate-left L.log_hook (L.current_span s.world) name r s (rw (← e) at ends))

  module _ (args : L.Args) (s : State L) (r : Items) (name : Value)
      (made : (L.old_factory args s.world).0 ≡ ok r) where
    abbrev pub made_in : State L
    made_in = record s { world = (L.old_factory args s.world).1 }

    -- A record that the old factory makes while the service name resolves. Under every key it then
    -- has what is `expected`: the service name, the trace and span ids of the current span and
    -- whether the span is sampled, "0", "0" and `False` outside a span, and else what it had. So
    -- the hook gets it, and if the hook raises an `Exception`, as well as when it returns, the
    -- factory returns the record as the hook has left it.
    pub record_factory-expected :
        (named : (resolve_service_name L made_in).0 ≡ ok name)
        (ends : hook_ends L.log_hook
            (L.current_span made_in.world)
            (stamped name (L.current_span made_in.world) r)
            made_in.world
          ≡ true)
        → ((k : String)
            → lookup k (stamped name (L.current_span made_in.world) r)
              ≡ expected name (L.current_span made_in.world) r k)
          × ((record_factory L args s).0
              ≡ ok (
                  left_of L.log_hook
                    (L.current_span made_in.world)
                    (stamped name (L.current_span made_in.world) r)
                    made_in.world))
    unfolding record_factory
    record_factory-expected named ends = (
      stamped-lookup name (L.current_span made_in.world) r,
      rw
          (
            bind-ok _ (in_world L (L.old_factory args)) s r made,
            bind-ok _ (resolve_service_name L) made_in name named,
          )
          (after name r (resolve_service_name L made_in).1 made_in.world (resolve-world made_in)
            ends),
    )
