-- ===== src/Log/Cached.antt =====
-- The service name on the records that are made one after the other.
use opentelemetry_openstack.Prelude.{
  ◌≡◌, refl, ap, ◌∙◌, false, Option, none, some, List, [], ◌∷◌, Bool-cases, inl, inr, All,
}
use opentelemetry_openstack.Py.Value.{Value, Items, lookup, is_none, is_exception, Result, ok}
use opentelemetry_openstack.Py.Exec.{Exec, pure, try_except}
use opentelemetry_openstack.Py.Exec.Laws.{
  bind_result-ok, bind-ok, bind-err, Result-cases, ok-injective, err-ne-ok,
}
use opentelemetry_openstack.Log.Factory.{
  Logging, State, resolve_service_name, Hook, uncorrelated, hooked, call_hook, correlate,
  correlate_at, in_world, record_factory,
}
use opentelemetry_openstack.Log.Correlated.{stamped, stamped-lookup}

-- What the process does: another record, or anything but one.
pub data Event (L : Logging) : Type 0 where
  make : L.Args → Event L
  elsewhere : (L.World → L.World) → Event L

module _ (L : Logging) where
  -- The outcomes of the records that a sequence of events makes.
  unfoldable pub run : List (Event L) → State L → List (Result Items)
  run [] s = []
  run (make args ∷ events) s = let (r, s') = record_factory L args s in r ∷ run events s'
  run (elsewhere f ∷ events) s = run events (record s { world = f s.world })

  -- The hook leaves the record's service name.
  abbrev pub KeepsName : Option (Hook L) → Type 0
  KeepsName none = Unit
  KeepsName (some hook) =
      (span : L.Span) (r : Items) (w : L.World)
      → lookup "otelServiceName" (hook span (r, w)).1.0 ≡ lookup "otelServiceName" r

  -- A record, if one was made, has the name.
  abbrev pub IsNamed : Value → Result Items → Type 0
  IsNamed name outcome = (r : Items) → outcome ≡ ok r → lookup "otelServiceName" r ≡ some name

  swallowed-state :
      {S : Type 0} (m : Exec S (Unit {0})) (s : S) → (try_except m (λ e. pure tt) s).1 ≡ (m s).1
  unfolding try_except pure
  swallowed-state m s = elim (Result-cases (m s).0) [
    | inl (u, returned) ↦ rw returned refl
    | inr (e, raised) ↦ elim (Bool-cases (is_exception e)) [
      | inl caught ↦ rw (raised, caught) refl
      | inr passed ↦ rw (raised, passed) refl
    ]
  ]

  ok-IsNamed :
      (name : Value) (r : Items) → lookup "otelServiceName" r ≡ some name → IsNamed name (ok r)
  ok-IsNamed name r named r' e = rw (← ok-injective e) named

  stamped-IsNamed :
      (name : Value) (span : Option L.Span) (r : Items) → IsNamed name (ok (stamped L name span r))
  stamped-IsNamed name span r =
      ok-IsNamed name (stamped L name span r) (stamped-lookup L name span r "otelServiceName")

  hooked-IsNamed :
      (hook : Hook L) (span : L.Span) (name : Value) (r : Items) (s : State L)
      → KeepsName (some hook)
      → lookup "otelServiceName" r ≡ some name
      → IsNamed name (hooked L hook span r s).0
  hooked-IsNamed hook span name r s keeps named r' e =
      let (u, ended, left) =
        bind_result-ok (try_except (hook span) (λ e. pure tt) (r, s.world)).0 _ r' e in
      rw (← ok-injective left, swallowed-state (hook span) (r, s.world))
        (keeps span r s.world ∙ named)

  correlate_at-IsNamed :
      (log_hook : Option (Hook L)) (span : Option L.Span) (name : Value) (r : Items) (s : State L)
      → KeepsName log_hook
      → IsNamed name (correlate_at L log_hook span (uncorrelated L name r) s).0
        × ((correlate_at L log_hook span (uncorrelated L name r) s).1.service_name ≡ s.service_name)
  unfolding call_hook pure
  correlate_at-IsNamed none none name r s keeps = (stamped-IsNamed name none r, refl)
  correlate_at-IsNamed (some hook) none name r s keeps = (stamped-IsNamed name none r, refl)
  correlate_at-IsNamed none (some span) name r s keeps = (stamped-IsNamed name (some span) r, refl)
  correlate_at-IsNamed (some hook) (some span) name r s keeps = (
    hooked-IsNamed hook span name _ s keeps (stamped-lookup L name (some span) r "otelServiceName"),
    refl,
  )

  pub resolve-cached :
      (s : State L)
      → is_none s.service_name ≡ false
      → resolve_service_name L s ≡ (ok s.service_name, s)
  unfolding resolve_service_name
  resolve-cached s cached = rw cached refl

  record_factory-IsNamed :
      (args : L.Args) (s : State L)
      → KeepsName L.log_hook
      → is_none s.service_name ≡ false
      → IsNamed s.service_name (record_factory L args s).0
        × ((record_factory L args s).1.service_name ≡ s.service_name)
  unfolding record_factory correlate
  record_factory-IsNamed args s keeps cached = elim (Result-cases (L.old_factory args s.world).0) [
    | inl (r, made) ↦
        rw
          (
            bind-ok _ (in_world L (L.old_factory args)) s r made,
            bind-ok _ (resolve_service_name L) (record s { world = (L.old_factory args s.world).1 })
                s.service_name (ap (λ x. x.0) (resolve-cached _ cached)),
            resolve-cached (record s { world = (L.old_factory args s.world).1 }) cached,
          )
          (correlate_at-IsNamed L.log_hook _ s.service_name r _ keeps)
    | inr (e, raised) ↦
        rw (bind-err _ (in_world L (L.old_factory args)) s e raised)
          (λ r made. absurd (err-ne-ok made), refl)
  ]

  -- Once the service name is resolved and is not `None`, every record that is made has it, whatever
  -- else happens between the records to the provider or elsewhere, and none of these resolves it
  -- again, provided that the hook does not write it.
  run-IsNamed :
      (events : List (Event L)) (s : State L)
      → KeepsName L.log_hook
      → is_none s.service_name ≡ false
      → All (IsNamed s.service_name) (run events s)
  unfolding run
  run-IsNamed [] s keeps cached = tt
  run-IsNamed (make args ∷ events) s keeps cached =
      let (named, same) = record_factory-IsNamed args s keeps cached in
      let later = run-IsNamed events (record_factory L args s).1 keeps (rw same cached) in
      (named, rw same at later)
  run-IsNamed (elsewhere f ∷ events) s keeps cached =
      run-IsNamed events (record s { world = f s.world }) keeps cached
