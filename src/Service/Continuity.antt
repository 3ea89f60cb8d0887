-- ===== src/Service/Continuity.antt =====
-- _propagation.py: the context under which spawned work runs.
use opentelemetry_openstack.Prelude.{
  ℕ, ◌≡◌, ◌≢◌, refl, true, false, some, List, [], ◌∷◌, get_elem?, set, length, leb, arith, zero,
  suc, inl, inr, Bool-cases, Option-cases,
}
use opentelemetry_openstack.Py.Value.{Value, Items}
use opentelemetry_openstack.Py.Exec.{Exec}
use opentelemetry_openstack.Otel.Span.{Telemetry}
use opentelemetry_openstack.Otel.Laws.{KeepsContext}
use opentelemetry_openstack.Service.Propagation.{
  Callable, Argument, callable, value, traced, spawn_wrapper,
}

bounded :
    {A : Type 0} (xs : List A) (i : ℕ) (x : A) → get_elem? xs i ≡ some x → leb (length xs) i ≡ false
bounded [] i x h = ground arith
bounded (y ∷ ys) zero x h = ground arith
bounded (y ∷ ys) (suc i) x h = ground (arith, bounded ys i x h)

module _ (T : Telemetry) (laws : KeepsContext T) where
  -- Whoever calls `g`, in whatever state, gets what `f` returns or raises when `f` runs under the
  -- context `c`; the caller's own context is afterwards what it was.
  pub record RunsUnder (c : T.Context) (g f : Callable T) : Type 0 where
    pub during : List Value → Items → T.World → T.World
    pub same :
        (args : List Value) (kwargs : Items) (v : T.World)
        → (g args kwargs v).0 ≡ (f args kwargs (during args kwargs v)).0
    pub under :
        (args : List Value) (kwargs : Items) (v : T.World)
        → T.get_current (during args kwargs v) ≡ c
    pub restored :
        (args : List Value) (kwargs : Items) (v : T.World)
        → T.get_current (g args kwargs v).1 ≡ T.get_current v

  traced-RunsUnder : (c : T.Context) (f : Callable T) → RunsUnder c (traced T c f) f
  unfolding traced
  traced-RunsUnder c f = record {
    during = λ args kwargs v. (T.attach c v).1;
    same = λ args kwargs v. refl;
    under = λ args kwargs v. laws.attached c v;
    restored = λ args kwargs v. laws.detached c v _;
  }

  -- With instrumentation enabled and a callable at its position, a spawn is called once, in the
  -- state at hand, with its arguments but for the callable; in its place is one that runs the
  -- callable under the spawner's context, whichever thread calls it and whenever.
  pub spawn_wrapper-continues :
      (func_index : ℕ) (wrapped : List (Argument T) → Items → Exec T.World Value)
      (args : List (Argument T)) (kwargs : Items) (f : Callable T) (w : T.World)
      → T.is_enabled w ≡ true
      → get_elem? args func_index ≡ some (callable f)
      → (g : Callable T) × (spawn_wrapper T func_index wrapped args kwargs w
          ≡ wrapped (set args func_index (callable g)) kwargs w)
        × RunsUnder (T.get_current w) g f
  unfolding spawn_wrapper
  spawn_wrapper-continues func_index wrapped args kwargs f w enabled here = (
    traced T (T.get_current w) f,
    rw (enabled, bounded args func_index (callable f) here, here) refl,
    traced-RunsUnder (T.get_current w) f,
  )

  -- A spawn with instrumentation disabled, or with no callable at its position (too few arguments,
  -- or another value), is the wrapped spawn.
  spawn_wrapper-passes :
      (func_index : ℕ) (wrapped : List (Argument T) → Items → Exec T.World Value)
      (args : List (Argument T)) (kwargs : Items) (w : T.World)
      → ((f : Callable T) → T.is_enabled w ≡ true → get_elem? args func_index ≢ some (callable f))
      → spawn_wrapper T func_index wrapped args kwargs w ≡ wrapped args kwargs w
  unfolding spawn_wrapper
  spawn_wrapper-passes func_index wrapped args kwargs w h = elim (Bool-cases (T.is_enabled w)) [
    | inr disabled ↦ rw disabled refl
    | inl enabled ↦ elim (Bool-cases (leb (length args) func_index)) [
      | inl short ↦ rw (enabled, short) refl
      | inr long ↦ elim (Option-cases (get_elem? args func_index)) [
        | inl missing ↦ rw (enabled, long, missing) refl
        | inr (value v, found) ↦ rw (enabled, long, found) refl
        | inr (callable f, found) ↦ elim (h f enabled found) [ ]
      ]
    ]
  ]
