-- ===== src/Otel/Restores.antt =====
-- Code that leaves the current context as it found it, whether it returns or raises, and the rules
-- for the ways in which the wrappers are built.
use opentelemetry_openstack.Prelude.{◌≡◌, refl, ◌∙◌, Bool, true, false, if◌then◌else◌}
use opentelemetry_openstack.Py.Value.{Result, ok, err}
use opentelemetry_openstack.Py.Exec.{Exec, lift, pure, gets, ◌>>=◌}
use opentelemetry_openstack.Otel.Span.{SpanArgs, Telemetry, Recorder, on_span, with_span, open_span}
use opentelemetry_openstack.Otel.Laws.{KeepsContext, get_current-note_all}

pub record Restores (T : Telemetry) {A : Type 0} (m : Exec T.World A) : Type 0 where
  pub at : (w : T.World) → T.get_current (m w).1 ≡ T.get_current w

module _ {T : Telemetry} {A : Type 0} where
  pub Restores-lift : (r : Result A) → Restores T (lift r)
  unfolding lift
  Restores-lift r = record { at = λ w. refl }

  pub Restores-gets : (f : T.World → A) → Restores T (gets f)
  unfolding gets
  Restores-gets f = record { at = λ w. refl }

  pub Restores-pure : (a : A) → Restores T (pure a)
  unfolding pure
  Restores-pure a = record { at = λ w. refl }

  pub Restores-if :
      (b : Bool) (m n : Exec T.World A)
      → Restores T m
      → Restores T n
      → Restores T (if b then m else n)
  Restores-if true m n km kn = km
  Restores-if false m n km kn = kn

module _ {T : Telemetry} {A B : Type 0} where
  Restores-continue :
      (r : Result A) (f : A → Exec T.World B)
      → ((a : A) → Restores T (f a))
      → Restores T (lift r >>= f)
  unfolding ◌>>=◌
  Restores-continue (ok a) f kf = kf a
  Restores-continue (err e) f kf = record { at = λ w. refl }

  pub Restores-bind :
      (m : Exec T.World A) (f : A → Exec T.World B)
      → Restores T m
      → ((a : A) → Restores T (f a))
      → Restores T (m >>= f)
  unfolding ◌>>=◌
  Restores-bind m f km kf = record {
    at = λ w. let (r, w') = m w in (Restores-continue r f kf).at w' ∙ km.at w;
  }

module _ {T : Telemetry} (laws : KeepsContext T) where
  pub Restores-open_span : (a : SpanArgs T.Context) → Restores T (open_span T a)
  unfolding open_span
  Restores-open_span a = record { at = λ w. laws.started a w }

  pub Restores-on_span :
      {A : Type 0} (s : T.Span) (recorder : Recorder A) → Restores T (on_span T s recorder)
  unfolding on_span
  Restores-on_span s recorder = record { at = λ w. get_current-note_all laws s _ w }

  -- Whatever the body does to the context.
  pub Restores-with_span :
      {A : Type 0} (s : T.Span) (body : Exec T.World A) → Restores T (with_span T s body)
  unfolding with_span
  Restores-with_span s body = record { at = λ w. laws.left s _ w _ }

pub ruleset restores_rules = (
  Restores-lift, Restores-gets, Restores-pure, Restores-if, Restores-bind, Restores-open_span,
  Restores-on_span, Restores-with_span,
)
