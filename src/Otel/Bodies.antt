-- ===== src/Otel/Bodies.antt =====
-- What runs once within a span, under which context, and what its parent is.
use opentelemetry_openstack.Prelude.{
  none, List, [], refl, ◌≡◌, Bool, true, false, if◌then◌else◌, Bool-cases, inl, inr,
}
use opentelemetry_openstack.Py.Value.{Result, ok}
use opentelemetry_openstack.Py.Exec.{Exec, pure, outcome_exn}
use opentelemetry_openstack.Otel.Span.{
  SpanArgs, SpanKind, Note, note_all, Telemetry, Recorder, on_span, recording,
}

module _ (T : Telemetry) (a : SpanArgs T.Context) (notes : List Note) where
  -- The span that starts in a state, and the state in which the body of its `with` statement runs,
  -- after the calls `notes` on the span.
  abbrev pub span_from : T.World → T.Span
  span_from w = (T.start_span a w).0

  abbrev pub noted_from : T.World → T.World
  noted_from w = note_all T (span_from w) notes (T.start_span a w).1

  abbrev pub inside : T.World → T.World
  inside w = (T.use_span (span_from w) (noted_from w)).1

  -- A span starts, and `body` runs once within its `with` statement.
  abbrev pub spanned : {A : Type 0} → Exec T.World A → Exec T.World A
  spanned body w =
      let (r, v) = body (inside w) in
      (r, T.leave (T.use_span (span_from w) (noted_from w)).0 (outcome_exn r) v)

-- `result` is that of one run of `body` in a new span of the given kind, which starts in the state
-- `opened` with no parent given, so that its parent is the context `c`, which is current there, and
-- which is current while the body runs. Then nothing follows but `finish`.
pub record RunsInSpan (T : Telemetry) {A : Type 0} (result : Result A × T.World) (kind : SpanKind)
    (c : T.Context) (opened : T.World) (body : T.Span → Exec T.World A) (finish : T.World → T.World)
    : Type 0 where
  pub args : SpanArgs T.Context
  pub notes : List Note
  pub parent : args.parent ≡ none
  pub own_kind : args.kind ≡ kind
  pub current : T.get_current opened ≡ c
  pub entered :
      T.get_current (inside T args notes opened)
      ≡ T.set_span_in_context (span_from T args notes opened) c
  pub once : result ≡ (
    (spanned T args notes (body (span_from T args notes opened)) opened).0,
    finish (spanned T args notes (body (span_from T args notes opened)) opened).1,
  )

-- `result` is that of one run of `body` in a new span of the given kind, which is opened in the
-- state `w` with no parent given, so that its parent is the current context, and which is current
-- while the body runs. What the body returns or raises is the outcome; nothing follows but calls on
-- the span and its end.
pub record RunsInCurrentSpan (T : Telemetry) {A : Type 0} (result : Result A × T.World)
    (kind : SpanKind) (w : T.World) (body : T.Span → Exec T.World A) : Type 0 where
  pub args : SpanArgs T.Context
  pub notes : List Note
  pub parent : args.parent ≡ none
  pub own_kind : args.kind ≡ kind
  pub entered :
      T.get_current (T.start_as_current_span args w).1
      ≡ T.set_span_in_context (T.start_as_current_span args w).0.0 (T.get_current w)
  pub once : result ≡ (
      let ((span, scope), started) = T.start_as_current_span args w in
      let (r, v) = body span started in
      (r, T.leave scope (outcome_exn r) (note_all T span notes v)))

-- A recorder under a condition that ends normally makes calls on the span, and nothing else.
pub recording-notes :
    (T : Telemetry) (b : Bool) (s : T.Span) (recorder : Recorder (Unit {0})) (w : T.World)
    → (recorder []).0 ≡ ok tt
    → (notes : List Note) × ((if b then on_span T s recorder else pure tt) w
        ≡ (ok tt, note_all T s notes w))
unfolding on_span pure note_all
recording-notes T true s recorder w h = ((recorder []).1, rw h refl)
recording-notes T false s recorder w h = ([], refl)

pub recording-note_all :
    (T : Telemetry) (s : T.Span) (recorder : Recorder (Unit {0})) (w : T.World)
    → (recorder []).0 ≡ ok tt
    → (notes : List Note) × (recording T s recorder w ≡ (ok tt, note_all T s notes w))
unfolding recording pure
recording-note_all T s recorder w h = elim (Bool-cases (T.is_recording s w)) [
  | inl on ↦ let (notes, e) = recording-notes T true s recorder w h in (notes, rw on e)
  | inr off ↦ let (notes, e) = recording-notes T false s recorder w h in (notes, rw off e)
]
