-- ===== src/Otel/Span.antt =====
-- What the source tells the API about a span, and the API's operations.
use opentelemetry_openstack.Prelude.{if◌then◌else◌, String, Bool, Option, List, [], ◌∷◌, ◌++◌}
use opentelemetry_openstack.Py.Value.{Value, Items, Exn, Result}
use opentelemetry_openstack.Py.Exec.{Exec, leaving, outcome_exn}

pub data SpanKind : Type 0 where
  internal server client producer consumer : SpanKind

-- The calls on an open span: `set_attribute(key, value)`, `set_status(Status(ERROR, description))`
-- and `record_exception(exception)`.
pub data Note : Type 0 where
  attribute : String → Value → Note
  error_status : Option String → Note
  exception : Exn → Note

-- The arguments of `start_span` and `start_as_current_span`. `parent` is `context=`, `none` for the
-- current context.
pub record SpanArgs (Context : Type 0) : Type 0 where
  pub name : String
  pub kind : SpanKind
  pub parent : Option Context
  pub attributes : Items

pub record Telemetry : Type 1 where
  pub World : Type 0
  pub Context : Type 0
  pub Token : Type 0
  pub Span : Type 0
  -- what `__enter__` of a span's `with` statement keeps for `__exit__`
  pub Scope : Type 0
  -- opentelemetry.context
  pub get_current : World → Context
  pub attach : Context → World → Token × World
  pub detach : Token → World → World
  -- `not context`
  pub is_empty : Context → Bool
  -- opentelemetry.trace
  pub start_span : SpanArgs Context → World → Span × World
  pub is_recording : Span → World → Bool
  pub note : Span → Note → World → World
  pub end_span : Span → World → World
  pub set_span_in_context : Span → Context → Context
  -- `get_current_span(context).get_span_context().is_valid`
  pub has_valid_span : Context → Bool
  -- `trace.use_span(span, end_on_exit=True)` and `tracer.start_as_current_span(…)`
  pub use_span : Span → World → Scope × World
  pub start_as_current_span : SpanArgs Context → World → (Span × Scope) × World
  pub leave : Scope → Option Exn → World → World
  -- opentelemetry.propagate: `inject` into a mapping under the current context, and `extract`
  pub inject : Context → Items → Items
  pub extract : Value → Result Context
  -- `extract` by a getter, given what the getter finds for a field
  pub extract_by : (String → Option Value) → Result Context
  -- `is_instrumentation_enabled()`
  pub is_enabled : World → Bool

-- A recording function makes its calls on one span, and may raise between them.
abbrev pub Recorder : Type 0 → Type 0
Recorder A = Exec (List Note) A

-- Calls on the span within a recorder.
unfoldable pub emit : List Note → Recorder (Unit {0})
emit ns notes = (Result.ok tt, notes ++ ns)

module _ (T : Telemetry) where
  open T use {
    World, Context, Span, start_span, note, use_span, start_as_current_span, leave, is_recording,
  }

  unfoldable pub note_all : Span → List Note → World → World
  note_all span [] w = w
  note_all span (n ∷ ns) w = note_all span ns (note span n w)

  -- `with trace.use_span(span, end_on_exit=True): body`
  unfoldable pub with_span : {A : Type 0} → Span → Exec World A → Exec World A
  unfolding leaving
  with_span span body w = let (scope, w') = use_span span w in leaving (leave scope) body w'

  -- Runs a recorder on a span.
  unfoldable pub on_span : {A : Type 0} → Span → Recorder A → Exec World A
  on_span span recorder w = let (r, notes) = recorder [] in (r, note_all span notes w)

  -- `span = tracer.start_span(…)`
  unfoldable pub open_span : SpanArgs Context → Exec World Span
  open_span a w = let (s, w') = start_span a w in (Result.ok s, w')

  -- `with tracer.start_as_current_span(…) as span: body`
  unfoldable pub with_current_span :
      {A : Type 0} → SpanArgs Context → (Span → Exec World A) → Exec World A
  with_current_span a body w =
      let ((span, scope), w') = start_as_current_span a w in
      let (r, w'') = body span w' in (r, leave scope (outcome_exn r) w'')

  -- A recorder under `if span.is_recording()`.
  unfoldable pub recording : Span → Recorder (Unit {0}) → Exec World (Unit {0})
  recording span recorder w =
      if is_recording span w then on_span span recorder w else (Result.ok tt, w)
