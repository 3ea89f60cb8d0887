-- ===== src/Otel/Laws.antt =====
-- What the API's documentation promises of the current context: `attach` makes a context current
-- and `detach` restores the one that was current before; a span's `with` statement makes the span
-- current and restores what was current; no other call changes the current context.
use opentelemetry_openstack.Prelude.{String, true, false, ◌≡◌, refl, ◌∙◌, Option, List, [], ◌∷◌}
use opentelemetry_openstack.Py.Value.{Value, Items, Exn, ok, dict, lookup}
use opentelemetry_openstack.Otel.Span.{SpanArgs, Note, Telemetry, note_all}

pub record KeepsContext (T : Telemetry) : Type 0 where
  pub attached : (c : T.Context) (w : T.World) → T.get_current (T.attach c w).1 ≡ c
  pub detached :
      (c : T.Context) (w w' : T.World)
      → T.get_current (T.detach (T.attach c w).0 w') ≡ T.get_current w
  pub started :
      (a : SpanArgs T.Context) (w : T.World) → T.get_current (T.start_span a w).1 ≡ T.get_current w
  pub noted : (s : T.Span) (n : Note) (w : T.World) → T.get_current (T.note s n w) ≡ T.get_current w
  pub ended : (s : T.Span) (w : T.World) → T.get_current (T.end_span s w) ≡ T.get_current w
  pub used :
      (s : T.Span) (w : T.World)
      → T.get_current (T.use_span s w).1 ≡ T.set_span_in_context s (T.get_current w)
  pub left :
      (s : T.Span) (e : Option Exn) (w w' : T.World)
      → T.get_current (T.leave (T.use_span s w).0 e w') ≡ T.get_current w
  pub used_current :
      (a : SpanArgs T.Context) (w : T.World)
      → T.get_current (T.start_as_current_span a w).1
        ≡ T.set_span_in_context (T.start_as_current_span a w).0.0 (T.get_current w)
  pub left_current :
      (a : SpanArgs T.Context) (e : Option Exn) (w w' : T.World)
      → T.get_current (T.leave (T.start_as_current_span a w).0.1 e w') ≡ T.get_current w

-- What a propagator writes for a context with a valid span it reads back, as a context with that
-- span for the remote parent, also by a getter that finds its fields. It writes only its own
-- fields: a key that `IsOwn` is the program's.
pub record Propagates (T : Telemetry) (IsOwn : String → Type 0) : Type 0 where
  pub remote : T.Context → T.Context
  pub extracted :
      (c : T.Context) (d : Items)
      → T.has_valid_span c ≡ true
      → (T.extract (dict (T.inject c d)) ≡ ok (remote c)) × (T.is_empty (remote c) ≡ false)
  pub found :
      (c : T.Context) (d : Items) (g : String → Option Value)
      → T.has_valid_span c ≡ true
      → ((k : String) → ¬ IsOwn k → g k ≡ lookup k (T.inject c d))
      → T.extract_by g ≡ ok (remote c)
  pub unwritten :
      (c : T.Context) (d : Items) (k : String) → IsOwn k → lookup k (T.inject c d) ≡ lookup k d

-- The spans that the API was asked to start, and those that it was asked to end, as an exporter
-- that keeps them would show them.
pub record Exports (T : Telemetry) : Type 0 where
  pub begun : T.World → List T.Span
  pub finished : T.World → List T.Span
  pub begun-start :
      (a : SpanArgs T.Context) (w : T.World)
      → begun (T.start_span a w).1 ≡ (T.start_span a w).0 ∷ begun w
  pub finished-start :
      (a : SpanArgs T.Context) (w : T.World) → finished (T.start_span a w).1 ≡ finished w
  pub begun-note : (s : T.Span) (n : Note) (w : T.World) → begun (T.note s n w) ≡ begun w
  pub finished-note : (s : T.Span) (n : Note) (w : T.World) → finished (T.note s n w) ≡ finished w
  pub begun-end : (s : T.Span) (w : T.World) → begun (T.end_span s w) ≡ begun w
  pub finished-end : (s : T.Span) (w : T.World) → finished (T.end_span s w) ≡ s ∷ finished w
  pub begun-attach : (c : T.Context) (w : T.World) → begun (T.attach c w).1 ≡ begun w
  pub finished-attach : (c : T.Context) (w : T.World) → finished (T.attach c w).1 ≡ finished w
  pub begun-detach : (t : T.Token) (w : T.World) → begun (T.detach t w) ≡ begun w
  pub finished-detach : (t : T.Token) (w : T.World) → finished (T.detach t w) ≡ finished w

module _ {T : Telemetry} (x : Exports T) where
  pub begun-note_all :
      (s : T.Span) (ns : List Note) (w : T.World) → x.begun (note_all T s ns w) ≡ x.begun w
  unfolding note_all
  begun-note_all s [] w = refl
  begun-note_all s (n ∷ ns) w = begun-note_all s ns (T.note s n w) ∙ x.begun-note s n w

  pub finished-note_all :
      (s : T.Span) (ns : List Note) (w : T.World) → x.finished (note_all T s ns w) ≡ x.finished w
  unfolding note_all
  finished-note_all s [] w = refl
  finished-note_all s (n ∷ ns) w = finished-note_all s ns (T.note s n w) ∙ x.finished-note s n w

module _ {T : Telemetry} (laws : KeepsContext T) where
  pub get_current-note_all :
      (s : T.Span) (ns : List Note) (w : T.World)
      → T.get_current (note_all T s ns w) ≡ T.get_current w
  unfolding note_all
  get_current-note_all s [] w = refl
  get_current-note_all s (n ∷ ns) w = get_current-note_all s ns (T.note s n w) ∙ laws.noted s n w
