-- ===== src/Otel/Memory.antt =====
-- An instance of the API that keeps all its state in memory: spans are numbered, a context is the
-- number of its span, and a propagator writes that number under `traceparent`. It shows that the
-- laws can hold together, and runs the tests.
use opentelemetry_openstack.Prelude.{
  ℕ, ◌+◌, String, ◌≡◌, ◌≢◌, refl, Bool, true, false, Option, none, some, List, [], ◌∷◌, map, arith,
  eq_iff, eq_refl,
}
use opentelemetry_openstack.Py.Value.{
  Value, int, dict, pos, Items, Result, ok, err, attribute_error, lookup, put, lookup-put,
}
use opentelemetry_openstack.Otel.Span.{SpanArgs, Note, Telemetry}
use opentelemetry_openstack.Otel.Laws.{KeepsContext, Propagates, Exports}

abbrev pub Context : Type 0
Context = Option ℕ

pub record World : Type 0 where
  pub current : Context
  pub next : ℕ
  pub started : List (ℕ × SpanArgs Context)
  pub notes : List (ℕ × Note)
  pub ended : List ℕ
  pub enabled : Bool

abbrev start : SpanArgs Context → World → ℕ × World
start a w = (w.next, record w { next = w.next + 1; started = (w.next, a) ∷ w.started })

abbrev has_span : Context → Bool
has_span none = false
has_span (some n) = true

abbrev is_nothing : Context → Bool
is_nothing none = true
is_nothing (some n) = false

abbrev write : Context → Items → Items
write none d = d
write (some n) d = put "traceparent" (int (pos n)) d

abbrev read_parent : Option Value → Context
read_parent (some (int (pos n))) = some n
read_parent _ = none

abbrev read : Value → Result Context
read (dict d) = ok (read_parent (lookup "traceparent" d))
read _ = err attribute_error

abbrev enter : ℕ → World → (Context × ℕ) × World
enter s w = ((w.current, s), record w { current = some s })

abbrev pub memory : Telemetry
memory = record {
  World = World;
  Context = Context;
  Token = Context;
  Span = ℕ;
  Scope = Context × ℕ;
  get_current = λ w. w.current;
  attach = λ c w. (w.current, record w { current = c });
  detach = λ t w. record w { current = t };
  is_empty = is_nothing;
  start_span = start;
  is_recording = λ s w. true;
  note = λ s n w. record w { notes = (s, n) ∷ w.notes };
  end_span = λ s w. record w { ended = s ∷ w.ended };
  set_span_in_context = λ s c. some s;
  has_valid_span = has_span;
  use_span = enter;
  start_as_current_span =
      λ a w. let (s, w') = start a w in let (scope, w'') = enter s w' in ((s, scope), w'');
  leave = λ scope e w. record w { current = scope.0; ended = scope.1 ∷ w.ended };
  inject = write;
  extract = read;
  extract_by = λ g. ok (read_parent (g "traceparent"));
  is_enabled = λ w. w.enabled;
}

-- A quiet process: nothing is current, and nothing was started.
abbrev pub quiet : World
quiet = record { current = none; next = 0; started = []; notes = []; ended = []; enabled = true }

pub memory-KeepsContext : KeepsContext memory
memory-KeepsContext = record {
  attached = λ c w. refl;
  detached = λ c w w'. refl;
  started = λ a w. refl;
  noted = λ s n w. refl;
  ended = λ s w. refl;
  used = λ s w. refl;
  left = λ s e w w'. refl;
  used_current = λ a w. refl;
  left_current = λ a e w w'. refl;
}

abbrev pub IsProgramKey : String → Type 0
IsProgramKey k = k ≢ "traceparent"

written_back :
    (c : Context) (d : Items)
    → has_span c ≡ true
    → (read (dict (write c d)) ≡ ok c) × (is_nothing c ≡ false)
written_back none d h = cc
written_back (some n) d h = (
  ground (arith, eq_refl "traceparent", lookup-put "traceparent" "traceparent" (int (pos n)) d),
  refl,
)

found_back :
    (c : Context) (d : Items) (g : String → Option Value)
    → has_span c ≡ true
    → ((k : String) → ¬ IsProgramKey k → g k ≡ lookup k (write c d))
    → Result.ok (read_parent (g "traceparent")) ≡ ok c
found_back none d g h same = cc
found_back (some n) d g h same =
    rw
      (same "traceparent" (λ own. own refl), lookup-put "traceparent" "traceparent" (int (pos n)) d)
      refl

left_alone :
    (c : Context) (d : Items) (k : String) → IsProgramKey k → lookup k (write c d) ≡ lookup k d
left_alone none d k h = refl
left_alone (some n) d k h =
    ground (arith, lookup-put "traceparent" k (int (pos n)) d, eq_iff "traceparent" k)

pub memory-Propagates : Propagates memory IsProgramKey
memory-Propagates = record {
  remote = λ c. c;
  extracted = written_back;
  found = found_back;
  unwritten = left_alone;
}

unfoldable pub memory-Exports : Exports memory
memory-Exports = record {
  begun = λ w. map (λ (n, a). n) w.started;
  finished = λ w. w.ended;
  begun-start = λ a w. refl;
  finished-start = λ a w. refl;
  begun-note = λ s n w. refl;
  finished-note = λ s n w. refl;
  begun-end = λ s w. refl;
  finished-end = λ s w. refl;
  begun-attach = λ c w. refl;
  finished-attach = λ c w. refl;
  begun-detach = λ t w. refl;
  finished-detach = λ t w. refl;
}
