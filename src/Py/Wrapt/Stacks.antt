-- ===== src/Py/Wrapt/Stacks.antt =====
-- An instance of the interface: modules in which every function is a stack of wrappers. It shows
-- that the documented behaviour can hold.
use opentelemetry_openstack.Prelude.{
  ◌≡◌, ◌≢◌, refl, Bool-cases, inl, inr, Option, none, some, List, [], ◌∷◌, if◌then◌else◌,
}
use opentelemetry_openstack.Py.Value.{Result, ok, err, attribute_error}
use opentelemetry_openstack.Py.Wrapt.{
  Target, same_target, same_target_iff, Wrapt, Wraps, Unwraps, Replaces,
}

abbrev pub Modules : Type 0 → Type 0
Modules W = Target → Option (List W)

module _ {W : Type 0} where
  abbrev assign : Target → Option (List W) → Modules W → Modules W
  assign t f m j = if same_target t j then f else m j

  abbrev wrapped : Target → W → Modules W → Option (List W) → Result (Unit {0}) × Modules W
  wrapped t k m none = (err attribute_error, m)
  wrapped t k m (some f) = (ok tt, assign t (some (k ∷ f)) m)

  abbrev unwrapped : Target → Modules W → Option (List W) → Result (Unit {0}) × Modules W
  unwrapped t m (some (k ∷ f)) = (ok tt, assign t (some f) m)
  unwrapped t m _ = (ok tt, m)

  abbrev pub stacks : Wrapt W
  stacks = record {
    Modules = Modules W;
    Function = List W;
    resolve = λ m t. m t;
    function_wrapper = λ k f. k ∷ f;
    wrap_function_wrapper = λ t k m. wrapped t k m (m t);
    unwrap = λ t m. unwrapped t m (m t);
  }

  assign-same : (t : Target) (f : Option (List W)) (m : Modules W) → assign t f m t ≡ f
  assign-same t f m = rw ((same_target_iff t t).1 refl) refl

  assign-other : (t j : Target) (f : Option (List W)) (m : Modules W) → t ≢ j → assign t f m j ≡ m j
  assign-other t j f m ne = elim (Bool-cases (same_target t j)) [
    | inl same ↦ absurd (ne ((same_target_iff t j).0 same))
    | inr differs ↦ rw differs refl
  ]

  wrapped-other :
      (t j : Target) (k : W) (m : Modules W) (o : Option (List W))
      → t ≢ j
      → (wrapped t k m o).1 j ≡ m j
  wrapped-other t j k m none ne = refl
  wrapped-other t j k m (some f) ne = assign-other t j _ m ne

  unwrapped-other :
      (t j : Target) (m : Modules W) (o : Option (List W)) → t ≢ j → (unwrapped t m o).1 j ≡ m j
  unwrapped-other t j m none ne = refl
  unwrapped-other t j m (some []) ne = refl
  unwrapped-other t j m (some (k ∷ f)) ne = assign-other t j _ m ne

  pub stacks-Wraps : Wraps stacks
  stacks-Wraps = record {
    wrapping = λ t k f m h. rw h (refl, assign-same t (some (k ∷ f)) m);
    wrapping_others = λ t j k m ne. wrapped-other t j k m (m t) ne;
  }

  pub stacks-Unwraps : (t : Target) → Unwraps stacks t
  stacks-Unwraps t = record {
    unwrapping = λ k f m h. rw h (refl, assign-same t (some f) m);
    unwrapping_others = λ j m ne. unwrapped-other t j m (m t) ne;
  }

  pub stacks-Replaces : Replaces stacks
  stacks-Replaces = record { wraps = stacks-Wraps; unwraps = stacks-Unwraps }
