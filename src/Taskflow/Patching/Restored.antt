-- ===== src/Taskflow/Patching/Restored.antt =====
-- listener.py and __init__.py: the patched functions after `_uninstrument`.
use opentelemetry_openstack.Prelude.{
  String, ◌≡◌, ◌≢◌, refl, ◌∙◌, true, none, some, List, [], ◌∷◌, arith, ◌==◌, eq_iff, Bool-cases,
  Option-cases, inl, inr,
}
use opentelemetry_openstack.Py.Value.{ok}
use opentelemetry_openstack.Py.Dict.{
  Dict, lookup, put, string_key, lookup-put, NodupKeys, put-NodupKeys,
}
use opentelemetry_openstack.Taskflow.Patching.{
  atom_body_functions, patch_loop, patch_atom_bodies, unpatch_atom_bodies, Process,
  instrument_engines, instrument, uninstrument,
}
use opentelemetry_openstack.Py.Exec.Laws.{err-ne-ok, ok-injective}

abbrev pub NotIn : String → List String → Type 0
NotIn k [] = Unit
NotIn k (n ∷ ns) = (k ≢ n) × NotIn k ns

abbrev pub Distinct : List String → Type 0
Distinct [] = Unit
Distinct (n ∷ ns) = NotIn n ns × Distinct ns

module _ {F : Type 0} where
  -- Restoring writes each saved function under its name, and no other name.
  lookup-unpatch :
      (k : String) (originals executor : Dict String F)
      → NodupKeys originals
      → lookup k (unpatch_atom_bodies originals executor)
        ≡ elim (lookup k originals) [ none ↦ lookup k executor | some f ↦ some f ]
  unfolding unpatch_atom_bodies lookup
  lookup-unpatch k [] executor u = refl
  lookup-unpatch k ((j, f) ∷ originals) executor (fresh, u) = ground (
    arith,
    lookup-unpatch k originals (put j f executor) u,
    lookup-put j k f executor,
    eq_iff j k,
  )

  -- What the loop has saved is what was there before, and what it has not saved is untouched.
  pub record Saves (before originals executor : Dict String F) : Type 0 where
    pub distinct : NodupKeys originals
    pub saved :
        (k : String)
        → elim (lookup k originals) [ none ↦ lookup k executor | some f ↦ some f ] ≡ lookup k before

  abbrev pub Unsaved : Dict String F → List String → Type 0
  Unsaved originals [] = Unit
  Unsaved originals (n ∷ ns) = (lookup n originals ≡ none) × Unsaved originals ns

  Unsaved-put :
      (k : String) (f : F) (originals : Dict String F) (names : List String)
      → NotIn k names
      → Unsaved originals names
      → Unsaved (put k f originals) names
  Unsaved-put k f originals [] away n = tt
  Unsaved-put k f originals (j ∷ names) (ne, away) (fresh, n) = (
    ground (arith, lookup-put k j f originals, eq_iff k j),
    Unsaved-put k f originals names away n,
  )

  Saves-put :
      (k : String) (f g : F) (before originals executor : Dict String F)
      → lookup k originals ≡ none
      → lookup k executor ≡ some f
      → Saves before originals executor
      → Saves before (put k f originals) (put k g executor)
  Saves-put k f g before originals executor fresh found s = record {
    distinct = put-NodupKeys k f originals s.distinct;
    saved = λ j. ground (
      arith,
      s.saved j,
      s.saved k,
      lookup-put k j f originals,
      lookup-put k j g executor,
      eq_iff k j,
    );
  }

  module _ (traced : F → F) where
    patch_loop-Saves :
        (names : List String) (before originals executor originals' : Dict String F)
        → Distinct names
        → Unsaved originals names
        → Saves before originals executor
        → (patch_loop traced names originals executor).0 ≡ ok originals'
        → Saves before originals' (patch_loop traced names originals executor).1
    unfolding patch_loop
    patch_loop-Saves [] before originals executor originals' d n s e = rw (← ok-injective e) s
    patch_loop-Saves (name ∷ names) before originals executor originals' (away, d) (fresh, n) s e =
        elim (Option-cases (lookup name executor)) [
          | inl missing ↦ absurd (err-ne-ok (rw (missing, patch_loop) at e))
          | inr (f, found) ↦
              rw (found, patch_loop)
                (patch_loop-Saves names before (put name f originals) (put name (traced f) executor)
                  originals' d (Unsaved-put name f originals names away n)
                  (Saves-put name f (traced f) before originals executor fresh found s)
                  (rw (found, patch_loop) at e))
        ]

    -- Every name of the list is a function of the module.
    abbrev pub Present : Dict String F → List String → Type 0
    Present executor [] = Unit
    Present executor (n ∷ ns) = ((f : F) × (lookup n executor ≡ some f)) × Present executor ns

    pub Present-put :
        (k : String) (g : F) (executor : Dict String F) (names : List String)
        → Present executor names
        → Present (put k g executor) names
    Present-put k g executor [] h = tt
    Present-put k g executor (n ∷ names) ((f, found), h) = (
      elim (Bool-cases (k == n)) [
        | inl same ↦ (g, rw (lookup-put k n g executor, same) refl)
        | inr other ↦ (f, rw (lookup-put k n g executor, other) found)
      ],
      Present-put k g executor names h,
    )

    patch_loop-ok :
        (names : List String) (originals executor : Dict String F)
        → Present executor names
        → (originals' : Dict String F) × ((patch_loop traced names originals executor).0
            ≡ ok originals')
    unfolding patch_loop
    patch_loop-ok [] originals executor h = (originals, refl)
    patch_loop-ok (n ∷ names) originals executor ((f, found), h) =
        let (originals', e) =
          patch_loop-ok names (put n f originals) (put n (traced f) executor)
            (Present-put n (traced f) executor names h) in
        (originals', rw (found, patch_loop) e)

    pub NodupKeys-names : Distinct atom_body_functions
    NodupKeys-names = (
      (
        ground (arith, eq_iff "_execute_task" "_revert_task"),
        (
          ground (arith, eq_iff "_execute_task" "_execute_retry"),
          (ground (arith, eq_iff "_execute_task" "_revert_retry"), tt),
        ),
      ),
      (
        (
          ground (arith, eq_iff "_revert_task" "_execute_retry"),
          (ground (arith, eq_iff "_revert_task" "_revert_retry"), tt),
        ),
        ((ground (arith, eq_iff "_execute_retry" "_revert_retry"), tt), (tt, tt)),
      ),
    )

    patch_atom_bodies-Saves :
        (executor originals : Dict String F)
        → (patch_atom_bodies traced executor).0 ≡ ok originals
        → Saves executor originals (patch_atom_bodies traced executor).1
    unfolding patch_atom_bodies lookup
    patch_atom_bodies-Saves executor originals e =
        patch_loop-Saves atom_body_functions executor [] executor originals NodupKeys-names
          (refl, (refl, (refl, (refl, tt)))) (record { distinct = tt; saved = λ k. refl }) e

  -- The two processes have the same functions in the patched modules, and neither is instrumented.
  pub record Pristine (p q : Process F) : Type 0 where
    pub engine_init : p.engine_init ≡ q.engine_init
    pub executor : (k : String) → lookup k p.executor ≡ lookup k q.executor
    pub original_engine_init : p.original_engine_init ≡ none
    pub original_atom_bodies : p.original_atom_bodies ≡ none

  -- The process after `_instrument`, where patching saved `originals`.
  abbrev instrumented : (F → F) → (F → F) → Process F → Dict String F → Process F
  instrumented traced wrap_init p originals = record {
    executor = (patch_atom_bodies traced p.executor).1;
    engine_init = wrap_init p.engine_init;
    original_engine_init = some p.engine_init;
    original_atom_bodies = some originals;
  }

  instrument-eq :
      (traced wrap_init : F → F) (p : Process F) (originals : Dict String F)
      → p.original_engine_init ≡ none
      → (patch_atom_bodies traced p.executor).0 ≡ ok originals
      → instrument traced wrap_init true p ≡ (ok tt, instrumented traced wrap_init p originals)
  unfolding instrument instrument_engines
  instrument-eq traced wrap_init p originals fresh e = ground arith

  uninstrument-Pristine :
      (traced wrap_init : F → F) (p : Process F) (originals : Dict String F)
      → (patch_atom_bodies traced p.executor).0 ≡ ok originals
      → Pristine (uninstrument (instrumented traced wrap_init p originals)).1 p
  unfolding uninstrument
  uninstrument-Pristine traced wrap_init p originals e =
      let s = patch_atom_bodies-Saves traced p.executor originals e in
      record {
        engine_init = refl;
        executor = λ k.
            lookup-unpatch k originals (patch_atom_bodies traced p.executor).1 s.distinct
            ∙ s.saved k;
        original_engine_init = refl;
        original_atom_bodies = refl;
      }

  -- Where taskflow's executor has the four functions and the process is not instrumented,
  -- `_instrument` and then `_uninstrument` both return, and every function of the executor and
  -- `Engine.__init__` are what they were.
  pub uninstrument-instrument :
      (traced wrap_init : F → F) (p : Process F)
      → p.original_engine_init ≡ none
      → Present traced p.executor atom_body_functions
      → ((instrument traced wrap_init true p).0 ≡ ok tt)
        × ((uninstrument (instrument traced wrap_init true p).1).0 ≡ ok tt)
        × Pristine (uninstrument (instrument traced wrap_init true p).1).1 p
  unfolding uninstrument patch_atom_bodies
  uninstrument-instrument traced wrap_init p fresh present =
      let (originals, e) = patch_loop-ok traced atom_body_functions [] p.executor present in
      rw (instrument-eq traced wrap_init p originals fresh e)
        (refl, refl, uninstrument-Pristine traced wrap_init p originals e)

  -- `_instrument` on a process that is instrumented changes nothing: no function is wrapped twice.
  instrument_twice :
      (traced wrap_init : F → F) (p : Process F)
      → p.original_engine_init ≡ none
      → Present traced p.executor atom_body_functions
      → instrument traced wrap_init true (instrument traced wrap_init true p).1
        ≡ instrument traced wrap_init true p
  unfolding instrument patch_atom_bodies
  instrument_twice traced wrap_init p fresh present =
      let (originals, e) = patch_loop-ok traced atom_body_functions [] p.executor present in
      rw (instrument-eq traced wrap_init p originals fresh e) refl
