-- ===== src/Taskflow/Patching/Partly.antt =====
-- What a missing function of TaskFlow's executor module leaves behind.
use mathlib.Core.Path.{subst}
use opentelemetry_openstack.Prelude.{
  String, ◌≡◌, ◌≢◌, refl, sym, ◌∙◌, true, none, some, List, [], ◌∷◌, ◌++◌, arith, ◌==◌, eq_iff,
  Bool-cases, Option-cases, inl, inr, member,
}
use opentelemetry_openstack.Py.Value.{ok, err, attribute_error}
use opentelemetry_openstack.Py.Dict.{Dict, lookup, put, string_key, lookup-put}
use opentelemetry_openstack.Taskflow.Patching.{
  atom_body_functions, patch_loop, patch_atom_bodies, Process, instrument_engines, instrument,
  uninstrument,
}
use opentelemetry_openstack.Taskflow.Patching.Restored.{
  NotIn, Distinct, Present, Present-put, NodupKeys-names,
}

NotIn-middle :
    (k : String) (done : List String) (n : String) (rest : List String)
    → NotIn k (done ++ n ∷ rest)
    → k ≢ n
NotIn-middle k [] n rest (ne, away) = ne
NotIn-middle k (j ∷ done) n rest (ne, away) = NotIn-middle k done n rest away

module _ {F : Type 0} (traced : F → F) where
  patch_loop-untouched :
      (k : String) (names : List String) (originals executor : Dict String F)
      → NotIn k names
      → lookup k (patch_loop traced names originals executor).1 ≡ lookup k executor
  unfolding patch_loop
  patch_loop-untouched k [] originals executor away = refl
  patch_loop-untouched k (n ∷ names) originals executor (ne, away) =
      elim (Option-cases (lookup n executor)) [
        | inl missing ↦ rw (missing, patch_loop) refl
        | inr (f, found) ↦
            rw (found, patch_loop)
              (patch_loop-untouched k names (put n f originals) (put n (traced f) executor) away
                ∙ ground (arith, lookup-put n k (traced f) executor, eq_iff n k))
      ]

  patch_loop-raises :
      (done : List String) (missing : String) (rest : List String)
      (originals executor : Dict String F)
      → Distinct (done ++ missing ∷ rest)
      → Present traced executor done
      → lookup missing executor ≡ none
      → ((patch_loop traced (done ++ missing ∷ rest) originals executor).0 ≡ err attribute_error)
        × ((k : String) (f : F)
            → member k done ≡ true
            → lookup k executor ≡ some f
            → lookup k (patch_loop traced (done ++ missing ∷ rest) originals executor).1
              ≡ some (traced f))
  unfolding patch_loop
  patch_loop-raises [] missing rest originals executor d present absent =
      rw (absent, patch_loop) (refl, λ k f h found. cc)
  patch_loop-raises (n ∷ done) missing rest originals executor (away, d) ((f, found), present)
        absent =
      let executor' = put n (traced f) executor in
      let gone : lookup missing executor' ≡ none = ground (
        arith,
        lookup-put n missing (traced f) executor,
        eq_iff n missing,
        NotIn-middle n done missing rest away,
      ) in
      let (raises, patched) =
        patch_loop-raises done missing rest (put n f originals) executor' d
          (Present-put traced n (traced f) executor done present) gone in
      let kept =
        patch_loop-untouched n (done ++ missing ∷ rest) (put n f originals) executor' away in
      rw (found, patch_loop)
        (
          raises,
          λ k g h here. elim (Bool-cases (n == k)) [
            | inl same ↦
                let e = (eq_iff n k).0 same in
                rw (← e) (
                  kept
                  ∙ ground (
                    arith,
                    lookup-put n n (traced f) executor,
                    eq_iff n n,
                    found,
                    rw (← e) at here,
                  ))
            | inr other ↦
                patched k g (ground (arith, h, other))
                  (ground (arith, lookup-put n k (traced f) executor, other))
          ],
        )

  -- The loop over the names raises, with the functions of `done` replaced.
  abbrev StaysPartly : List String → Dict String F → List String → Type 0
  StaysPartly done executor names =
      ((patch_loop traced names [] executor).0 ≡ err attribute_error)
      × ((k : String) (f : F)
          → member k done ≡ true
          → lookup k executor ≡ some f
          → lookup k (patch_loop traced names [] executor).1 ≡ some (traced f))

  instrument-raises :
      (wrap_init : F → F) (p : Process F)
      → p.original_engine_init ≡ none
      → (patch_loop traced atom_body_functions [] p.executor).0 ≡ err attribute_error
      → instrument traced wrap_init true p ≡ (
        err attribute_error,
        record p { executor = (patch_loop traced atom_body_functions [] p.executor).1 },
      )
  unfolding instrument instrument_engines patch_atom_bodies
  instrument-raises wrap_init p fresh raises =
      rw (fresh, instrument) (rw (raises, instrument_engines) (rw fresh refl))

  -- Where taskflow is installed and nothing is instrumented, and one of the functions that are
  -- patched is missing and those before it are there, `_instrument` raises `AttributeError`, and
  -- the functions before the missing one stay replaced; `Engine.__init__` is not replaced, and
  -- `_uninstrument` changes nothing then.
  pub instrument-stays_partly :
      (wrap_init : F → F) (p : Process F) (done : List String) (missing : String)
      (rest : List String)
      → p.original_engine_init ≡ none
      → atom_body_functions ≡ done ++ missing ∷ rest
      → Present traced p.executor done
      → lookup missing p.executor ≡ none
      → ((instrument traced wrap_init true p).0 ≡ err attribute_error)
        × ((k : String) (f : F)
            → member k done ≡ true
            → lookup k p.executor ≡ some f
            → lookup k (instrument traced wrap_init true p).1.executor ≡ some (traced f))
        × ((instrument traced wrap_init true p).1.engine_init ≡ p.engine_init)
        × (uninstrument (instrument traced wrap_init true p).1
            ≡ (ok tt, (instrument traced wrap_init true p).1))
  unfolding uninstrument
  instrument-stays_partly wrap_init p done missing rest fresh split present absent =
      let (raises, patched) = subst (StaysPartly done p.executor) (sym split) (
        patch_loop-raises done missing rest [] p.executor
          (subst Distinct split (NodupKeys-names {F = F} traced)) present absent) in
      rw (instrument-raises wrap_init p fresh raises)
        (refl, patched, refl, rw (fresh, uninstrument) (rw fresh refl))
