-- ===== src/Py/Wrapt/Pairs.antt =====
-- Two functions that are wrapped one after the other, and unwrapped in the same order.
use opentelemetry_openstack.Prelude.{◌≡◌, ◌≢◌, refl, sym, ◌∙◌, some, Bool-cases, inl, inr}
use opentelemetry_openstack.Py.Value.{ok}
use opentelemetry_openstack.Py.Exec.{Exec, ◌>>◌}
use opentelemetry_openstack.Py.Exec.Laws.{bind-ok}
use opentelemetry_openstack.Py.Wrapt.{
  ne_of_false, Wraps, Target, same_target, same_target_iff, Wrapt, Replaces,
}

module _ {W : Type 0} (P : Wrapt W) (s t : Target) (k l : W) (f g : P.Function) (m : P.Modules)
    (differ : s ≢ t) (first : P.resolve m s ≡ some f) (second : P.resolve m t ≡ some g) where
  abbrev pub wrap_both : Exec P.Modules (Unit {0})
  wrap_both = P.wrap_function_wrapper s k >> P.wrap_function_wrapper t l

  abbrev pub unwrap_both : Exec P.Modules (Unit {0})
  unwrap_both = P.unwrap s >> P.unwrap t

  abbrev once : P.Modules
  once = (P.wrap_function_wrapper s k m).1

  abbrev twice : P.Modules
  twice = (P.wrap_function_wrapper t l once).1

  module _ (wraps : Wraps P) where
    second_later : P.resolve once t ≡ some g
    second_later = wraps.wrapping_others s t k m differ ∙ second

    pub wrap_both-ok :
        (wrap_both m ≡ ((P.wrap_function_wrapper t l once).0, twice))
        × ((wrap_both m).0 ≡ ok tt)
        × (P.resolve twice s ≡ some (P.function_wrapper k f))
        × (P.resolve twice t ≡ some (P.function_wrapper l g))
    wrap_both-ok =
        let (returned, here) = wraps.wrapping s k f m first in
        let (returned', here') = wraps.wrapping t l g once second_later in
        let run =
          bind-ok (λ _. P.wrap_function_wrapper t l) (P.wrap_function_wrapper s k) m tt returned in
        (
          run,
          rw run returned',
          wraps.wrapping_others t s l once (λ e. differ (sym e)) ∙ here,
          here',
        )

  module _ (replaces : Replaces P) where
    abbrev undone : P.Modules
    undone = (P.unwrap s twice).1

    back : (j : Target) → P.resolve (P.unwrap t undone).1 j ≡ P.resolve m j
    back j =
        let (run, returned, here, here') = wrap_both-ok replaces.wraps in
        let (returned3, first_back) = (replaces.unwraps s).unwrapping k f twice here in
        let (returned4, second_back) =
          (replaces.unwraps t).unwrapping l g undone
            ((replaces.unwraps s).unwrapping_others t twice differ ∙ here') in
        elim (Bool-cases (same_target t j)) [
          | inl same ↦ rw (sym ((same_target_iff t j).0 same), second_back, second) refl
          | inr other ↦
              let ne = ne_of_false t j other in
              (replaces.unwraps t).unwrapping_others j undone ne
              ∙ (elim (Bool-cases (same_target s j)) [
                | inl same ↦ rw (sym ((same_target_iff s j).0 same), first_back, first) refl
                | inr other' ↦
                    let ne' = ne_of_false s j other' in
                    (replaces.unwraps s).unwrapping_others j twice ne'
                    ∙ replaces.wraps.wrapping_others t j l once ne
                    ∙ replaces.wraps.wrapping_others s j k m ne'
              ])
        ]

    pub unwrap_both-ok :
        ((unwrap_both (wrap_both m).1).0 ≡ ok tt)
        × ((j : Target) → P.resolve (unwrap_both (wrap_both m).1).1 j ≡ P.resolve m j)
    unwrap_both-ok =
        let (run, returned, here, here') = wrap_both-ok replaces.wraps in
        let (returned3, first_back) = (replaces.unwraps s).unwrapping k f twice here in
        let (returned4, second_back) =
          (replaces.unwraps t).unwrapping l g undone
            ((replaces.unwraps s).unwrapping_others t twice differ ∙ here') in
        rw (run, bind-ok (λ _. P.unwrap t) (P.unwrap s) twice tt returned3) (returned4, back)
