-- ===== src/Py/Wrapt/Laws.antt =====
-- Several functions that are wrapped in a loop, and unwrapped in one.
use opentelemetry_openstack.Prelude.{
  ◌≡◌, ◌≢◌, refl, sym, ◌∙◌, ap, false, Option, none, some, [], ◌∷◌, Bool-cases, inl, inr,
}
use opentelemetry_openstack.Py.Value.{ok}
use opentelemetry_openstack.Py.Exec.{pure}
use opentelemetry_openstack.Py.Exec.Laws.{bind-ok}
use opentelemetry_openstack.Py.Dict.{Dict, lookup, NodupKeys}
use opentelemetry_openstack.Py.Wrapt.{
  ne_of_false, Target, target_key, same_target, same_target_iff, Wrapt, Replaces, wrap_all,
  unwrap_all, targets, Present,
}

pub ne_same_target : (s t : Target) → s ≢ t → same_target s t ≡ false
ne_same_target s t ne = elim (Bool-cases (same_target s t)) [
  | inl same ↦ absurd (ne ((same_target_iff s t).0 same))
  | inr differs ↦ differs
]

module _ {W : Type 0} (P : Wrapt W) (replaces : Replaces P) where
  -- What a target names after the wrapping, given its wrapper, if it has one.
  abbrev wrapped_as : Option W → Option P.Function → Option P.Function
  wrapped_as none f = f
  wrapped_as (some k) none = none
  wrapped_as (some k) (some f) = some (P.function_wrapper k f)

  -- `m'` is `m` with the functions of `ts` wrapped.
  pub IsWrapped : Dict Target W → P.Modules → P.Modules → Type 0
  IsWrapped ts m m' = (j : Target) → P.resolve m' j ≡ wrapped_as (lookup j ts) (P.resolve m j)

  lookup-here : (t : Target) (k : W) (ts : Dict Target W) → lookup t ((t, k) ∷ ts) ≡ some k
  unfolding lookup
  lookup-here t k ts = rw ((same_target_iff t t).1 refl) refl

  lookup-later :
      (t j : Target) (k : W) (ts : Dict Target W)
      → same_target t j ≡ false
      → lookup j ((t, k) ∷ ts) ≡ lookup j ts
  unfolding lookup
  lookup-later t j k ts h = rw h refl

  -- A target with a wrapper is not one without.
  found_elsewhere :
      (t j : Target) (k : W) (ts : Dict Target W)
      → lookup t ts ≡ none
      → lookup j ts ≡ some k
      → same_target t j ≡ false
  found_elsewhere t j k ts fresh found = elim (Bool-cases (same_target t j)) [
    | inl same ↦ let e = (same_target_iff t j).0 same in let stays = ap (λ x. lookup x ts) e in cc
    | inr differs ↦ differs
  ]

  Present-later :
      (t : Target) (k : W) (ts : Dict Target W) (m : P.Modules)
      → lookup t ts ≡ none
      → Present P ((t, k) ∷ ts) m
      → Present P ts (P.wrap_function_wrapper t k m).1
  Present-later t k ts m fresh present j k' found =
      let differs = found_elsewhere t j k' ts fresh found in
      let (f, resolved) = present j k' (lookup-later t j k ts differs ∙ found) in
      (f, replaces.wraps.wrapping_others t j k m (ne_of_false t j differs) ∙ resolved)

  -- One wrapping before those of `ts`.
  IsWrapped-cons :
      (t : Target) (k : W) (f : P.Function) (ts : Dict Target W) (m m2 : P.Modules)
      → lookup t ts ≡ none
      → P.resolve m t ≡ some f
      → IsWrapped ts (P.wrap_function_wrapper t k m).1 m2
      → IsWrapped ((t, k) ∷ ts) m m2
  unfolding IsWrapped
  IsWrapped-cons t k f ts m m2 fresh here rest j = elim (Bool-cases (same_target t j)) [
    | inl same ↦
        rw (sym ((same_target_iff t j).0 same), lookup-here t k ts, here)
          (rest t ∙ rw (fresh, (replaces.wraps.wrapping t k f m here).1) refl)
    | inr differs ↦ rw (lookup-later t j k ts differs) (
        rest j
        ∙ ap (wrapped_as (lookup j ts))
            (replaces.wraps.wrapping_others t j k m (ne_of_false t j differs)))
  ]

  -- Wrapping present targets, no two of them one, returns, and wraps each of them once.
  pub wrap_all-IsWrapped :
      (ts : Dict Target W) (m : P.Modules)
      → NodupKeys ts
      → Present P ts m
      → ((wrap_all P ts m).0 ≡ ok tt) × IsWrapped ts m (wrap_all P ts m).1
  unfolding wrap_all IsWrapped pure lookup
  wrap_all-IsWrapped [] m distinct present = (refl, λ j. refl)
  wrap_all-IsWrapped ((t, k) ∷ ts) m (fresh, distinct) present =
      let (f, here) = present t k (lookup-here t k ts) in
      let (all, rest) =
        wrap_all-IsWrapped ts (P.wrap_function_wrapper t k m).1 distinct
          (Present-later t k ts m fresh present) in
      rw
        (bind-ok (λ _. wrap_all P ts) (P.wrap_function_wrapper t k) m tt
          (replaces.wraps.wrapping t k f m here).0)
        (all, IsWrapped-cons t k f ts m _ fresh here rest)

  -- One unwrapping before those of `ts`.
  IsWrapped-unwrap :
      (t : Target) (k : W) (f : P.Function) (ts : Dict Target W) (m m' : P.Modules)
      → lookup t ts ≡ none
      → P.resolve m t ≡ some f
      → IsWrapped ((t, k) ∷ ts) m m'
      → ((P.unwrap t m').0 ≡ ok tt) × IsWrapped ts m (P.unwrap t m').1
  unfolding IsWrapped
  IsWrapped-unwrap t k f ts m m' fresh here wrapped =
      let at : P.resolve m' t ≡ some (P.function_wrapper k f) =
        wrapped t ∙ rw (lookup-here t k ts, here) refl in
      let (returned, back) = (replaces.unwraps t).unwrapping k f m' at in
      (
        returned,
        λ j. elim (Bool-cases (same_target t j)) [
          | inl same ↦ rw (sym ((same_target_iff t j).0 same), fresh, here) back
          | inr differs ↦
              (replaces.unwraps t).unwrapping_others j m' (ne_of_false t j differs)
              ∙ wrapped j
              ∙ rw (lookup-later t j k ts differs) refl
        ],
      )

  -- Unwrapping the targets, in the order of their wrapping, returns and gives back what they were.
  pub unwrap_all-IsWrapped :
      (ts : Dict Target W) (m m' : P.Modules)
      → NodupKeys ts
      → Present P ts m
      → IsWrapped ts m m'
      → ((unwrap_all P (targets ts) m').0 ≡ ok tt)
        × ((j : Target) → P.resolve (unwrap_all P (targets ts) m').1 j ≡ P.resolve m j)
  unfolding unwrap_all IsWrapped pure lookup
  unwrap_all-IsWrapped [] m m' distinct present wrapped = (refl, wrapped)
  unwrap_all-IsWrapped ((t, k) ∷ ts) m m' (fresh, distinct) present wrapped =
      let (f, here) = present t k (lookup-here t k ts) in
      let (returned, rest) = IsWrapped-unwrap t k f ts m m' fresh here wrapped in
      let later : Present P ts m = λ j k' found.
        present j k' (lookup-later t j k ts (found_elsewhere t j k' ts fresh found) ∙ found) in
      rw (bind-ok (λ _. unwrap_all P (targets ts)) (P.unwrap t) m' tt returned)
        (unwrap_all-IsWrapped ts m (P.unwrap t m').1 distinct later rest)

  -- Wrapping a function that exists and unwrapping it return, and give every function back.
  pub unwrap-wrap :
      (t : Target) (k : W) (f : P.Function) (m : P.Modules)
      → P.resolve m t ≡ some f
      → ((P.wrap_function_wrapper t k m).0 ≡ ok tt)
        × ((P.unwrap t (P.wrap_function_wrapper t k m).1).0 ≡ ok tt)
        × ((j : Target)
            → P.resolve (P.unwrap t (P.wrap_function_wrapper t k m).1).1 j ≡ P.resolve m j)
  unwrap-wrap t k f m here =
      let (wrapped, at) = replaces.wraps.wrapping t k f m here in
      let (returned, back) =
        (replaces.unwraps t).unwrapping k f (P.wrap_function_wrapper t k m).1 at in
      (
        wrapped,
        returned,
        λ j. elim (Bool-cases (same_target t j)) [
          | inl same ↦ let e = (same_target_iff t j).0 same in rw (sym e, back, here) refl
          | inr differs ↦
              let ne = ne_of_false t j differs in
              (replaces.unwraps t).unwrapping_others j _ ne
              ∙ replaces.wraps.wrapping_others t j k m ne
        ],
      )
