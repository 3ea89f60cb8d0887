-- ===== src/Py/Dict.antt =====
-- Python's `dict` in insertion order, for any type of keys whose equality can be tested.
use opentelemetry_openstack.Prelude.{
  String, ◌≡◌, refl, ◌↔◌, Bool, true, Option, none, some, List, [], ◌∷◌, ◌++◌, arith, ◌==◌, eq_iff,
  if◌then◌else◌, Bool-cases, inl, inr,
}
use mathlib.Core.Option.{none-ne-some, some-ne-none, some-injective}
use mathlib.Core.List.{Perm}
use mathlib.Core.List.Perm

pub record Key {ℓ} (K : Type ℓ) : Type ℓ where
  pub same : K → K → Bool
  pub same_iff : (j k : K) → (same j k ≡ true) ↔ (j ≡ k)

instance abbrev pub string_key : Key String
string_key = record { same = ◌==◌; same_iff = eq_iff }

abbrev pub Dict {ℓ κ} : Type ℓ → Type κ → Type (ℓ ⊔ κ)
Dict K V = List (K × V)

abbrev pub values {ℓ κ} : {K : Type ℓ} {V : Type κ} → Dict K V → List V
values [] = []
values ((k, v) ∷ d) = v ∷ values d

module _ {ℓ κ} {K : Type ℓ} {V : Type κ} ⦃e : Key K⦄ where
  -- `d.get(k)`
  unfoldable pub lookup : K → Dict K V → Option V
  lookup k [] = none
  lookup k ((j, v) ∷ d) = if e.same j k then some v else lookup k d

  -- `d[k] = v`
  unfoldable pub put : K → V → Dict K V → Dict K V
  put k v [] = (k, v) ∷ []
  put k v ((j, w) ∷ d) = if e.same j k then (j, v) ∷ d else (j, w) ∷ put k v d

  -- `d.pop(k, None)`, as far as it changes `d`.
  unfoldable pub erase : K → Dict K V → Dict K V
  erase k [] = []
  erase k ((j, w) ∷ d) = let rest = erase k d in if e.same j k then rest else (j, w) ∷ rest

  -- What every dictionary of the program has: a key has one entry.
  abbrev pub NodupKeys : Dict K V → Type κ
  NodupKeys [] = Unit
  NodupKeys ((k, v) ∷ d) = (lookup k d ≡ none) × NodupKeys d

  pub lookup-put :
      (k j : K) (v : V) (d : Dict K V)
      → lookup j (put k v d) ≡ (if e.same k j then some v else lookup j d)
  unfolding lookup put
  lookup-put k j v [] = refl
  lookup-put k j v ((i, w) ∷ d) =
      ground (arith, e.same_iff k j, e.same_iff i k, e.same_iff i j, lookup-put k j v d)

  pub lookup-erase :
      (k j : K) (d : Dict K V) → lookup j (erase k d) ≡ (if e.same k j then none else lookup j d)
  unfolding lookup erase
  lookup-erase k j [] = ground arith
  lookup-erase k j ((i, w) ∷ d) =
      ground (arith, e.same_iff k j, e.same_iff i k, e.same_iff i j, lookup-erase k j d)

  pub put-NodupKeys : (k : K) (v : V) (d : Dict K V) → NodupKeys d → NodupKeys (put k v d)
  unfolding put lookup
  put-NodupKeys k v [] u = (refl, tt)
  put-NodupKeys k v ((j, w) ∷ d) (fresh, u) =
      ground (arith, put-NodupKeys k v d u, lookup-put k j v d, e.same_iff k j, e.same_iff j k)

  pub erase-NodupKeys : (k : K) (d : Dict K V) → NodupKeys d → NodupKeys (erase k d)
  unfolding erase
  erase-NodupKeys k [] u = tt
  erase-NodupKeys k ((j, w) ∷ d) (fresh, u) =
      ground (arith, erase-NodupKeys k d u, lookup-erase k j d)

  -- An absent key: nothing is erased, and a new entry goes to the end.
  pub erase-absent : (k : K) (d : Dict K V) → lookup k d ≡ none → erase k d ≡ d
  unfolding erase lookup
  erase-absent k [] h = refl
  erase-absent k ((j, w) ∷ d) h = ground (arith, erase-absent k d)

  put-absent : (k : K) (v : V) (d : Dict K V) → lookup k d ≡ none → put k v d ≡ d ++ (k, v) ∷ []
  unfolding put lookup
  put-absent k v [] h = refl
  put-absent k v ((j, w) ∷ d) h = ground (arith, put-absent k v d)

  -- The values, in any order: a fresh entry adds its value, and erasing an entry takes its value
  -- out.
  pub values-put_perm :
      (k : K) (v : V) (d : Dict K V) → lookup k d ≡ none → Perm (values (put k v d)) (v ∷ values d)
  unfolding put lookup
  values-put_perm k v [] h = Perm.refl _
  values-put_perm k v ((j, w) ∷ d) h = elim (Bool-cases (e.same j k)) [
    | inl same ↦ absurd (some-ne-none w (rw same at h))
    | inr other ↦ rw other (
        Perm.trans (Perm.cons w (values-put_perm k v d (rw other at h))) (Perm.swap v w (values d)))
  ]

  pub values-erase_perm :
      (k : K) (v : V) (d : Dict K V)
      → NodupKeys d
      → lookup k d ≡ some v
      → Perm (values d) (v ∷ values (erase k d))
  unfolding erase lookup
  values-erase_perm k v [] u h = absurd (none-ne-some v h)
  values-erase_perm k v ((j, w) ∷ d) (fresh, u) h = elim (Bool-cases (e.same j k)) [
    | inl same ↦ rw same (
        rw
          (
            some-injective w v (rw same at h),
            erase-absent k d (rw ((e.same_iff j k).0 same) at fresh),
          )
          (Perm.refl _))
    | inr other ↦ rw other (
        Perm.trans (Perm.cons w (values-erase_perm k v d u (rw other at h)))
          (Perm.swap v w (values (erase k d))))
  ]
