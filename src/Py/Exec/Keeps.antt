-- ===== src/Py/Exec/Keeps.antt =====
-- Computations that leave a part of the state alone.
use opentelemetry_openstack.Prelude.{
  ◌≡◌, refl, ◌∙◌, Bool-cases, inl, inr, Bool, true, false, if◌then◌else◌,
}
use opentelemetry_openstack.Py.Value.{Exn, is_exception, Result}
use opentelemetry_openstack.Py.Exec.{Exec, pure, lift, try_except, ◌>>=◌}
use opentelemetry_openstack.Py.Exec.Laws.{Result-cases, bind-ok, bind-err}

-- A computation that leaves a part of the state as it is.
abbrev pub Keeps {ℓ κ μ} :
    {S : Type ℓ} {A : Type κ} {V : Type μ} → (S → V) → Exec S A → Type (ℓ ⊔ μ)
Keeps part m = (s : _) → part (m s).1 ≡ part s

module _ {ℓ κ μ ν} {S : Type ℓ} {A : Type κ} {B : Type μ} {V : Type ν} (part : S → V) where
  pub bind-Keeps :
      (m : Exec S A) (f : A → Exec S B)
      → Keeps part m
      → ((a : A) → Keeps part (f a))
      → Keeps part (m >>= f)
  bind-Keeps m f hm hf s = elim (Result-cases (m s).0) [
    | inl (a, returned) ↦ rw (bind-ok f m s a returned) (hf a (m s).1 ∙ hm s)
    | inr (e, raised) ↦ rw (bind-err f m s e raised) (hm s)
  ]

module _ {ℓ κ μ} {S : Type ℓ} {A : Type κ} {V : Type μ} (part : S → V) where
  pub try_except-Keeps :
      (m : Exec S A) (h : Exn → Exec S A)
      → Keeps part m
      → ((e : Exn) → Keeps part (h e))
      → Keeps part (try_except m h)
  unfolding try_except
  try_except-Keeps m h hm hh s = elim (Result-cases (m s).0) [
    | inl (a, returned) ↦ rw returned (hm s)
    | inr (e, raised) ↦ elim (Bool-cases (is_exception e)) [
      | inl caught ↦ rw (raised, caught) (hh e (m s).1 ∙ hm s)
      | inr passed ↦ rw (raised, passed) (hm s)
    ]
  ]

  pub pure-Keeps : (a : A) → Keeps part (pure a)
  unfolding pure
  pure-Keeps a s = refl

  pub lift-Keeps : (r : Result A) → Keeps part (lift r)
  unfolding lift
  lift-Keeps r s = refl

  pub if-Keeps :
      (b : Bool) (m n : Exec S A) → Keeps part m → Keeps part n → Keeps part (if b then m else n)
  if-Keeps true m n hm hn = hm
  if-Keeps false m n hm hn = hn
