-- ===== src/Py/Exec/Laws.antt =====
-- What a sequence of two steps does, by the outcome of the first.
use opentelemetry_openstack.Prelude.{ap, ◌≡◌, refl, ◌⊎◌, inl, inr, Bool-cases}
use opentelemetry_openstack.Py.Value.{Exn, is_exception, Result, ok, err, bind_result}
use opentelemetry_openstack.Py.Exec.{Exec, ◌>>=◌, ◌>>◌, lift, raise, reraising, try_except}

pub Result-cases {ℓ} :
    {A : Type ℓ} (r : Result A) → ((a : A) × (r ≡ ok a)) ⊎ ((e : Exn) × (r ≡ err e))
Result-cases (ok a) = inl (a, refl)
Result-cases (err e) = inr (e, refl)

pub err-ne-ok {ℓ} : {A : Type ℓ} {e : Exn} {a : A} → err e ≡ ok a → ⊥
err-ne-ok h = cc

pub ok-injective {ℓ} : {A : Type ℓ} {a b : A} → ok a ≡ ok b → a ≡ b
ok-injective h = cc

-- A chain of two steps that gives a value went through both.
pub bind_result-ok {ℓ κ} :
    {A : Type ℓ} {B : Type κ} (r : Result A) (f : A → Result B) (b : B)
    → bind_result r f ≡ ok b
    → (a : A) × (r ≡ ok a) × (f a ≡ ok b)
bind_result-ok (ok a) f b h = (a, refl, h)
bind_result-ok (err e) f b h = absurd (err-ne-ok h)

module _ {ℓ κ μ} {S : Type ℓ} {A : Type κ} {B : Type μ} (f : A → Exec S B) where
  pub bind-ok : (m : Exec S A) (s : S) (a : A) → (m s).0 ≡ ok a → (m >>= f) s ≡ f a (m s).1
  unfolding ◌>>=◌
  bind-ok m s a h = rw h

  pub bind-err : (m : Exec S A) (s : S) (e : Exn) → (m s).0 ≡ err e → (m >>= f) s ≡ (err e, (m s).1)
  unfolding ◌>>=◌
  bind-err m s e h = rw h

  pub bind-lift-ok : (r : Result A) (s : S) (a : A) → r ≡ ok a → (lift r >>= f) s ≡ f a s
  unfolding ◌>>=◌
  bind-lift-ok r s a h = rw h

module _ {ℓ κ} {S : Type ℓ} {A : Type κ} where
  -- What is done after a computation, and ends with its value, leaves its outcome.
  pub bind-keeps_at :
      (m : Exec S A) (f : A → Exec S A) (s : S)
      → ((a : A) → (m s).0 ≡ ok a → (f a (m s).1).0 ≡ ok a)
      → ((m >>= f) s).0 ≡ (m s).0
  bind-keeps_at m f s h = elim (Result-cases (m s).0) [
    | inl (a, returned) ↦ rw (bind-ok f m s a returned, returned) (h a returned)
    | inr (e, raised) ↦ rw (bind-err f m s e raised, raised) refl
  ]

  pub bind-keeps :
      (m : Exec S A) (f : A → Exec S A) (s : S)
      → ((a : A) (s' : S) → (f a s').0 ≡ ok a)
      → ((m >>= f) s).0 ≡ (m s).0
  bind-keeps m f s h = bind-keeps_at m f s (λ a returned. h a (m s).1)

  -- A handler that raises the exception again leaves the outcome.
  try_except-reraises_at :
      (m : Exec S A) (h : Exn → Exec S A) (s : S)
      → ((e : Exn) → (m s).0 ≡ err e → (h e (m s).1).0 ≡ err e)
      → (try_except m h s).0 ≡ (m s).0
  unfolding try_except
  try_except-reraises_at m h s again = elim (Result-cases (m s).0) [
    | inl (a, returned) ↦ rw returned refl
    | inr (e, raised) ↦ elim (Bool-cases (is_exception e)) [
      | inl caught ↦ rw (raised, caught) (again e raised)
      | inr passed ↦ rw (raised, passed) refl
    ]
  ]

  try_except-reraises :
      (m : Exec S A) (h : Exn → Exec S A) (s : S)
      → ((e : Exn) (s' : S) → (h e s').0 ≡ err e)
      → (try_except m h s).0 ≡ (m s).0
  try_except-reraises m h s again = try_except-reraises_at m h s (λ e raised. again e (m s).1)

  -- So does a handler that records the exception, if the recording ends normally.
  pub reraising-keeps_at :
      (m : Exec S A) (on_error : Exn → Exec S (Unit {0})) (s : S)
      → ((e : Exn) → (m s).0 ≡ err e → (on_error e (m s).1).0 ≡ ok tt)
      → (reraising m on_error s).0 ≡ (m s).0
  unfolding reraising raise
  reraising-keeps_at m on_error s records =
      try_except-reraises_at m (λ e. on_error e >> raise e) s
        (λ e raised.
          ap (λ x. x.0) (bind-ok (λ _. raise e) (on_error e) (m s).1 tt (records e raised)))
