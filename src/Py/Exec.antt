-- ===== src/Py/Exec.antt =====
-- Python code over a state: it returns or raises, and what it changed before it raised stays.
use opentelemetry_openstack.Prelude.{if◌then◌else◌, Option, none, some}
pub mod Laws
pub mod Keeps
use opentelemetry_openstack.Py.Value.{Exn, is_exception, Result, ok, err}

abbrev pub Exec {ℓ κ} : Type ℓ → Type κ → Type (ℓ ⊔ κ)
Exec S A = S → Result A × S

abbrev pub outcome_exn {ℓ} : {A : Type ℓ} → Result A → Option Exn
outcome_exn (ok a) = none
outcome_exn (err e) = some e

module _ {ℓ κ} {S : Type ℓ} {A : Type κ} where
  unfoldable pub pure : A → Exec S A
  pure a s = (ok a, s)

  unfoldable pub raise : Exn → Exec S A
  raise e s = (err e, s)

  -- A computation that leaves the state alone.
  unfoldable pub lift : Result A → Exec S A
  lift r s = (r, s)

  unfoldable pub gets : (S → A) → Exec S A
  gets f s = (ok (f s), s)

  -- `try: m  finally: cleanup`, for a cleanup that does not raise.
  unfoldable pub finally : Exec S A → (S → S) → Exec S A
  finally m cleanup s = let (r, s') = m s in (r, cleanup s')

  -- The body of a `with` statement: `leave` is told what the body raised, and does not suppress it.
  unfoldable pub leaving : (Option Exn → S → S) → Exec S A → Exec S A
  leaving leave m s = let (r, s') = m s in (r, leave (outcome_exn r) s')

  abbrev rescue : (Exn → Exec S A) → Result A → Exec S A
  rescue h (ok a) s = (ok a, s)
  rescue h (err e) s = if is_exception e then h e s else (err e, s)

  -- `try: m  except Exception as e: h(e)`
  unfoldable pub try_except : Exec S A → (Exn → Exec S A) → Exec S A
  try_except m h s = let (r, s') = m s in rescue h r s'

-- A call that changes the state and cannot raise.
unfoldable pub modify {ℓ} : {S : Type ℓ} → (S → S) → Exec S (Unit {0})
modify f s = (ok tt, f s)

module _ {ℓ κ μ} {S : Type ℓ} {A : Type κ} {B : Type μ} where
  abbrev continue : Result A → (A → Exec S B) → Exec S B
  continue (ok a) f s = f a s
  continue (err e) f s = (err e, s)

  infixl 5 ◌>>=◌
  -- Opening this opens the single steps too.
  unfoldable pub ◌>>=◌ : Exec S A → (A → Exec S B) → Exec S B
  unfolding pure raise lift gets modify
  ◌>>=◌ m f s = let (r, s') = m s in continue r f s'

infixl 5 ◌>>◌
abbrev pub ◌>>◌ {ℓ κ} : {S : Type ℓ} {B : Type κ} → Exec S (Unit {0}) → Exec S B → Exec S B
m >> n = m >>= λ _. n

-- `except Exception as e: on_error(e); raise`
unfoldable pub reraising {ℓ κ} :
    {S : Type ℓ} {A : Type κ} → Exec S A → (Exn → Exec S (Unit {0})) → Exec S A
reraising m on_error = try_except m (λ e. on_error e >> raise e)
