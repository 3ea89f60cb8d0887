-- ===== src/Log/Handlers.antt =====
-- A handler among the handlers of a logger.
use opentelemetry_openstack.Prelude.{
  ℕ, suc, ◌+◌, ◌≤◌, ◌≡◌, ◌≢◌, refl, true, false, some, List, [], ◌∷◌, ◌++◌, if◌then◌else◌, nat_eq,
  arith, Bool-cases, inl, inr,
}
use opentelemetry_openstack.Log.Instrumentor.{has_handler, add_handler, remove_handler, attach_to}

-- How often a handler is attached.
unfoldable pub count : ℕ → List ℕ → ℕ
count h [] = 0
count h (j ∷ hs) = let n = count h hs in if nat_eq j h then suc n else n

count-append : (h : ℕ) (xs ys : List ℕ) → count h (xs ++ ys) ≡ count h xs + count h ys
unfolding count
count-append h [] ys = omega arith
count-append h (j ∷ xs) ys = ground (arith, count-append h xs ys)

has_handler-count : (h : ℕ) (hs : List ℕ) → has_handler h hs ≡ false → count h hs ≡ 0
unfolding count
has_handler-count h [] absent = refl
has_handler-count h (j ∷ hs) absent = ground (arith, has_handler-count h hs)

count-has_handler : (h : ℕ) (hs : List ℕ) → has_handler h hs ≡ true → 1 ≤ count h hs
unfolding count
count-has_handler h [] present = ground arith
count-has_handler h (j ∷ hs) present = ground (arith, count-has_handler h hs)

-- Attaching attaches a handler that is attached at most once.
pub count-attach_to : (h : ℕ) (hs : List ℕ) → count h hs ≤ 1 → count h (attach_to (some h) hs) ≡ 1
unfolding add_handler count
count-attach_to h hs once = elim (Bool-cases (has_handler h hs)) [
  | inl present ↦ rw present (let n = count-has_handler h hs present in omega arith)
  | inr absent ↦
      let n = has_handler-count h hs absent in
      rw absent (ground (arith, count-append h hs (h ∷ [])))
]

pub count-add_handler : (h j : ℕ) (hs : List ℕ) → j ≢ h → count h (add_handler j hs) ≡ count h hs
unfolding add_handler count
count-add_handler h j hs ne = elim (Bool-cases (has_handler j hs)) [
  | inl present ↦ rw present refl
  | inr absent ↦ rw absent (ground (arith, count-append h hs (j ∷ [])))
]

pub count-remove_handler :
    (h j : ℕ) (hs : List ℕ) → j ≢ h → count h (remove_handler j hs) ≡ count h hs
unfolding remove_handler count
count-remove_handler h j [] ne = refl
count-remove_handler h j (i ∷ hs) ne = ground (arith, count-remove_handler h j hs ne)

-- The handlers but for one.
unfoldable pub without : ℕ → List ℕ → List ℕ
without h [] = []
without h (j ∷ hs) = let rest = without h hs in if nat_eq j h then rest else j ∷ rest

without-absent : (h : ℕ) (hs : List ℕ) → count h hs ≡ 0 → without h hs ≡ hs
unfolding without count
without-absent h [] absent = refl
without-absent h (j ∷ hs) absent = ground (arith, without-absent h hs)

pub remove_handler-without :
    (h : ℕ) (hs : List ℕ) → count h hs ≤ 1 → remove_handler h hs ≡ without h hs
unfolding remove_handler without count
remove_handler-without h [] once = refl
remove_handler-without h (j ∷ hs) once =
    ground (arith, remove_handler-without h hs, without-absent h hs)

count-without : (h : ℕ) (hs : List ℕ) → count h (without h hs) ≡ 0
unfolding without count
count-without h [] = refl
count-without h (j ∷ hs) = ground (arith, count-without h hs)
