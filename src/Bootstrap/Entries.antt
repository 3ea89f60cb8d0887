-- ===== src/Bootstrap/Entries.antt =====
-- _oslo_service_eventlet.py: the entries of `PYTHONPATH`, that is `split` and `join` by
-- `os.pathsep`.
use Prim.Native.Char.{Char, code}
use Prim.Native.String.{[] as empty, ◌∷◌ as ◌:>◌, ◌++◌ as ◌<>◌}
use text.Mathlib.TextLemmas.{nil-append, cons-append}
use opentelemetry_openstack.Prelude.{
  member, String, ◌≡◌, refl, ◌∙◌, ap, Bool, false, Option, none, some, List, [], ◌∷◌, if◌then◌else◌,
  ◌==◌, nat_eq, nat_eq_refl, All, Bool-cases, inl, inr, ◌⊎◌,
}

-- `entry for entry in entries if entry != dir`
unfoldable pub others : String → List String → List String
others dir [] = []
others dir (p ∷ ps) = let rest = others dir ps in if p == dir then rest else p ∷ rest

member-others : (dir : String) (ps : List String) → member dir (others dir ps) ≡ false
unfolding others
member-others dir [] = refl
member-others dir (p ∷ ps) = elim (Bool-cases (p == dir)) [
  | inl same ↦ rw same (member-others dir ps)
  | inr different ↦ rw (different, different) (member-others dir ps)
]

module _ (pathsep : Char) where
  abbrev is_sep : Char → Bool
  is_sep c = nat_eq (code c) (code pathsep)

  abbrev onto : Char → List String → List String
  onto c [] = (c :> empty) ∷ []
  onto c (p ∷ ps) = (c :> p) ∷ ps

  -- `s.split(os.pathsep)`
  unfoldable pub split : String → List String
  split empty = empty ∷ []
  split (c :> s) = let rest = split s in if is_sep c then empty ∷ rest else onto c rest

  -- `os.pathsep.join(entries)`
  unfoldable pub join : List String → String
  join [] = empty
  join (p ∷ []) = p
  join (p ∷ q ∷ ps) = p <> (pathsep :> join (q ∷ ps))

  -- No character of a text is the separator.
  abbrev pub Lacks : String → Type 0
  Lacks empty = Unit
  Lacks (c :> s) = (is_sep c ≡ false) × Lacks s

  onto-Lacks :
      (c : Char) (ps : List String) → is_sep c ≡ false → All Lacks ps → All Lacks (onto c ps)
  onto-Lacks c [] h u = ((h, tt), tt)
  onto-Lacks c (p ∷ ps) h (v, u) = ((h, v), u)

  split-Lacks : (s : String) → All Lacks (split s)
  unfolding split
  split-Lacks empty = (tt, tt)
  split-Lacks (c :> s) = elim (Bool-cases (is_sep c)) [
    | inl separator ↦ rw separator (tt, split-Lacks s)
    | inr other ↦ rw other (onto-Lacks c (split s) other (split-Lacks s))
  ]

  split-whole : (p : String) → Lacks p → split p ≡ p ∷ []
  unfolding split
  split-whole empty u = refl
  split-whole (c :> p) (other, u) = rw (other, split-whole p u) refl

  split-append : (p t : String) → Lacks p → split (p <> (pathsep :> t)) ≡ p ∷ split t
  unfolding split
  split-append empty t u = rw (nil-append (pathsep :> t)) (rw (nat_eq_refl (code pathsep)) refl)
  split-append (c :> p) t (other, u) =
      rw (cons-append c p (pathsep :> t), other, split-append p t u) refl

  -- Joining and splitting give back the parts.
  split-join : (p : String) (ps : List String) → All Lacks (p ∷ ps) → split (join (p ∷ ps)) ≡ p ∷ ps
  unfolding join
  split-join p [] (u, us) = split-whole p u
  split-join p (q ∷ ps) (u, us) =
      split-append p (join (q ∷ ps)) u ∙ ap (λ qs. p ∷ qs) (split-join q ps us)

  -- `original.split(os.pathsep) if original else []`
  unfoldable pub entries : Option String → List String
  entries none = []
  entries (some path) = if path == "" then [] else split path

  others-Lacks : (dir : String) (ps : List String) → All Lacks ps → All Lacks (others dir ps)
  unfolding others
  others-Lacks dir [] u = tt
  others-Lacks dir (p ∷ ps) (v, u) = elim (Bool-cases (p == dir)) [
    | inl same ↦ rw same (others-Lacks dir ps u)
    | inr different ↦ rw different (v, others-Lacks dir ps u)
  ]

  kept-cases : (ps : List String) → All Lacks ps → (split (join ps) ≡ ps) ⊎ (ps ≡ [])
  kept-cases [] u = inr refl
  kept-cases (p ∷ ps) u = inl (split-join p ps u)

  -- The entries that a path has once those that are `dir` are taken out of it are the other ones,
  -- in their order, and `dir` is none of them. A path that only had `dir` becomes the empty text,
  -- which has no entries.
  pub entries-others :
      (dir path : String)
      → (split (join (others dir (split path))) ≡ others dir (split path))
        ⊎ (others dir (split path) ≡ [])
  entries-others dir path =
      kept-cases (others dir (split path)) (others-Lacks dir (split path) (split-Lacks path))

  pub entries-hidden :
      (dir path : String) → member dir (entries (some (join (others dir (split path))))) ≡ false
  unfolding entries join
  entries-hidden dir path = elim (Bool-cases (join (others dir (split path)) == "")) [
    | inl nothing ↦ rw nothing refl
    | inr something ↦ elim (entries-others dir path) [
      | inl parts ↦ rw (something, parts) (member-others dir (split path))
      | inr none_left ↦ rw none_left refl
    ]
  ]
