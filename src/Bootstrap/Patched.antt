-- ===== src/Bootstrap/Patched.antt =====
-- What the patch leaves of the environment.
use opentelemetry_openstack.Prelude.{
  member, String, ◌≡◌, refl, ap, ◌∙◌, Bool, true, false, some, [], if◌then◌else◌, ◌==◌, ◌⊎◌,
  Bool-cases, Option-cases, eq_iff, inl, inr, arith,
}
use mathlib.Core.Option.{map}
use opentelemetry_openstack.Py.Exec.{Exec, finally}
use opentelemetry_openstack.Py.Dict.{string_key, lookup, lookup-put}
use opentelemetry_openstack.Bootstrap.Entries.{
  split, join, entries, others, entries-others, entries-hidden,
}
use opentelemetry_openstack.Bootstrap.Process.{Platform, State, set_environ}
use opentelemetry_openstack.Bootstrap.Patch.{path_of, hidden_path, strip_path}

module _ (O : Platform) (this_dir : String) where
  abbrev pub is_entry : State O → Bool
  is_entry p = member this_dir (entries O.pathsep (lookup "PYTHONPATH" p.environ))

  -- The state in which the body of `with _strip_path()` runs, and what leaving it makes of a state.
  abbrev pub entered : State O → State O
  entered p =
      if is_entry p
      then set_environ "PYTHONPATH" (hidden_path O this_dir (lookup "PYTHONPATH" p.environ)) p
      else p

  abbrev pub left : State O → State O → State O
  left p q =
      if is_entry p then set_environ "PYTHONPATH" (path_of (lookup "PYTHONPATH" p.environ)) q else q

  pub strip_path-runs :
      {A : Type 0} (body : Exec (State O) A) (p : State O)
      → strip_path O this_dir body p ≡ ((body (entered p)).0, left p (body (entered p)).1)
  unfolding strip_path finally
  strip_path-runs body p = elim (Bool-cases (is_entry p)) [
    | inl inside ↦ rw inside refl
    | inr outside ↦ rw outside refl
  ]

  entries-split :
      (original : String)
      → member this_dir (entries O.pathsep (some original)) ≡ true
      → entries O.pathsep (some original) ≡ split O.pathsep original
  unfolding entries
  entries-split original inside = elim (Bool-cases (original == "")) [
    | inl nothing ↦ let nonsense = rw nothing at inside in absurd (ground arith)
    | inr something ↦ rw something refl
  ]

  hidden-lookup :
      (p : State O)
      → is_entry p ≡ true
      → lookup "PYTHONPATH" (entered p).environ
        ≡ some (hidden_path O this_dir (lookup "PYTHONPATH" p.environ))
  hidden-lookup p inside = rw inside (lookup-put "PYTHONPATH" "PYTHONPATH" _ p.environ)

  hidden_path-others :
      (original : String)
      → member this_dir (entries O.pathsep (some original)) ≡ true
      → hidden_path O this_dir (some original)
        ≡ join O.pathsep (others this_dir (split O.pathsep original))
  unfolding hidden_path
  hidden_path-others original inside =
      ap (λ ps. join O.pathsep (others this_dir ps)) (entries-split original inside)

  left-lookup :
      (p q : State O) (original : String)
      → lookup "PYTHONPATH" p.environ ≡ some original
      → is_entry p ≡ true
      → lookup "PYTHONPATH" (left p q).environ ≡ some original
  left-lookup p q original set inside =
      rw
        (
          inside,
          lookup-put "PYTHONPATH" "PYTHONPATH" (path_of (lookup "PYTHONPATH" p.environ)) q.environ,
          set,
        )
        refl

  pub left-others :
      (p q : State O) (k : String)
      → "PYTHONPATH" == k ≡ false
      → lookup k (left p q).environ ≡ lookup k q.environ
  left-others p q k other = elim (Bool-cases (is_entry p)) [
    | inl inside ↦
        rw
          (
            inside,
            lookup-put "PYTHONPATH" k (path_of (lookup "PYTHONPATH" p.environ)) q.environ,
            other,
          )
          refl
    | inr outside ↦ rw outside refl
  ]

  is_entry-set :
      (p : State O)
      → is_entry p ≡ true
      → (path : String) × (lookup "PYTHONPATH" p.environ ≡ some path)
  unfolding entries
  is_entry-set p inside = elim (Option-cases (lookup "PYTHONPATH" p.environ)) [
    | inl unset ↦ let nonsense = rw unset at inside in absurd (ground arith)
    | inr set ↦ set
  ]

  -- Leaving gives back every variable that the body leaves alone.
  pub left-lookups :
      (p q : State O) (k : String)
      → q.environ ≡ (entered p).environ
      → lookup k (left p q).environ ≡ lookup k p.environ
  left-lookups p q k alone = elim (Bool-cases (is_entry p)) [
    | inr outside ↦ rw (outside, alone, outside) refl
    | inl inside ↦ elim (Bool-cases ("PYTHONPATH" == k)) [
      | inl same ↦
          let (path, set) = is_entry-set p inside in
          let e = (eq_iff "PYTHONPATH" k).0 same in
          rw (← e, left-lookup p q path set inside, set) refl
      | inr other ↦
          left-others p q k other
          ∙ rw
              (
                alone,
                inside,
                lookup-put "PYTHONPATH" k (hidden_path O this_dir (lookup "PYTHONPATH" p.environ))
                    p.environ,
                other,
              )
              refl
    ]
  ]

  parts :
      (original : String)
      → (some (split O.pathsep (join O.pathsep (others this_dir (split O.pathsep original))))
          ≡ some (others this_dir (split O.pathsep original)))
        ⊎ (others this_dir (split O.pathsep original) ≡ [])
  parts original = elim (entries-others O.pathsep this_dir original) [
    | inl e ↦ inl (ap some e)
    | inr e ↦ inr e
  ]

  -- A body that runs without this module's directory, where it is an entry of `PYTHONPATH`: the
  -- body does not see it there, and sees all the other entries, in their order, if there are
  -- others; the outcome is the body's; and whether the body returns or raises, and whatever it does
  -- to the environment, `PYTHONPATH` is after it what it was before.
  pub strip_path-restores :
      {A : Type 0} (body : Exec (State O) A) (p : State O) (original : String)
      → lookup "PYTHONPATH" p.environ ≡ some original
      → is_entry p ≡ true
      → ((strip_path O this_dir body p).0 ≡ (body (entered p)).0)
        × (lookup "PYTHONPATH" (strip_path O this_dir body p).1.environ ≡ some original)
        × (is_entry (entered p) ≡ false)
        × ((map (split O.pathsep) (lookup "PYTHONPATH" (entered p).environ)
              ≡ some (others this_dir (split O.pathsep original)))
            ⊎ (others this_dir (split O.pathsep original) ≡ []))
  strip_path-restores body p original set inside =
      let at_start : lookup "PYTHONPATH" (entered p).environ
          ≡ some (join O.pathsep (others this_dir (split O.pathsep original))) =
        hidden-lookup p inside
        ∙ rw set (ap some (hidden_path-others original (rw set at inside))) in
      let ran = strip_path-runs body p in
      (
        ap (λ x. x.0) ran,
        rw ran (left-lookup p (body (entered p)).1 original set inside),
        rw at_start (entries-hidden O.pathsep this_dir original),
        rw at_start (parts original),
      )
