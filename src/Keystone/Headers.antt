-- ===== src/Keystone/Headers.antt =====
-- The headers that the getter lists, and those that it gets.
use Prim.Native.Char.{code}
use Prim.Native.String.{[], ◌∷◌}
use opentelemetry_openstack.Prelude.{
  String, List, ◌≡◌, refl, true, Option, none, some, ◌==◌, eq_iff, nat_eq_refl, concat, Bool-cases,
  Option-cases, inl, inr, member, eq_refl,
}
use mathlib.Core.Option.{none-ne-some}
use text.Mathlib.TextLemmas.{nil-append, cons-append}
use opentelemetry_openstack.Py.Value.{Value, Items, end, item, get, lookup}
use opentelemetry_openstack.Py.Builtins.{Builtins}
use opentelemetry_openstack.Keystone.Environ.{
  dashes_to_underscores, underscores_to_dashes, after_prefix, environ_key, environ_get,
  environ_keys, listed,
}

after_prefix-concat : (p s : String) → after_prefix p (concat p s) ≡ some s
unfolding after_prefix
after_prefix-concat [] s = rw (nil-append s) refl
after_prefix-concat (c ∷ p) s =
    rw (cons-append c p s, nat_eq_refl (code c)) (after_prefix-concat p s)

module _ (b : Builtins) where
  -- What stands in the environment for a header is named by the header again.
  abbrev pub IsHeader : String → Type 0
  IsHeader h = b.lower (underscores_to_dashes (dashes_to_underscores (b.upper h))) ≡ h

  listed-keeps :
      (h : String) (name : Option String) (rest : List String)
      → member h rest ≡ true
      → member h (listed b name rest) ≡ true
  listed-keeps h none rest there = there
  listed-keeps h (some name) rest there =
      elim (Bool-cases (b.lower (underscores_to_dashes name) == h)) [
        | inl here ↦ rw here refl
        | inr other ↦ rw other there
      ]

  listed-entry :
      (h : String) (carrier : Items) (v : Value)
      → IsHeader h
      → lookup (environ_key b h) carrier ≡ some v
      → member h (environ_keys b carrier) ≡ true
  unfolding environ_keys lookup environ_key
  listed-entry h end v header found = absurd (none-ne-some v found)
  listed-entry h (item key w d) v header found = elim (Bool-cases (key == environ_key b h)) [
    | inl same ↦
        rw
          (
            (eq_iff key (environ_key b h)).0 same,
            after_prefix-concat "HTTP_" (dashes_to_underscores (b.upper h)),
            header,
            eq_refl h,
          )
          refl
    | inr other ↦
        listed-keeps h (after_prefix "HTTP_" key) (environ_keys b d)
          (listed-entry h d v header (rw other at found))
  ]

  -- A header that the getter finds in a WSGI environment is one of those that it lists, if the name
  -- is one that comes back from its entry's name, as lower-case names without underscores do.
  found_header_is_listed :
      (h : String) (carrier : Items) (v : Value)
      → IsHeader h
      → environ_get b carrier h ≡ some v
      → member h (environ_keys b carrier) ≡ true
  unfolding environ_get get
  found_header_is_listed h carrier v header found =
      elim (Option-cases (lookup (environ_key b h) carrier)) [
        | inl missing ↦ absurd (none-ne-some v (rw missing at found))
        | inr (w, there) ↦ listed-entry h carrier w header there
      ]
