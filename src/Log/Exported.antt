-- ===== src/Log/Exported.antt =====
-- What an exported record shows of the request's context.
use opentelemetry_openstack.Prelude.{
  String, ◌≡◌, refl, ◌∙◌, Bool, true, false, Option, none, some, List, [], ◌∷◌, arith, first_of,
  if◌then◌else◌, ◌==◌, eq_iff, Bool-cases, or-false, ◌||◌, inl, inr,
}
use opentelemetry_openstack.Py.Value.{
  Value, dict, Items, end, item, put, erase, get, lookup, lookup-put, lookup-erase, is_none, ok,
  get_default, getattr,
}
use opentelemetry_openstack.Log.Attributes.{
  context_attribute_map, is_blank, coerce, map_context, Host, update_items, logging_values,
  request_context, context_attributes, oslo_context_attributes, get_attributes,
}

-- The source key of an attribute, `none` for an attribute that is no key of the map.
unfoldable pub source_of : String → List (String × String) → Option String
source_of k [] = none
source_of k ((source, key) ∷ pairs) = if key == k then some source else source_of k pairs

-- No two sources have one attribute.
abbrev DistinctKeys : List (String × String) → Type 0
DistinctKeys [] = Unit
DistinctKeys ((source, key) ∷ pairs) = (source_of key pairs ≡ none) × DistinctKeys pairs

context_attribute_map-DistinctKeys : DistinctKeys context_attribute_map
unfolding source_of
context_attribute_map-DistinctKeys =
    (refl, (refl, (refl, (refl, (refl, (refl, (refl, (refl, (refl, (refl, (refl, tt)))))))))))

-- In a dictionary a key has one entry.
abbrev NodupItems : Items → Type 0
NodupItems end = Unit
NodupItems (item k v d) = (lookup k d ≡ none) × NodupItems d

put-NodupItems : (k : String) (v : Value) (d : Items) → NodupItems d → NodupItems (put k v d)
unfolding put lookup
put-NodupItems k v end u = (refl, tt)
put-NodupItems k v (item j w d) (fresh, u) =
    ground (arith, put-NodupItems k v d u, lookup-put k j v d, eq_iff k j, eq_iff j k)

lookup-update_items :
    (k : String) (a d : Items)
    → NodupItems d
    → lookup k (update_items a d) ≡ first_of (lookup k d) (lookup k a)
unfolding update_items lookup
lookup-update_items k a end u = refl
lookup-update_items k a (item j v d) (fresh, u) = elim (Bool-cases (j == k)) [
  | inl same ↦
      let e = (eq_iff j k).0 same in
      rw (lookup-update_items k (put j v a) d u, lookup-put j k v a, same) (rw (rw e at fresh) refl)
  | inr other ↦ rw (lookup-update_items k (put j v a) d u, lookup-put j k v a, other) refl
]

module _ (repr : Value → String) where
  -- The attribute that a source key gives: its value as an attribute, unless it is blank.
  abbrev pub exported : Items → Option String → Option Value → Option Value
  exported d none otherwise = otherwise
  exported d (some source) otherwise =
      if is_blank (get d source) then otherwise else some (coerce repr (get d source))

  -- What the comprehension does for one pair.
  abbrev one_pair : String → String → Items → Items → Items
  one_pair source key d a =
      if is_blank (get d source) then a else put key (coerce repr (get d source)) a

  one_pair-NodupItems :
      (source key : String) (d a : Items) → NodupItems a → NodupItems (one_pair source key d a)
  one_pair-NodupItems source key d a v = elim (Bool-cases (is_blank (get d source))) [
    | inl blank ↦ rw blank v
    | inr full ↦ rw full (put-NodupItems key (coerce repr (get d source)) a v)
  ]

  exported-one_pair :
      (source key k : String) (pairs : List (String × String)) (d a : Items)
      → source_of key pairs ≡ none
      → exported d (source_of k pairs) (lookup k (one_pair source key d a))
        ≡ exported d (source_of k ((source, key) ∷ pairs)) (lookup k a)
  unfolding source_of
  exported-one_pair source key k pairs d a fresh = elim (Bool-cases (is_blank (get d source))) [
    | inl blank ↦ elim (Bool-cases (key == k)) [
      | inl same ↦ rw (blank, same, blank, rw ((eq_iff key k).0 same) at fresh) refl
      | inr other ↦ rw (blank, other) refl
    ]
    | inr full ↦ elim (Bool-cases (key == k)) [
      | inl same ↦
          rw
            (
              full,
              lookup-put key k (coerce repr (get d source)) a,
              same,
              full,
              rw ((eq_iff key k).0 same) at fresh,
            )
            refl
      | inr other ↦ rw (full, lookup-put key k (coerce repr (get d source)) a, other) refl
    ]
  ]

  map_context-lookup :
      (pairs : List (String × String)) (d a : Items)
      → DistinctKeys pairs
      → NodupItems a
      → (m : Items) × (map_context repr pairs (dict d) a ≡ ok m)
        × NodupItems m
        × ((k : String) → lookup k m ≡ exported d (source_of k pairs) (lookup k a))
  unfolding map_context source_of get get_default
  map_context-lookup [] d a u v = (a, refl, v, λ k. refl)
  map_context-lookup ((source, key) ∷ pairs) d a (fresh, u) v =
      let (m, computed, w, spec) =
        map_context-lookup pairs d (one_pair source key d a) u
          (one_pair-NodupItems source key d a v) in
      (m, computed, w, λ k. spec k ∙ exported-one_pair source key k pairs d a fresh)

  first_of-exported :
      (d : Items) (source : Option String) (o : Option Value)
      → first_of (exported d source none) o ≡ exported d source o
  first_of-exported d none o = refl
  first_of-exported d (some s) o = elim (Bool-cases (is_blank (get d s))) [
    | inl blank ↦ rw blank refl
    | inr full ↦ rw full refl
  ]

-- What the base handler gives, without oslo's own bookkeeping.
abbrev pub kept : Items → String → Option Value
kept base k = if "extra_keys" == k then none else if "context" == k then none else lookup k base

module _ (h : Host) (repr : Value → String) (r : Value) (base d : Items) (c : Value)
    (based : h.base_attributes r ≡ ok base) (has_context : getattr r "context" ≡ ok c)
    (present : is_none (request_context h c) ≡ false)
    (read : logging_values h (request_context h c) ≡ ok (dict d)) where
  mapped_context :
      (m : Items) × (oslo_context_attributes h repr r ≡ ok m)
      × NodupItems m
      × ((k : String) → lookup k m ≡ exported repr d (source_of k context_attribute_map) none)
  unfolding oslo_context_attributes
  mapped_context =
      let (m, computed, u, spec) =
        map_context-lookup repr context_attribute_map d end context_attribute_map-DistinctKeys tt in
      (m, rw (has_context, present, read) computed, u, unfold lookup in spec)

  -- With `map_oslo_context` on, for a record with a request context, its own or else the current
  -- one, whose logging values are a mapping, and with attributes of the base handler. Every attribute is exported as follows, and no other is: the target of a source that
  -- has a value which is not blank has this value, coerced; any other has what the base handler
  -- gives, but for `context` and `extra_keys`, which are dropped.
  pub get_attributes-lookup :
      (m : Items) × (get_attributes h repr true r ≡ ok m)
      × ((k : String)
          → lookup k m ≡ exported repr d (source_of k context_attribute_map) (kept base k))
  unfolding get_attributes
  get_attributes-lookup =
      let (m, computed, u, spec) = mapped_context in
      let attributes = erase "extra_keys" (erase "context" base) in
      (
        update_items attributes m,
        rw (based, computed) refl,
        λ k.
            lookup-update_items k attributes m u
            ∙ rw
                (
                  spec k,
                  lookup-erase "extra_keys" k (erase "context" base),
                  lookup-erase "context" k base,
                )
                (first_of-exported repr d (source_of k context_attribute_map) (kept base k)),
      )

-- Whether the map reads a key.
abbrev pub is_read : String → List (String × String) → Bool
is_read k [] = false
is_read k ((source, key) ∷ pairs) = k == source || is_read k pairs

module _ (repr : Value → String) (k : String) (v : Value) (d : Items) where
  map_context-unread :
      (pairs : List (String × String)) (a : Items)
      → is_read k pairs ≡ false
      → map_context repr pairs (dict (put k v d)) a ≡ map_context repr pairs (dict d) a
  unfolding map_context get_default
  map_context-unread [] a unread = refl
  map_context-unread ((source, key) ∷ pairs) a unread =
      let (other, later) = or-false (k == source) (is_read k pairs) unread in
      rw (lookup-put k source v d, other) (map_context-unread pairs _ later)

  -- An entry of the logging values that the map does not read, such as a token, has no effect on
  -- what of the context is exported: neither its value nor its presence.
  secrets_stay :
      (h : Host)
      → is_read k context_attribute_map ≡ false
      → context_attributes h repr (dict (put k v d)) ≡ context_attributes h repr (dict d)
  unfolding logging_values
  secrets_stay h unread = map_context-unread context_attribute_map end unread
