-- ===== src/Log/Types.antt =====
-- The types of the attributes that are exported of the request's context.
use opentelemetry_openstack.Prelude.{
  String, ◌≡◌, refl, sym, Bool, true, some, List, [], ◌∷◌, if◌then◌else◌, ◌==◌, Bool-cases, inl,
  inr,
}
use mathlib.Core.Option.{none-ne-some, some-injective}
use opentelemetry_openstack.Py.Value.{
  Value, Values, null, list, tuple, Items, end, put, lookup, lookup-put, is_none, ok, call_get,
  getattr,
}
use opentelemetry_openstack.Py.Exec.Laws.{bind_result-ok, ok-injective}
use opentelemetry_openstack.Log.Attributes.{
  context_attribute_map, is_scalar, all_scalar, is_blank, coerce_elements, coerce, map_context,
  Host, logging_values, request_context, context_attributes, oslo_context_attributes,
}

-- A type that the API takes for an attribute: a scalar, or a list of scalars.
abbrev pub is_attribute : Value → Bool
is_attribute (list vs) = all_scalar vs
is_attribute v = is_scalar v

module _ (repr : Value → String) where
  coerce_elements-is_attribute :
      (v : Value) (vs : Values) → is_attribute (coerce_elements repr v vs) ≡ true
  coerce_elements-is_attribute v vs = elim (Bool-cases (all_scalar vs)) [
    | inl scalars ↦ rw scalars scalars
    | inr others ↦ rw others refl
  ]

  coerce-is_attribute : (v : Value) → is_attribute (coerce repr v) ≡ true
  unfolding coerce
  coerce-is_attribute (list vs) = coerce_elements-is_attribute (list vs) vs
  coerce-is_attribute (tuple vs) = coerce_elements-is_attribute (tuple vs) vs
  coerce-is_attribute _ = refl

  abbrev pub AreAttributes : Items → Type 0
  AreAttributes a = (k : String) (v : Value) → lookup k a ≡ some v → is_attribute v ≡ true

  end-AreAttributes : AreAttributes end
  unfolding lookup
  end-AreAttributes k v found = absurd (none-ne-some v found)

  put-AreAttributes :
      (key : String) (v : Value) (a : Items)
      → is_attribute v ≡ true
      → AreAttributes a
      → AreAttributes (put key v a)
  put-AreAttributes key v a good rest k w found = elim (Bool-cases (key == k)) [
    | inl same ↦
        let here = some-injective v w (rw (lookup-put key k v a, same) at found) in
        rw (sym here) good
    | inr other ↦ rest k w (rw (lookup-put key k v a, other) at found)
  ]

  one_pair-AreAttributes :
      (key : String) (v : Value) (a : Items)
      → AreAttributes a
      → AreAttributes (if is_blank v then a else put key (coerce repr v) a)
  one_pair-AreAttributes key v a rest = elim (Bool-cases (is_blank v)) [
    | inl blank ↦ rw blank rest
    | inr full ↦ rw full (put-AreAttributes key (coerce repr v) a (coerce-is_attribute v) rest)
  ]

  map_context-AreAttributes :
      (pairs : List (String × String)) (values : Value) (a m : Items)
      → AreAttributes a
      → map_context repr pairs values a ≡ ok m
      → AreAttributes m
  unfolding map_context
  map_context-AreAttributes [] values a m rest e = rw (← ok-injective e) rest
  map_context-AreAttributes ((source, key) ∷ pairs) values a m rest e =
      let (v, found, later) = bind_result-ok (call_get values source null) _ m e in
      map_context-AreAttributes pairs values _ m (one_pair-AreAttributes key v a rest) later

  context_attributes-AreAttributes :
      (h : Host) (c : Value) (m : Items) → context_attributes h repr c ≡ ok m → AreAttributes m
  context_attributes-AreAttributes h c m e = elim (Bool-cases (is_none c)) [
    | inl absent ↦
        let nothing : end ≡ m = ok-injective (rw absent at e) in rw (← nothing) end-AreAttributes
    | inr present ↦
        let (values, read, mapped) = bind_result-ok (logging_values h c) _ m (rw present at e) in
        map_context-AreAttributes context_attribute_map values end m end-AreAttributes mapped
  ]

  -- Every attribute that is added of the request's context has a type which the API takes, a scalar
  -- or a list of scalars, whatever the context holds.
  pub oslo_context_attributes-is_attribute :
      (h : Host) (r : Value) (m : Items) (k : String) (v : Value)
      → oslo_context_attributes h repr r ≡ ok m
      → lookup k m ≡ some v
      → is_attribute v ≡ true
  unfolding oslo_context_attributes
  oslo_context_attributes-is_attribute h r m k v e found =
      let (c, read, mapped) = bind_result-ok (getattr r "context") _ m e in
      context_attributes-AreAttributes h (request_context h c) m mapped k v found
