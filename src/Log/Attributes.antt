-- ===== src/Log/Attributes.antt =====
-- handler.py: `OsloLogHandler`, which exports oslo's request context with a record.

use opentelemetry_openstack.Prelude.{
  or_else, String, Bool, true, false, Option, List, [], ◌∷◌, ◌&&◌, if◌then◌else◌, ◌==◌,
}
use opentelemetry_openstack.Py.Value.{
  Value, Values, nil, cons, null, bool, int, float, str, list, tuple, dict, Items, end, item, put,
  erase, is_none, text_of, is_exception, Result, ok, err, bind_result, call_get, getattr,
}

-- `_OSLO_CONTEXT_ATTRIBUTE_MAP`, source key and attribute key
abbrev pub context_attribute_map : List (String × String)
context_attribute_map =
    ("request_id", "openstack.request_id")
    ∷ ("global_request_id", "openstack.global_request_id")
    ∷ ("user", "openstack.user_id")
    ∷ ("user_name", "openstack.user_name")
    ∷ ("project", "openstack.project_id")
    ∷ ("project_name", "openstack.project_name")
    ∷ ("domain", "openstack.domain_id")
    ∷ ("user_domain", "openstack.user_domain_id")
    ∷ ("project_domain", "openstack.project_domain_id")
    ∷ ("roles", "openstack.roles")
    ∷ ("resource_uuid", "openstack.resource_uuid")
    ∷ []

-- `isinstance(value, _SCALAR_TYPES)`
abbrev pub is_scalar : Value → Bool
is_scalar (bool v) = true
is_scalar (int n) = true
is_scalar (float t s) = true
is_scalar (str s) = true
is_scalar _ = false

-- `all(isinstance(item, _SCALAR_TYPES) for item in value)`
abbrev pub all_scalar : Values → Bool
all_scalar nil = true
all_scalar (cons v vs) = is_scalar v && all_scalar vs

-- `value in (None, "", [])`
unfoldable pub is_blank : Value → Bool
is_blank null = true
is_blank (str s) = s == ""
is_blank (list nil) = true
is_blank _ = false

module _ (repr : Value → String) where
  -- The last line of `_coerce`, and the test on a list or tuple.
  abbrev pub coerce_elements : Value → Values → Value
  coerce_elements v vs = if all_scalar vs then list vs else str (text_of repr v)

  -- `_coerce`
  unfoldable pub coerce : Value → Value
  coerce (list vs) = coerce_elements (list vs) vs
  coerce (tuple vs) = coerce_elements (tuple vs) vs
  coerce v = if is_scalar v then v else str (text_of repr v)

  -- The comprehension of `_oslo_context_attributes`, over the pairs of the map.
  unfoldable pub map_context : List (String × String) → Value → Items → Result Items
  map_context [] values attributes = ok attributes
  map_context ((source, key) ∷ pairs) values attributes =
      bind_result (call_get values source null) (λ v.
        map_context pairs values (if is_blank v then attributes else put key (coerce v) attributes))

-- What is not this repository's: `context.get_logging_values()`, `oslo_context.get_current()`
-- (`none` where oslo.context is not installed), and the base handler's `_get_attributes(record)`.
pub record Host : Type 0 where
  pub get_logging_values : Value → Result Value
  pub get_current : Option Value
  pub base_attributes : Value → Result Items

abbrev pub or_empty : Result Value → Result Value
or_empty (ok v) = ok v
or_empty (err e) = if is_exception e then ok (dict end) else err e

-- `attributes.update(d)`
unfoldable pub update_items : Items → Items → Items
update_items attributes end = attributes
update_items attributes (item k v d) = update_items (put k v attributes) d

module _ (h : Host) where
  -- `_logging_values`
  unfoldable pub logging_values : Value → Result Value
  logging_values (dict d) = ok (dict d)
  logging_values context = or_empty (h.get_logging_values context)

  -- The record's own context, or else the current one.
  unfoldable pub request_context : Value → Value
  request_context context = if is_none context then or_else h.get_current null else context

  module _ (repr : Value → String) where
    abbrev pub context_attributes : Value → Result Items
    context_attributes context =
        if is_none context
        then ok end
        else bind_result (logging_values context)
            (λ values. map_context repr context_attribute_map values end)

    -- `OsloLogHandler._oslo_context_attributes`
    unfoldable pub oslo_context_attributes : Value → Result Items
    oslo_context_attributes record' =
        bind_result (getattr record' "context") (λ c. context_attributes (request_context c))

    -- `OsloLogHandler._get_attributes`, given `map_oslo_context`
    unfoldable pub get_attributes : Bool → Value → Result Items
    get_attributes map_oslo_context record' = bind_result (h.base_attributes record') (λ base.
        let attributes = erase "extra_keys" (erase "context" base) in
        if map_oslo_context
        then bind_result (oslo_context_attributes record')
            (λ mapped. ok (update_items attributes mapped))
        else ok attributes)
