-- ===== src/Py/Value.antt =====
-- Python's values as the source handles them: the built-in scalars, lists and tuples, mappings with
-- text keys, objects with attributes, and exceptions.
use opentelemetry_openstack.Prelude.{
  ℕ, zero, String, ◌≡◌, refl, Bool, true, false, Option, none, some, List, [], ◌∷◌, arith, ◌==◌,
  eq_iff, if◌then◌else◌, or_else, not,
}

-- Python's unbounded integers; `negsuc n` is -(n + 1).
pub data ℤ : Type 0 where
  pos : ℕ → ℤ
  negsuc : ℕ → ℤ

-- A `float` is its truth value and its text. An object has the modules of its class and of that
-- class's ancestors, in the order of `__mro__`, and its attributes; objects are true.
mutual
  pub data Value : Type 0 where
    null : Value
    bool : Bool → Value
    int : ℤ → Value
    float : Bool → String → Value
    str : String → Value
    list : Values → Value
    tuple : Values → Value
    dict : Items → Value
    obj : List String → Attrs → Value

  pub data Values : Type 0 where
    nil : Values
    cons : Value → Values → Values

  -- A mapping in insertion order.
  pub data Items : Type 0 where
    end : Items
    item : String → Value → Items → Items

  -- An attribute has a value, or is a property that raises when it is read.
  pub data Attrs : Type 0 where
    bare : Attrs
    attr : String → Value → Attrs → Attrs
    raising : String → Exn → Attrs → Attrs

  -- The built-in exceptions that the modelled code itself can raise, and any other: whether its
  -- class derives from `Exception`, its text, and the object with its attributes.
  pub data Exn : Type 0 where
    attribute_error type_error value_error import_error key_error : Exn
    other : Bool → String → Value → Exn

-- Whether `except Exception` catches it.
abbrev pub is_exception : Exn → Bool
is_exception (other derives text o) = derives
is_exception _ = true

pub data Result {ℓ} (A : Type ℓ) : Type ℓ where
  ok : A → Result A
  err : Exn → Result A

abbrev pub bind_result {ℓ κ} : {A : Type ℓ} {B : Type κ} → Result A → (A → Result B) → Result B
bind_result (ok a) f = f a
bind_result (err e) f = err e

-- `bool(v)`
abbrev pub truthy : Value → Bool
truthy null = false
truthy (bool b) = b
truthy (int (pos zero)) = false
truthy (float nonzero text) = nonzero
truthy (str s) = not (s == "")
truthy (list nil) = false
truthy (tuple nil) = false
truthy (dict end) = false
truthy _ = true

abbrev pub is_none : Value → Bool
is_none null = true
is_none _ = false

-- `str(v)`, also as a part of an f-string; the texts of the values that are no text are `repr`'s.
abbrev pub text_of : (Value → String) → Value → String
text_of repr (str s) = s
text_of repr v = repr v

-- `isinstance(v, Mapping)`
abbrev pub is_mapping : Value → Bool
is_mapping (dict d) = true
is_mapping _ = false

-- `v or w`
abbrev pub or : Value → Value → Value
or v w = if truthy v then v else w

-- `d.get(k)`, with the absence of the key kept.
unfoldable pub lookup : String → Items → Option Value
lookup k end = none
lookup k (item j v d) = if j == k then some v else lookup k d

-- `d[k] = v`
unfoldable pub put : String → Value → Items → Items
put k v end = item k v end
put k v (item j w d) = if j == k then item j v d else item j w (put k v d)

-- `d.pop(k, None)`, as far as it changes `d`.
unfoldable pub erase : String → Items → Items
erase k end = end
erase k (item j w d) = let rest = erase k d in if j == k then rest else item j w rest

-- `d.get(k)`
unfoldable pub get : Items → String → Value
get d k = or_else (lookup k d) null

-- `d.get(k, default)`
unfoldable pub get_default : Items → String → Value → Value
get_default d k v = or_else (lookup k d) v

-- `v.get(k)` for a value that should be a mapping. Only a mapping has the method.
abbrev pub call_get : Value → String → Value → Result Value
call_get (dict d) k v = ok (get_default d k v)
call_get _ k v = err attribute_error

-- `getattr(v, name, default)`: an absent attribute gives the default, and so does a property that
-- raises `AttributeError`; what else a property raises goes on to the caller.
abbrev pub read_attr : String → Value → Attrs → Result Value
read_attr k v bare = ok v
read_attr k v (attr j w a) = if j == k then ok w else read_attr k v a
read_attr k v (raising j attribute_error a) = if j == k then ok v else read_attr k v a
read_attr k v (raising j e a) = if j == k then err e else read_attr k v a

-- `getattr(v, name, None)`
abbrev pub getattr : Value → String → Result Value
getattr (obj mro a) k = read_attr k null a
getattr _ k = ok null

-- `getattr(v, name, default)` for a default that is not `None`
abbrev pub getattr_default : Value → String → Value → Result Value
getattr_default (obj mro a) k v = read_attr k v a
getattr_default _ k v = ok v

-- `getattr(v, name)`
abbrev pub read_required : String → Attrs → Result Value
read_required k bare = err attribute_error
read_required k (attr j w a) = if j == k then ok w else read_required k a
read_required k (raising j e a) = if j == k then err e else read_required k a

abbrev pub getattr_required : Value → String → Result Value
getattr_required (obj mro a) k = read_required k a
getattr_required _ k = err attribute_error

-- `type(v).__mro__`, as the modules of the classes.
abbrev pub mro_modules : Value → List String
mro_modules (obj mro a) = mro
mro_modules _ = "builtins" ∷ []

pub lookup-put :
    (k j : String) (v : Value) (d : Items)
    → lookup j (put k v d) ≡ (if k == j then some v else lookup j d)
unfolding lookup put
lookup-put k j v end = refl
lookup-put k j v (item i w d) =
    ground (arith, eq_iff k j, eq_iff i k, eq_iff i j, lookup-put k j v d)

pub lookup-erase :
    (k j : String) (d : Items) → lookup j (erase k d) ≡ (if k == j then none else lookup j d)
unfolding lookup erase
lookup-erase k j end = ground arith
lookup-erase k j (item i w d) =
    ground (arith, eq_iff k j, eq_iff i k, eq_iff i j, lookup-erase k j d)

-- `d or {}` of a mapping
pub or-dict : (d : Items) → or (dict d) (dict end) ≡ dict d
or-dict end = refl
or-dict (item k v d) = refl
