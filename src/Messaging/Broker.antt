-- ===== src/Messaging/Broker.antt =====
-- Which broker a span names.
use text.Mathlib.TextLemmas.{nil-append, cons-append, append-eq-nil_iff}
use opentelemetry_openstack.Prelude.{
  String, ◌≡◌, ◌≢◌, refl, none, some, List, [], ◌∷◌, ◌++◌, arith, concat, All, eq-false_of_ne,
}
use opentelemetry_openstack.Py.Value.{str, obj, Attrs}
use opentelemetry_openstack.Messaging.Names.{
  before_plus, messaging_system_for_driver, driver_by_incoming_module, walk_mro,
  consumer_messaging_system,
}

abbrev pub IsUnknown : String → Type 0
IsUnknown m = driver_by_incoming_module m ≡ none

-- On the consumer's side the first class of the message that a driver's module defines decides.
first_driver_decides :
    (before after : List String) (m driver : String) (attrs : Attrs)
    → All IsUnknown before
    → driver_by_incoming_module m ≡ some driver
    → consumer_messaging_system (obj (before ++ m ∷ after) attrs)
      ≡ messaging_system_for_driver (str driver)
unfolding consumer_messaging_system walk_mro
first_driver_decides [] after m driver attrs unknown known = rw (known, walk_mro)
first_driver_decides (b ∷ before) after m driver attrs (here, later) known =
    rw (here, walk_mro) (first_driver_decides before after m driver attrs later known)

before_plus-concat : (d x : String) → before_plus (concat d (concat "+" x)) ≡ before_plus d
unfolding before_plus
before_plus-concat String.[] x = rw (nil-append, cons-append) refl
before_plus-concat (String.◌∷◌ c d) x = rw cons-append (ground (arith, before_plus-concat d x))

-- On the producer's side a compound scheme names the broker of its driver: what stands behind the
-- first `+` does not matter.
compound_scheme :
    (d x : String)
    → d ≢ ""
    → messaging_system_for_driver (str (concat d (concat "+" x)))
      ≡ messaging_system_for_driver (str d)
unfolding messaging_system_for_driver
compound_scheme d x nonempty = rw (
  eq-false_of_ne d "" nonempty,
  eq-false_of_ne (concat d (concat "+" x)) "" (λ e. nonempty (append-eq-nil_iff.0 e).0),
  before_plus-concat d x,
)
