-- ===== src/Py/Builtins.antt =====
-- The interpreter's built-in functions that the source calls on any value, as parameters of the
-- models: their results on all of Unicode and on objects with methods of their own are Python's.
use opentelemetry_openstack.Prelude.{String}
use opentelemetry_openstack.Py.Value.{ℤ, Value, Values, Exn, Result}

pub record Builtins : Type 0 where
  -- `repr(v)`, and `str(e)` of an exception
  pub repr : Value → String
  pub exn_text : Exn → String
  -- `s.upper()`, `s.lower()` and `s.strip()`
  pub upper : String → String
  pub lower : String → String
  pub strip : String → String
  -- `int(v)`
  pub to_int : Value → Result ℤ
  -- `iter(v)`, as the values it gives
  pub iterate : Value → Result Values
