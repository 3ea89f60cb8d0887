-- ===== src/Log/Level.antt =====
-- __init__.py: the settings of the oslo.log instrumentor, from its arguments and the environment.
use opentelemetry_openstack.Prelude.{String, Bool, Option, none, some, or_else, if◌then◌else◌, ◌==◌}
use opentelemetry_openstack.Py.Value.{
  Value, null, bool, int, str, Items, truthy, or, attribute_error, Result, ok, err, bind_result,
  get, get_default, pos,
}
use opentelemetry_openstack.Py.Builtins.{Builtins}

-- The parts of `logging` and of the OpenTelemetry logging instrumentation that the settings
-- use: `getLevelName`, `LEVELS.get` and `DEFAULT_LOGGING_FORMAT`; and `environ.get`.
pub record Defaults : Type 0 where
  pub get_level_name : String → Value
  pub level_of : Value → Value
  pub default_format : Value
  pub environ : String → Option String

-- `isinstance(v, int)`, which a Boolean is too.
abbrev pub is_int : Value → Bool
is_int (int n) = Bool.true
is_int (bool b) = Bool.true
is_int _ = Bool.false

-- `environ.get(name)`
abbrev pub environ_get : Defaults → String → Value
environ_get d name = elim (d.environ name) [ none ↦ null | some s ↦ str s ]

module _ (b : Builtins) (d : Defaults) where
  -- A level that is given as a text.
  abbrev pub numeric_level : Value → Value
  numeric_level level = if is_int level then level else null

  -- `_resolve_log_level`
  unfoldable pub resolve_log_level : Value → Result Value
  resolve_log_level null = ok null
  resolve_log_level (int n) = ok (int n)
  resolve_log_level (bool v) = ok (bool v)
  resolve_log_level (str s) = ok (numeric_level (d.get_level_name (b.strip (b.upper s))))
  resolve_log_level _ = err attribute_error

  -- `_env_flag`
  unfoldable pub env_flag : String → String → Bool
  env_flag name default' = b.lower (b.strip (or_else (d.environ name) default')) == "true"

  -- The format and the level for `basicConfig`.
  unfoldable pub log_format : Items → Value
  log_format kwargs =
      or (or (get kwargs "logging_format") (environ_get d "OTEL_PYTHON_LOG_FORMAT"))
        d.default_format

  unfoldable pub log_level : Items → Result Value
  log_level kwargs =
      bind_result
        (resolve_log_level
          (or (get kwargs "log_level") (d.level_of (environ_get d "OTEL_PYTHON_LOG_LEVEL"))))
        (λ level. ok (or level (int (pos 20))))

  -- Whether `basicConfig` is called.
  unfoldable pub set_logging_format : Items → Bool
  set_logging_format kwargs = truthy (
      get_default kwargs "set_logging_format"
        (bool (env_flag "OTEL_PYTHON_LOG_CORRELATION" "false")))

  -- The arguments of `OsloLogHandler` but for the provider.
  unfoldable pub handler_level : Items → Result Value
  handler_level kwargs =
      bind_result
        (resolve_log_level
          (or (get kwargs "log_handler_level") (environ_get d "OTEL_PYTHON_LOG_HANDLER_LEVEL")))
        (λ level. ok (or level (int (pos 0))))

  unfoldable pub log_code_attributes : Items → Value
  log_code_attributes kwargs =
      get_default kwargs "log_code_attributes"
        (bool (env_flag "OTEL_PYTHON_LOG_CODE_ATTRIBUTES" "false"))

  unfoldable pub map_oslo_context : Items → Value
  map_oslo_context kwargs = get_default kwargs "map_oslo_context" (bool Bool.true)
