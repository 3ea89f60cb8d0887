-- ===== src/Keystone/Tests.antt =====
-- The middleware's wrappers on a concrete API.
use opentelemetry_openstack.Prelude.{
  String, ◌≡◌, refl, true, false, none, some, List, [], ◌∷◌, ◌==◌, eq_iff, inl, inr, Bool-cases,
  arith, if◌then◌else◌,
}
use opentelemetry_openstack.Py.Value.{
  ℤ, pos, Value, Values, null, bool, int, str, list, tuple, obj, bare, attr, raising, dict, Items,
  end, item, lookup, get, put, type_error, value_error, Result, ok, err, getattr,
}
use opentelemetry_openstack.Py.Exec.{Exec, pure, ◌>>=◌}
use opentelemetry_openstack.Py.Builtins.{Builtins}
use opentelemetry_openstack.Otel.Span.{SpanArgs, emit, server, internal, Note}
use opentelemetry_openstack.Otel.Memory.{
  Context, memory, quiet, memory-KeepsContext, memory-Propagates, IsProgramKey,
}
use opentelemetry_openstack.Py.Wrapt.{Wrapt, Wraps, Unwraps, Target, same_target, same_target_iff}
use opentelemetry_openstack.Py.Wrapt.Laws.{ne_same_target}
use opentelemetry_openstack.Py.Wrapt.Stacks.{stacks, stacks-Wraps, stacks-Unwraps}
use opentelemetry_openstack.Keystone.Instrumentor.{
  Wrapper, call_target, process_request_target, ClassAttributes, Assigns, Process, instrument,
  uninstrument, uninstrument-instrument_middleware,
}
use opentelemetry_openstack.Keystone.Environ.{
  environ_get, environ_key, dashes_to_underscores, request_attributes, request_span_name,
}
use opentelemetry_openstack.Keystone.Token.{
  record_request, record_tokens, record_token, token_present, token_valid,
}
use opentelemetry_openstack.Keystone.Middleware.{
  Request, CallArgs, wsgi, StartResponse, call_wrapper, process_request_wrapper, request_arg,
}
use opentelemetry_openstack.Keystone.Scope.{middleware-restores}
use opentelemetry_openstack.Keystone.Refused.{HasOddRoles, process_request_wrapper-raises}
use opentelemetry_openstack.Keystone.Continuity.{
  IntOfText, call_wrapper-continues, process_request_wrapper-nests,
}

abbrev number : Value → Result ℤ
number (int n) = ok n
number (str s) = if s == "200" then ok (pos 200) else err value_error
number _ = err type_error

abbrev elements : Value → Result Values
elements (list vs) = ok vs
elements (tuple vs) = ok vs
elements _ = err type_error

abbrev pub builtins : Builtins
builtins = record {
  repr = λ v. "?";
  exn_text = λ e. "failed";
  upper = λ s. if s == "traceparent" then "TRACEPARENT" else s;
  lower = λ s. s;
  strip = λ s. s;
  to_int = number;
  iterate = elements;
}

pub builtins-IntOfText : IntOfText builtins
builtins-IntOfText t = elim (Bool-cases (t == "200")) [
  | inl known ↦ inl (pos 200, rw known refl)
  | inr unknown ↦ inr (rw unknown refl)
]

abbrev pub environ : Items
environ =
    item "REQUEST_METHOD" (str "GET")
      (item "PATH_INFO" (str "/v2.1/servers") (item "HTTP_TRACEPARENT" (int (pos 7)) end))

abbrev attributes : Items
attributes = item "http.request.method" (str "GET") (item "url.path" (str "/v2.1/servers") end)

abbrev pub arrival : Request builtins memory
arrival = record { world = quiet; captured = λ n. none; next = 0 }

abbrev pub start_response : StartResponse builtins memory
start_response status headers exc_info s = (ok null, s)

-- An application that answers, and then raises and leaves another context behind.
abbrev pub application : CallArgs builtins memory → Exec (Request builtins memory) Value
application (wsgi e sr kwargs) s =
    let (r, s') = sr (str "200 OK") null null s in
    (err type_error, record s' { world = record s'.world { current = some 9 } })
application call s = (ok null, s)

carried :
    (k : String)
    → ¬ IsProgramKey k
    → environ_get builtins environ k ≡ lookup k (put "traceparent" (int (pos 7)) end)
unfolding environ_get environ_key dashes_to_underscores get lookup put
carried k field = elim (Bool-cases (k == "traceparent")) [
  | inl same ↦ rw ((eq_iff k "traceparent").0 same) refl
  | inr differs ↦ absurd (field (λ e. ground (arith, eq_iff k "traceparent")))
]

attributes_read : request_attributes builtins (dict environ) ≡ ok attributes
unfolding request_attributes get lookup put
attributes_read = refl

call_wrapper-continues_example :
    (a : SpanArgs Context) × (s' : Request builtins memory) × (sr : StartResponse builtins memory)
    × (a.parent ≡ some (memory-Propagates.remote (some 7)))
    × (a.kind ≡ server)
    × (a.name ≡ request_span_name builtins (dict environ))
    × (a.attributes ≡ attributes)
    × (s'.world ≡ (memory.start_as_current_span a quiet).1)
    × (s'.world.current ≡ some (memory.start_as_current_span a quiet).0.0)
    × ((call_wrapper builtins memory application (wsgi (dict environ) start_response end) arrival).0
        ≡ (application (wsgi (dict environ) sr end) s').0)
call_wrapper-continues_example =
    call_wrapper-continues builtins memory memory-KeepsContext memory-Propagates builtins-IntOfText
      application environ end attributes start_response end (some 7) arrival refl refl refl carried
      attributes_read

-- Within the span 4.
abbrev nested : Request builtins memory
nested = record {
  world = record quiet { current = some 4; next = 5 };
  captured = λ n. none;
  next = 0;
}

abbrev process : List Value → Items → Exec (Request builtins memory) Value
process args kwargs s = (err type_error, record s { world = record quiet { current = some 9 } })

middleware-restores_example :
    ((call_wrapper builtins memory application
        (wsgi (dict environ) start_response end)
        nested).1.world.current
      ≡ some 4)
    × ((process_request_wrapper builtins memory process (null ∷ []) end nested).1.world.current
        ≡ some 4)
middleware-restores_example =
    middleware-restores builtins memory memory-KeepsContext nested refl application (dict environ)
      start_response process (null ∷ []) end

-- A request with a user token that was refused, whose other token cannot be read, and an identity.
abbrev refused : Value
refused = obj [] (
    attr "user_token" (str "t") (
      attr "user_token_valid" (bool false) (
        raising "service_token" type_error
          (attr "token_auth" (obj [] (attr "user" (obj [] bare) bare)) bare))))

refused_recorded :
    (notes : List Note) → (record_request builtins (request_arg (refused ∷ []) end) notes).0 ≡ ok tt
unfolding record_request record_tokens record_token token_present token_valid request_arg pure emit
    ◌>>=◌
refused_recorded notes = refl

process_request_wrapper-nests_example :
    (a : SpanArgs Context) × (s' : Request builtins memory) × (a.parent ≡ none)
    × (a.kind ≡ internal)
    × (s'.world.current ≡ some (memory.start_as_current_span a nested.world).0.0)
    × ((process_request_wrapper builtins memory process (refused ∷ []) end nested).0
        ≡ (process (refused ∷ []) end s').0)
process_request_wrapper-nests_example =
    process_request_wrapper-nests builtins memory memory-KeepsContext process (refused ∷ []) end
      nested refl refl refused_recorded

-- A request with an accepted user token, whose roles are a number.
abbrev identity : Value
identity = obj [] (attr "role_names" (int (pos 3)) bare)

abbrev odd_roles : Value
odd_roles = obj [] (
    attr "user_token" (str "t") (
      attr "user_token_valid" (bool true)
        (attr "token_auth" (obj [] (attr "user" identity bare)) bare)))

abbrev field_of : String → Value
field_of name = if "role_names" == name then int (pos 3) else null

identity_read : (name : String) → getattr identity name ≡ ok (field_of name)
identity_read name = ground arith

odd_roles-HasOddRoles : HasOddRoles builtins odd_roles type_error
unfolding token_present token_valid
odd_roles-HasOddRoles = record {
  given = refl;
  user = record { presence = refl; validity = refl };
  service = false;
  service_valid = none;
  service_reads = record { presence = refl; validity = refl };
  token_auth = obj [] (attr "user" identity bare);
  auth_ref = identity;
  has_token_auth = refl;
  has_auth_ref = refl;
  known = refl;
  fields = λ name. (field_of name, identity_read name);
  odd = refl;
  refused = refl;
}

abbrev accepting : List Value → Items → Exec (Request builtins memory) Value
accepting args kwargs s = (ok null, s)

process_request_wrapper-raises_example :
    (process_request_wrapper builtins memory accepting (odd_roles ∷ []) end nested).0
    ≡ err type_error
unfolding request_arg
process_request_wrapper-raises_example =
    process_request_wrapper-raises builtins odd_roles type_error odd_roles-HasOddRoles memory
      accepting (odd_roles ∷ []) end nested null refl refl refl refl refl

-- A class whose functions are stacks of wrappers, and whose `__call__` an `unwrap` takes away.
abbrev class_stacks : Wrapt Wrapper
class_stacks = record {
  Modules = stacks.Modules;
  Function = stacks.Function;
  resolve = stacks.resolve;
  function_wrapper = stacks.function_wrapper;
  wrap_function_wrapper = stacks.wrap_function_wrapper;
  unwrap = λ t m. if same_target call_target t then (ok tt, λ j. none) else stacks.unwrap t m;
}

class_stacks-Wraps : Wraps class_stacks
class_stacks-Wraps = record {
  wrapping = stacks-Wraps.wrapping;
  wrapping_others = stacks-Wraps.wrapping_others;
}

class_stacks-Unwraps : Unwraps class_stacks process_request_target
class_stacks-Unwraps = record {
  unwrapping = (stacks-Unwraps process_request_target).unwrapping;
  unwrapping_others = (stacks-Unwraps process_request_target).unwrapping_others;
}

abbrev class_attributes : ClassAttributes class_stacks
class_attributes = record {
  own = λ m t. m t;
  assign = λ t f m j. if same_target t j then some f else m j;
}

class_attributes-Assigns : Assigns class_stacks class_attributes
class_attributes-Assigns = record {
  assigning = λ t f m. rw ((same_target_iff t t).1 refl) refl;
  assigning_others = λ t j f m ne. rw (ne_same_target t j ne) refl;
}

abbrev pristine : Process class_stacks class_attributes
pristine = record { modules = λ t. some []; original_call = none }

uninstrument-instrument_middleware_example :
    ((instrument class_stacks class_attributes true true pristine).0 ≡ ok tt)
    × ((instrument class_stacks class_attributes true true pristine).1.modules call_target
        ≡ some (Wrapper.wrap_call ∷ []))
    × ((instrument class_stacks class_attributes true true pristine).1.modules
          process_request_target
        ≡ some (Wrapper.wrap_process_request ∷ []))
    × ((uninstrument class_stacks class_attributes true
          (instrument class_stacks class_attributes true true pristine).1).0
        ≡ ok tt)
    × ((uninstrument class_stacks class_attributes true
          (instrument class_stacks class_attributes true true pristine).1).1.original_call
        ≡ none)
    × ((j : Target)
        → (uninstrument class_stacks class_attributes true
              (instrument class_stacks class_attributes true true pristine).1).1.modules
            j
          ≡ some [])
uninstrument-instrument_middleware_example =
    uninstrument-instrument_middleware class_stacks class_attributes class_stacks-Wraps
      class_stacks-Unwraps class_attributes-Assigns [] [] pristine refl refl refl
