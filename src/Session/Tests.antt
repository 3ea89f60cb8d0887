-- ===== src/Session/Tests.antt =====
-- A session's request on a concrete API.
use opentelemetry_openstack.Prelude.{◌≡◌, refl, some, List, [], ◌∷◌, ◌==◌, if◌then◌else◌}
use opentelemetry_openstack.Py.Value.{
  pos, Value, nil, null, int, str, dict, obj, bare, attr, Items, end, item, put, get, lookup,
  type_error, Result, ok, err,
}
use opentelemetry_openstack.Py.Exec.{Exec, pure, ◌>>=◌}
use opentelemetry_openstack.Py.Builtins.{Builtins}
use opentelemetry_openstack.Otel.Span.{client, emit}
use opentelemetry_openstack.Otel.Bodies.{RunsInCurrentSpan}
use opentelemetry_openstack.Otel.Memory.{World, memory, quiet, memory-KeepsContext}
use opentelemetry_openstack.Session.Request.{
  Parsing, http_url, http_method, record_response, record_status_code, is_error, record_url,
  record_parsed, request_wrapper,
}
use opentelemetry_openstack.Session.Continuity.{IsReadable, request_wrapper-continues}

abbrev pub builtins : Builtins
builtins = record {
  repr = λ v. "?";
  exn_text = λ e. "failed";
  upper = λ s. if s == "get" then "GET" else s;
  lower = λ s. s;
  strip = λ s. s;
  to_int = λ v. err type_error;
  iterate = λ v. ok nil;
}

abbrev mapping : Value → Result Items
mapping (dict d) = ok d
mapping _ = err type_error

abbrev pub parsing : Parsing
parsing = record {
  path = λ v. ok v;
  hostname = λ v. ok (str "host");
  port = λ v. ok null;
  to_dict = mapping;
  float_at_least_400 = λ text. text == "404.0";
}

-- A response with an error's status, and the request that it answers.
abbrev answer : Value
answer = obj [] (
    attr "status_code" (int (pos 404))
      (attr "request" (obj [] (attr "url" (str "http://host/servers") bare)) bare))

-- A session that leaves another context behind.
abbrev pub session : List Value → Items → Exec World Value
session args kwargs w = (ok answer, record w { current = some 9 })

answer_recorded : (record_response parsing answer []).0 ≡ ok tt
unfolding record_response record_status_code is_error record_url record_parsed emit pure ◌>>=◌
answer_recorded = refl

pub session-IsReadable : IsReadable memory parsing session
session-IsReadable = record {
  response = λ args kwargs w v h. let recorded = answer_recorded in cc;
  error = λ args kwargs w e h. cc;
}

abbrev pub args : List Value
args = str "/servers" ∷ str "get" ∷ []

abbrev pub kwargs : Items
kwargs = item "headers" (dict (item "Accept" (str "json") end)) end

-- Within the span 4.
abbrev pub busy : World
busy = record quiet { current = some 4; next = 5 }

request_wrapper-continues_example :
    RunsInCurrentSpan memory
      (request_wrapper builtins parsing memory session args kwargs busy)
      client
      busy
      (λ span.
        session args (
          put "headers" (dict (memory.inject (some span) (item "Accept" (str "json") end))) kwargs))
unfolding http_method http_url get lookup
request_wrapper-continues_example =
    request_wrapper-continues builtins parsing memory memory-KeepsContext session session-IsReadable
      args kwargs (item "Accept" (str "json") end) "GET" (str "/servers") busy refl refl refl refl
