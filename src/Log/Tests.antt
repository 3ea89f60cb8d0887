-- ===== src/Log/Tests.antt =====
-- The theorems at concrete inputs.
use opentelemetry_openstack.Prelude.{
  List, nat_eq, if◌then◌else◌, ℕ, suc, String, ◌≡◌, refl, Bool, true, none, some, [], ◌∷◌,
  if◌then◌else◌, arith,
}
use opentelemetry_openstack.Py.Value.{
  Value, nil, cons, null, bool, int, str, list, tuple, dict, obj, bare, attr, Items, end, item, get,
  lookup, lookup-put, put, get_default, ok, err, type_error, pos,
}
use opentelemetry_openstack.Py.Builtins.{Builtins}
use opentelemetry_openstack.Py.Exec.{Exec, pure}
use opentelemetry_openstack.Otel.Span.{SpanKind}
use opentelemetry_openstack.Otel.Bodies.{RunsInSpan, inside, span_from}
use opentelemetry_openstack.Otel.Memory.{World, memory, quiet, memory-KeepsContext}
use opentelemetry_openstack.Messaging.Names.{arg}
use opentelemetry_openstack.Messaging.Consumer.{rpc_server_wrapper}
use opentelemetry_openstack.Log.Dispatch.{
  Records, logging_of, state_of, Documented, dispatch_records-correlate,
}
use opentelemetry_openstack.Log.Attributes.{
  context_attribute_map, is_blank, coerce, map_context, Host, logging_values, request_context,
  oslo_context_attributes, get_attributes,
}
use opentelemetry_openstack.Log.Exported.{source_of, exported, kept, get_attributes-lookup}
use opentelemetry_openstack.Log.Types.{is_attribute, oslo_context_attributes-is_attribute}
use opentelemetry_openstack.Log.Factory.{Logging, State, record_factory, resolve_service_name}
use opentelemetry_openstack.Log.Correlated.{expected, stamped, left_of, record_factory-expected}
use opentelemetry_openstack.Py.Wrapt.{Target}
use opentelemetry_openstack.Py.Wrapt.Stacks.{stacks, stacks-Replaces}
use opentelemetry_openstack.Log.Level.{
  Defaults, resolve_log_level, handler_level, set_logging_format, env_flag,
}
use opentelemetry_openstack.Log.Instrumentor
use opentelemetry_openstack.Log.Instrumentor.{
  Process, foreign, instrument, uninstrument, guarded_setup, configure_format,
}
use opentelemetry_openstack.Log.Handlers.{count, without}
use opentelemetry_openstack.Log.Attached.{set_up, Steps, step, stop, attached_until_uninstrumented}

abbrev repr : Value → String
repr _ = "<object>"

-- A context whose values a method gives: a request id, a blank user and two roles.
abbrev values : Items
values =
    item "request_id" (str "req-1") (
      item "user" (str "")
        (item "roles" (tuple (cons (str "admin") (cons (str "member") nil))) end))

abbrev base : Items
base =
    item "openstack.user_id" (str "u1") (item "context" null (item "code.lineno" (int (pos 7)) end))

abbrev host : Host
host = record {
  get_logging_values = λ c. ok (dict values);
  get_current = none;
  base_attributes = λ r. ok base;
}

abbrev log_record : Value
log_record = obj [] (attr "context" (obj [] bare) bare)

get_attributes-lookup_example :
    (m : Items) × (get_attributes host repr true log_record ≡ ok m)
    × ((k : String)
        → lookup k m ≡ exported repr values (source_of k context_attribute_map) (kept base k))
unfolding logging_values request_context
get_attributes-lookup_example =
    get_attributes-lookup host repr log_record base values (obj [] bare) refl refl refl refl

abbrev request_id_mapped : Items
request_id_mapped =
    item "openstack.request_id" (str "req-1")
      (item "openstack.roles" (list (cons (str "admin") (cons (str "member") nil))) end)

mapped : oslo_context_attributes host repr log_record ≡ ok request_id_mapped
unfolding oslo_context_attributes request_context logging_values map_context get_default lookup
    is_blank coerce put
mapped = refl

found_roles :
    lookup "openstack.roles" request_id_mapped
    ≡ some (list (cons (str "admin") (cons (str "member") nil)))
unfolding lookup
found_roles = refl

oslo_context_attributes-is_attribute_example :
    is_attribute (list (cons (str "admin") (cons (str "member") nil))) ≡ true
oslo_context_attributes-is_attribute_example =
    oslo_context_attributes-is_attribute repr host log_record request_id_mapped "openstack.roles"
      (list (cons (str "admin") (cons (str "member") nil))) mapped found_roles

-- A process in a sampled span, whose hook marks the record and then raises.
abbrev logging : Logging
logging = record {
  World = Bool;
  Args = String;
  Span = String;
  old_factory = λ message w. (ok (item "msg" (str message) end), w);
  current_span = λ w. if w then some "a1" else none;
  trace_id = λ span. "t1";
  span_id = λ span. span;
  sampled = λ span. bool true;
  provider = λ w. obj [] (
      attr "resource"
        (obj [] (attr "attributes" (dict (item "service.name" (str "nova") end)) bare)) bare);
  log_hook = some (λ span (r, w). (err type_error, (put "hooked" (bool true) r, w)));
}

abbrev started : State logging
started = record { world = true; service_name = null }

record_factory-expected_example :
    ((k : String)
      → lookup k (stamped logging (str "nova") (some "a1") (item "msg" (str "up") end))
        ≡ expected logging (str "nova") (some "a1") (item "msg" (str "up") end) k)
    × ((record_factory logging "up" started).0
        ≡ ok (
            left_of logging logging.log_hook
              (some "a1")
              (stamped logging (str "nova") (some "a1") (item "msg" (str "up") end))
              true))
unfolding resolve_service_name get_default lookup
record_factory-expected_example =
    record_factory-expected logging "up" started (item "msg" (str "up") end) (str "nova") refl refl
      refl

abbrev cached : State logging
cached = record { world = true; service_name = str "nova" }

marked :
    (r : Items) → lookup "otelServiceName" (put "hooked" (bool true) r) ≡ lookup "otelServiceName" r
marked r = lookup-put "hooked" "otelServiceName" (bool true) r

-- A process with one handler on the root logger, where objects are numbered.
abbrev process_host : Instrumentor.Host
process_host = record {
  World = ℕ;
  get_logger_provider = λ n. null;
  basic_config = λ format level s. (ok tt, s);
  new_handler = λ args n. (ok n, suc n);
}

abbrev pristine : Process stacks process_host
pristine = record {
  world = 5;
  modules = λ t. some [];
  factory = foreign 0;
  handlers = 1 ∷ [];
  own_handler = none;
  old_factory = none;
}

abbrev defaults : Defaults
defaults = record {
  get_level_name = λ s. int (pos 10);
  level_of = λ v. null;
  default_format = str "%(message)s";
  environ = λ name. none;
}

abbrev builtins : Builtins
builtins = record {
  repr = repr;
  exn_text = λ e. "failed";
  upper = λ s. s;
  lower = λ s. s;
  strip = λ s. s;
  to_int = λ v. err type_error;
  iterate = λ v. err type_error;
}

abbrev kwargs : Items
kwargs = item "log_handler_level" (str "DEBUG") end

abbrev instrumented : Process stacks process_host
instrumented = (instrument stacks process_host builtins defaults kwargs true pristine).1

-- oslo.log's `setup`, which replaces the handlers.
abbrev rebuild : Exec (Process stacks process_host) Value
rebuild p = (ok null, record p { handlers = 2 ∷ 3 ∷ [] })

abbrev rebuilt : Process stacks process_host
rebuilt = (guarded_setup stacks process_host rebuild instrumented).1

set_up_once : Steps stacks process_host instrumented rebuilt
unfolding count
set_up_once =
    step instrumented rebuilt rebuilt
      (set_up rebuild instrumented null refl (refl, refl, refl) (λ h own. ground arith))
      (stop rebuilt)

attached_until_uninstrumented_example :
    ((instrument stacks process_host builtins defaults kwargs true pristine).0 ≡ ok tt)
    × (rebuilt.own_handler ≡ some 5)
    × (count 5 rebuilt.handlers ≡ 1)
    × ((uninstrument stacks process_host rebuilt).0 ≡ ok tt)
    × ((uninstrument stacks process_host rebuilt).1.handlers ≡ without 5 rebuilt.handlers)
    × ((uninstrument stacks process_host rebuilt).1.factory ≡ foreign 0)
    × ((t : Target) → (uninstrument stacks process_host rebuilt).1.modules t ≡ some [])
unfolding count configure_format set_logging_format env_flag handler_level resolve_log_level
    get_default get lookup pure
attached_until_uninstrumented_example =
    attached_until_uninstrumented stacks process_host stacks-Replaces builtins defaults kwargs
      pristine pristine (int (pos 10)) 5 6 [] refl refl refl refl rebuilt refl set_up_once

-- A consumer of messages on the in-memory API, whose spans are numbered from 6 on.
abbrev records : Records memory
records = record {
  Args = String;
  old_factory = λ message w. (ok (item "msg" (str message) end), w);
  span_of = λ c. c;
  trace_id = λ span. "t";
  span_id = λ span. if nat_eq span 6 then "s6" else "s";
  sampled = λ span. bool true;
  provider = λ w. null;
}

records-Documented : Documented memory records
records-Documented = record {
  set = λ s c. refl;
  makes = λ a w. (item "msg" (str a) end, refl);
  keeps = λ a w. refl;
}

abbrev message_ctxt : Items
message_ctxt = item "request_id" (str "req-1") end

abbrev message_body : Items
message_body = item "method" (str "start") end

abbrev incoming : Value
incoming = obj [] (attr "ctxt" (dict message_ctxt) (attr "message" (dict message_body) bare))

abbrev handler : List Value → Items → Exec World Value
handler args given w = (ok null, w)

abbrev consumer : World
consumer = record quiet { current = some 5; next = 6 }

dispatch_records-correlate_example :
    (run : RunsInSpan memory
      (rpc_server_wrapper repr memory handler (incoming ∷ []) end consumer)
      SpanKind.consumer
      (some 5)
      (memory.attach (some 5) consumer).1
      (λ span. handler (incoming ∷ []) end)
      (memory.detach (memory.attach (some 5) consumer).0))
    × (made : Items) × ((record_factory (logging_of memory records) "up" (
          state_of memory records
            (inside memory run.args run.notes (memory.attach (some 5) consumer).1)
            (str "nova"))).0
        ≡ ok made)
    × (lookup "otelTraceID" made ≡ some (str "t"))
    × (lookup "otelSpanID" made
        ≡ some (
            str (
              if nat_eq (span_from memory run.args run.notes (memory.attach (some 5) consumer).1) 6
              then "s6"
              else "s")))
    × (lookup "otelServiceName" made ≡ some (str "nova"))
unfolding arg lookup
dispatch_records-correlate_example =
    dispatch_records-correlate memory records records-Documented "up" (str "nova") refl repr
      memory-KeepsContext handler (incoming ∷ []) end message_ctxt message_body none consumer refl
      (record { ctxt = refl; message = refl; extracted = refl })
