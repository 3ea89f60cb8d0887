-- ===== src/Messaging/Tests.antt =====
-- Runs of the oslo.messaging wrappers over the in-memory API, and the theorems at concrete
-- messages.
use opentelemetry_openstack.Prelude.{
  ℕ, String, ◌≡◌, refl, true, false, Option, none, some, List, [], ◌∷◌, map,
}
use opentelemetry_openstack.Py.Value.{
  Value, null, bool, str, dict, obj, Items, end, item, attr, bare, ok, err, attribute_error, put,
  get, get_default, lookup,
}
use opentelemetry_openstack.Py.Exec.{Exec, ◌>>=◌}
use opentelemetry_openstack.Otel.Span.{
  producer, consumer, emit, on_span, with_span, open_span, note_all, attribute, Note, SpanArgs,
}
use opentelemetry_openstack.Otel.Bodies.{RunsInSpan}
use opentelemetry_openstack.Otel.Memory.{
  World, memory, quiet, memory-KeepsContext, memory-Propagates,
}
use opentelemetry_openstack.Messaging.Names.{
  arg, producer_messaging_system, messaging_system_for_driver, driver_by_incoming_module, walk_mro,
  consumer_messaging_system,
}
use opentelemetry_openstack.Messaging.Attributes.{set_rpc_attributes, set_notification_attributes}
use opentelemetry_openstack.Messaging.Producer.{
  replace_ctxt, span_name, record_send, inject_and_send, send_span, traced_send, inject_wrapper,
}
use opentelemetry_openstack.Messaging.Consumer.{
  record_rpc, record_notification, attached, message_context, traced_dispatch, traced_rpc,
  rpc_server_wrapper, traced_notification, notification_server_wrapper,
}
use opentelemetry_openstack.Messaging.Scope.{wrappers-restore}
use opentelemetry_openstack.Messaging.Delivery.{
  IsSendable, rpc_server_wrapper-delivers, notification_server_wrapper-delivers,
  rpc_server_wrapper-raises, inject_wrapper-delivers,
}
use opentelemetry_openstack.Messaging.Continuity.{
  Delivers, sent_ctxt, SentOnce, HandledOnce, trace_continues,
}

sends : Unit {0}
unfolding inject_wrapper traced_send record_send send_span inject_and_send replace_ctxt span_name
    on_span with_span open_span emit ◌>>=◌ producer_messaging_system messaging_system_for_driver arg
    get lookup put set_rpc_attributes set_notification_attributes note_all
sends = tt

receives : Unit {0}
unfolding rpc_server_wrapper traced_rpc notification_server_wrapper traced_notification record_rpc
    record_notification attached message_context traced_dispatch on_span with_span open_span emit
    ◌>>=◌ consumer_messaging_system walk_mro driver_by_incoming_module messaging_system_for_driver
    arg get get_default lookup put set_rpc_attributes set_notification_attributes note_all
receives = tt

-- No value but a text is formatted in these runs.
abbrev pub show : Value → String
show v = "?"

-- A transport or a handler that leaks a context of its own.
abbrev pub leaky : List Value → Items → Exec World Value
leaky args kwargs w = (ok null, record w { current = some 77 })

-- One that raises.
abbrev pub failing : List Value → Items → Exec World Value
failing args kwargs w = (err attribute_error, record w { current = some 78 })

abbrev url : Value
url = obj [] (attr "transport" (str "rabbit+ssl") bare)

abbrev pub transport : Value
transport = obj [] (attr "_driver" (obj [] (attr "_url" url bare)) bare)

abbrev target : Value
target = obj [] (attr "topic" (str "compute") bare)

abbrev pub ctxt : Items
ctxt = item "request_id" (str "req-1") end

abbrev pub body : Items
body = item "method" (str "start") (item "namespace" (str "ns") (item "args" (str "secret") end))

abbrev pub send_args : List Value
send_args = target ∷ dict ctxt ∷ dict body ∷ bool true ∷ []

abbrev pub received : Value → Value
received c =
    obj ("oslo_messaging._drivers.amqpdriver" ∷ [])
      (attr "ctxt" c (attr "message" (dict body) bare))

abbrev busy : World
busy = record quiet { current = some 5; next = 6 }

abbrev notes_of : World → List Note
notes_of w = map (λ (s, n). n) w.notes

send_notes :
    notes_of (inject_wrapper show memory false leaky transport send_args end busy).1
    ≡ attribute "messaging.message.conversation_id" (str "req-1")
      ∷ attribute "openstack.request_id" (str "req-1")
      ∷ attribute "rpc.service" (str "ns")
      ∷ attribute "rpc.method" (str "start")
      ∷ attribute "rpc.system" (str "oslo.messaging")
      ∷ attribute "messaging.operation.name" (str "call")
      ∷ attribute "messaging.operation" (str "call")
      ∷ attribute "messaging.system" (str "rabbitmq")
      ∷ attribute "messaging.destination.name" (str "compute")
      ∷ []
unfolding sends
send_notes = refl

receive_name :
    map
      (λ (n, a). SpanArgs.name a)
      (rpc_server_wrapper show memory leaky (received (dict ctxt) ∷ []) end busy).1.started
    ≡ "ns.start receive" ∷ []
unfolding receives
receive_name = refl

pub is_sendable : IsSendable transport send_args end
unfolding sends
is_sendable = record {
  system = "rabbitmq";
  topic = str "compute";
  exchange = null;
  driver = refl;
  has_topic = refl;
  has_exchange = refl;
}

pub delivery : Delivers received body
delivery = record { ctxt = λ v. refl; message = λ v. refl }

wrappers-restore_example :
    (memory.get_current
        (rpc_server_wrapper show memory leaky (received (dict ctxt) ∷ []) end busy).1
      ≡ some 5)
    × (memory.get_current
          (notification_server_wrapper show memory leaky (received (dict ctxt) ∷ []) end busy).1
        ≡ some 5)
    × (memory.get_current
          (inject_wrapper show memory false leaky transport (received (dict ctxt) ∷ []) end busy).1
        ≡ some 5)
wrappers-restore_example =
    wrappers-restore show memory memory-KeepsContext leaky (received (dict ctxt) ∷ []) end busy refl
      false transport

inject_wrapper-delivers_example :
    RunsInSpan memory
      (inject_wrapper show memory false leaky transport send_args end busy)
      producer
      (some 5)
      busy
      (λ span.
        leaky
          (replace_ctxt (memory.inject (some span)) send_args end).0
          (replace_ctxt (memory.inject (some span)) send_args end).1)
      (λ v. v)
inject_wrapper-delivers_example =
    inject_wrapper-delivers show memory memory-KeepsContext false leaky transport send_args end busy
      refl is_sendable

rpc_server_wrapper-delivers_example :
    RunsInSpan memory
      (rpc_server_wrapper show memory failing (received (dict ctxt) ∷ []) end busy)
      consumer
      (some 5)
      (memory.attach (some 5) busy).1
      (λ span. failing (received (dict ctxt) ∷ []) end)
      (memory.detach (memory.attach (some 5) busy).0)
unfolding receives
rpc_server_wrapper-delivers_example =
    rpc_server_wrapper-delivers show memory memory-KeepsContext failing (received (dict ctxt) ∷ [])
      end ctxt body none busy refl (record { ctxt = refl; message = refl; extracted = refl })

-- A body that is no mapping.
abbrev odd : Value
odd =
    obj ("oslo_messaging._drivers.impl_kafka" ∷ [])
      (attr "ctxt" (dict ctxt) (attr "message" (str "text") bare))

notification_server_wrapper-delivers_example :
    RunsInSpan memory
      (notification_server_wrapper show memory leaky (odd ∷ []) end busy)
      consumer
      (some 5)
      (memory.attach (some 5) busy).1
      (λ span. leaky (odd ∷ []) end)
      (memory.detach (memory.attach (some 5) busy).0)
unfolding receives
notification_server_wrapper-delivers_example =
    notification_server_wrapper-delivers show memory memory-KeepsContext leaky (odd ∷ []) end ctxt
      (str "text") none busy refl refl refl refl

rpc_server_wrapper-raises_example :
    rpc_server_wrapper show memory leaky (odd ∷ []) end busy ≡ (err attribute_error, busy)
unfolding receives
rpc_server_wrapper-raises_example =
    rpc_server_wrapper-raises show memory memory-KeepsContext leaky (odd ∷ []) end ctxt (str "text")
      none busy refl refl refl refl refl refl

trace_continues_example :
    (sent : SentOnce show memory leaky transport send_args end busy) × (c : Option ℕ) × (c
      ≡ some (memory.start_span sent.args busy).0)
    × HandledOnce show memory failing
        (received (sent_ctxt memory c send_args end) ∷ [])
        (memory-Propagates.remote c)
        quiet
unfolding sends
trace_continues_example =
    trace_continues show memory memory-KeepsContext memory-Propagates (λ s c. refl) leaky failing
      transport send_args end ctxt body busy quiet received refl refl is_sendable refl delivery
