-- ===== src/Messaging/Scope.antt =====
-- decorators.py: the current context before and after the wrappers.
use opentelemetry_openstack.Prelude.{◌≡◌, true, String, List, Bool}
use opentelemetry_openstack.Py.Value.{Value, Items}
use opentelemetry_openstack.Py.Exec.{Exec}
use opentelemetry_openstack.Otel.Span.{Telemetry}
use opentelemetry_openstack.Otel.Laws.{KeepsContext}
use opentelemetry_openstack.Otel.Restores.{Restores, restores_rules}
use opentelemetry_openstack.Messaging.Producer.{traced_send, inject_wrapper}
use opentelemetry_openstack.Messaging.Consumer.{
  attached, message_context, traced_rpc, traced_notification, rpc_server_wrapper,
  notification_server_wrapper,
}

module _ (repr : Value → String) (T : Telemetry) (laws : KeepsContext T) where
  attached-Restores :
      (c : T.Context) (body : Exec T.World Value) → Restores T (attached repr T c body)
  unfolding attached
  attached-Restores c body = record { at = λ w. laws.detached c w _ }

  message_context-Restores : (ctxt : Value) → Restores T (message_context repr T ctxt)
  unfolding message_context
  message_context-Restores ctxt = search restores_rules

  ruleset scope_rules = (restores_rules, attached-Restores, message_context-Restores)

  module _ (wrapped : List Value → Items → Exec T.World Value) (args : List Value)
      (kwargs : Items) where
    traced_rpc-Restores : Restores T (traced_rpc repr T wrapped args kwargs)
    unfolding traced_rpc
    traced_rpc-Restores = search scope_rules depth 20

    traced_notification-Restores : Restores T (traced_notification repr T wrapped args kwargs)
    unfolding traced_notification
    traced_notification-Restores = search scope_rules depth 20

    traced_send-Restores :
        (is_notification : Bool) (instance : Value)
        → Restores T (traced_send repr T is_notification wrapped instance args kwargs)
    unfolding traced_send
    traced_send-Restores is_notification instance = search scope_rules depth 20

    module _ (w : T.World) (enabled : T.is_enabled w ≡ true) where
      rpc_server_wrapper-restores :
          T.get_current (rpc_server_wrapper repr T wrapped args kwargs w).1 ≡ T.get_current w
      unfolding rpc_server_wrapper
      rpc_server_wrapper-restores = rw enabled (traced_rpc-Restores.at w)

      notification_server_wrapper-restores :
          T.get_current (notification_server_wrapper repr T wrapped args kwargs w).1
          ≡ T.get_current w
      unfolding notification_server_wrapper
      notification_server_wrapper-restores = rw enabled (traced_notification-Restores.at w)

      inject_wrapper-restores :
          (is_notification : Bool) (instance : Value)
          → T.get_current (inject_wrapper repr T is_notification wrapped instance args kwargs w).1
            ≡ T.get_current w
      unfolding inject_wrapper
      inject_wrapper-restores is_notification instance =
          rw enabled ((traced_send-Restores is_notification instance).at w)

      -- With instrumentation enabled, an RPC dispatch, the dispatch of a notification and a send
      -- each leave the current context as it was, whether the wrapped call or the reading of the
      -- message returns or raises, and whatever the wrapped call does to the context.
      pub wrappers-restore :
          (is_notification : Bool) (instance : Value)
          → (T.get_current (rpc_server_wrapper repr T wrapped args kwargs w).1 ≡ T.get_current w)
            × (T.get_current (notification_server_wrapper repr T wrapped args kwargs w).1
                ≡ T.get_current w)
            × (T.get_current
                  (inject_wrapper repr T is_notification wrapped instance args kwargs w).1
                ≡ T.get_current w)
      wrappers-restore is_notification instance = (
        rpc_server_wrapper-restores,
        notification_server_wrapper-restores,
        inject_wrapper-restores is_notification instance,
      )
