-- ===== src/Keystone/Refused.antt =====
-- keystonemiddleware/__init__.py: an authenticated request whose roles cannot be listed.
use opentelemetry_openstack.Prelude.{
  String, ◌≡◌, refl, Bool, true, false, Option, none, some, List, [], ◌++◌,
}
use opentelemetry_openstack.Py.Value.{Value, Items, Exn, ok, err, is_none, truthy, getattr}
use opentelemetry_openstack.Py.Exec.{Exec, reraising, try_except, ◌>>=◌}
use opentelemetry_openstack.Py.Builtins.{Builtins}
use opentelemetry_openstack.Otel.Span.{internal, Note, Telemetry, emit}
use opentelemetry_openstack.Keystone.Token.{
  record_tokens, record_request, record_identity, record_user, record_roles, set_field, set_str,
}
use opentelemetry_openstack.Keystone.Identity.{Reads, record_token-ok}
use opentelemetry_openstack.Keystone.Environ.{parent_context}
use opentelemetry_openstack.Keystone.Middleware.{
  Request, authentication_args, recording, authenticate, traced_process, process_request_wrapper,
  request_arg, with_current_span,
}

-- The request's user token is accepted, and its identity has roles that `tuple` cannot list.
pub record HasOddRoles (b : Builtins) (request : Value) (e : Exn) : Type 0 where
  pub given : is_none request ≡ false
  pub user : Reads request "user_token" "user_token_valid" true (some true)
  pub service : Bool
  pub service_valid : Option Bool
  pub service_reads : Reads request "service_token" "service_token_valid" service service_valid
  pub token_auth : Value
  pub auth_ref : Value
  pub has_token_auth : getattr request "token_auth" ≡ ok token_auth
  pub has_auth_ref : getattr token_auth "user" ≡ ok auth_ref
  pub known : is_none auth_ref ≡ false
  pub fields : (name : String) → (v : Value) × (getattr auth_ref name ≡ ok v)
  pub odd : truthy (fields "role_names").0 ≡ true
  pub refused : b.iterate (fields "role_names").0 ≡ err e

module _ (b : Builtins) (request : Value) (e : Exn) (h : HasOddRoles b request e) where
  set_field-ok :
      (key name : String) (notes : List Note)
      → set_field b h.auth_ref key name notes ≡ (ok tt, notes ++ set_str b key (h.fields name).0)
  unfolding set_field ◌>>=◌ emit
  set_field-ok key name notes = rw (h.fields name).1 refl

  record_user-raises : (notes : List Note) → (record_user b h.auth_ref notes).0 ≡ err e
  unfolding record_user record_roles ◌>>=◌
  record_user-raises notes =
      rw
        (
          set_field-ok _ "user_id" notes,
          set_field-ok _ "username" _,
          set_field-ok _ "project_id" _,
          set_field-ok _ "project_name" _,
          set_field-ok _ "domain_id" _,
          (h.fields "role_names").1,
          h.odd,
          h.refused,
        )
        refl

  record_request-raises : (notes : List Note) → (record_request b request notes).0 ≡ err e
  unfolding record_request record_tokens record_identity ◌>>=◌
  record_request-raises notes =
      rw
        (
          h.given,
          record_token-ok request "user_token" _ "user_token_valid" _ true (some true) notes h.user,
          record_token-ok request "service_token" _ "service_token_valid" _ h.service
              h.service_valid _ h.service_reads,
          h.has_token_auth,
          h.has_auth_ref,
          h.known,
        )
        (record_user-raises _)

  module _ (T : Telemetry) where
    -- The state in which the authentication's span has been started under a current span.
    abbrev pub authenticating : Request b T → Request b T
    authenticating s = record s {
      world = (T.start_as_current_span (authentication_args b T (none, internal)) s.world).1;
    }

    authenticate-raises :
        (wrapped : Exec (Request b T) Value) (span : T.Span) (s : Request b T) (v : Value)
        → (wrapped s).0 ≡ ok v
        → T.is_recording span (wrapped s).1.world ≡ true
        → (authenticate b T wrapped request span s).0 ≡ err e
    unfolding authenticate reraising try_except recording ◌>>=◌
    authenticate-raises wrapped span s v accepted on =
        rw (accepted, on, record_request-raises []) refl

    -- With instrumentation enabled and a span current: the middleware's `process_request`, called
    -- in the state in which the authentication's span has been started, returns, and that span
    -- records then. For a request with an accepted user token, whose identity has a true
    -- `role_names` that is refused as an iterable, and whose other fields can be read, the wrapper
    -- raises what the iteration raises.
    pub process_request_wrapper-raises :
        (wrapped : List Value → Items → Exec (Request b T) Value) (args : List Value)
        (kwargs : Items) (s : Request b T) (v : Value)
        → T.is_enabled s.world ≡ true
        → T.has_valid_span (T.get_current s.world) ≡ true
        → request_arg args kwargs ≡ request
        → (wrapped args kwargs (authenticating s)).0 ≡ ok v
        → T.is_recording
            (T.start_as_current_span (authentication_args b T (none, internal)) s.world).0.0
            (wrapped args kwargs (authenticating s)).1.world
          ≡ true
        → (process_request_wrapper b T wrapped args kwargs s).0 ≡ err e
    unfolding process_request_wrapper traced_process parent_context with_current_span ◌>>=◌
    process_request_wrapper-raises wrapped args kwargs s v enabled active asked accepted records =
        rw (enabled, active, asked)
          (authenticate-raises (wrapped args kwargs) _ (authenticating s) v accepted records)
