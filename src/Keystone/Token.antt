-- ===== src/Keystone/Token.antt =====
-- keystonemiddleware/__init__.py: what the authentication's span gets from the request.
use opentelemetry_openstack.Prelude.{
  String, Bool, false, Option, none, some, List, [], ◌∷◌, if◌then◌else◌,
}
use opentelemetry_openstack.Py.Value.{
  Value, Values, nil, cons, bool, str, tuple, truthy, is_none, text_of, is_exception, Result, ok,
  err, getattr, getattr_required,
}
use opentelemetry_openstack.Py.Exec.{lift, pure, ◌>>=◌, ◌>>◌}
use opentelemetry_openstack.Py.Builtins.{Builtins}
use opentelemetry_openstack.Otel.Semconv
use opentelemetry_openstack.Otel.Span.{Note, attribute, Recorder, emit}

abbrev pub user_token_present : String
user_token_present = "keystonemiddleware.user_token.present"

abbrev pub user_token_valid : String
user_token_valid = "keystonemiddleware.user_token.valid"

abbrev pub service_token_present : String
service_token_present = "keystonemiddleware.service_token.present"

abbrev pub service_token_valid : String
service_token_valid = "keystonemiddleware.service_token.valid"

abbrev pub openstack_project_id : String
openstack_project_id = "openstack.project_id"

abbrev pub openstack_project_name : String
openstack_project_name = "openstack.project_name"

abbrev pub openstack_domain_id : String
openstack_domain_id = "openstack.domain_id"

-- `try: bool(r)  except Exception: otherwise`
abbrev pub truth_or {ℓ} : {A : Type ℓ} → (Bool → A) → A → Result Value → Result A
truth_or found otherwise (ok v) = ok (found (truthy v))
truth_or found otherwise (err e) = if is_exception e then ok otherwise else err e

-- `_token_present`
unfoldable pub token_present : Value → String → Result Bool
token_present request name = truth_or (λ v. v) false (getattr request name)

-- `_token_valid`
unfoldable pub token_valid : Value → String → Result (Option Bool)
token_valid request name = truth_or some none (getattr_required request name)

abbrev pub flag : String → Option Bool → List Note
flag key none = []
flag key (some v) = attribute key (bool v) ∷ []

module _ (b : Builtins) where
  -- `_set_str`
  unfoldable pub set_str : String → Value → List Note
  set_str key v = if truthy v then attribute key (str (text_of b.repr v)) ∷ [] else []

  -- `_set_str(span, key, getattr(auth_ref, name, None))`
  unfoldable pub set_field : Value → String → String → Recorder (Unit {0})
  unfolding set_str
  set_field auth_ref key name = do v ← lift (getattr auth_ref name); emit (set_str key v)

  -- `tuple(str(r) for r in values)`
  unfoldable pub texts : Values → Values
  texts nil = nil
  texts (cons v vs) = cons (str (text_of b.repr v)) (texts vs)

  unfoldable pub record_roles : Value → Recorder (Unit {0})
  record_roles role_names =
      if truthy role_names
      then (do
        roles ← lift (b.iterate role_names)
        emit (attribute Semconv.user_roles (tuple (texts roles)) ∷ []))
      else pure tt

  -- The part of `_record_identity` after its early return.
  unfoldable pub record_user : Value → Recorder (Unit {0})
  record_user auth_ref = do
    set_field auth_ref Semconv.user_id "user_id"
    set_field auth_ref Semconv.user_name "username"
    set_field auth_ref openstack_project_id "project_id"
    set_field auth_ref openstack_project_name "project_name"
    set_field auth_ref openstack_domain_id "domain_id"
    role_names ← lift (getattr auth_ref "role_names")
    record_roles role_names

  -- `_record_identity`
  unfoldable pub record_identity : Value → Recorder (Unit {0})
  record_identity request = do
    token_auth ← lift (getattr request "token_auth")
    auth_ref ← lift (getattr token_auth "user")
    if is_none auth_ref then pure tt else record_user auth_ref

-- The part of `_record_request` on one token: whether it was present, and whether it was accepted.
unfoldable pub record_token : Value → String → String → String → String → Recorder (Option Bool)
record_token request name present_key valid_name valid_key = do
  present ← lift (token_present request name)
  emit (attribute present_key (bool present) ∷ [])
  valid ← lift (if present then token_valid request valid_name else ok none)
  emit (flag valid_key valid)
  pure valid

-- `if user_valid:`
abbrev pub is_valid : Option Bool → Bool
is_valid none = false
is_valid (some v) = v

module _ (b : Builtins) where
  -- The part of `_record_request` after its early return.
  unfoldable pub record_tokens : Value → Recorder (Unit {0})
  record_tokens request = do
    user ← record_token request "user_token" user_token_present "user_token_valid" user_token_valid
    service ←
        record_token request "service_token" service_token_present "service_token_valid"
          service_token_valid
    if is_valid user then record_identity b request else pure tt

  -- `_record_request`
  unfoldable pub record_request : Value → Recorder (Unit {0})
  record_request request = if is_none request then pure tt else record_tokens request
