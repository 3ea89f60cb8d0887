-- ===== src/Keystone/Identity.antt =====
-- What an authentication's span shows of a request whose token was not accepted.
use opentelemetry_openstack.Prelude.{
  String, ◌≡◌, refl, Bool, false, Option, none, List, [], ◌∷◌, ◌++◌, if◌then◌else◌,
}
use opentelemetry_openstack.Py.Value.{Value, ok, is_none, bool}
use opentelemetry_openstack.Py.Exec.{◌>>=◌}
use opentelemetry_openstack.Py.Builtins.{Builtins}
use opentelemetry_openstack.Otel.Span.{Note, attribute, emit}
use opentelemetry_openstack.Keystone.Token.{
  token_present, token_valid, record_token, record_tokens, record_request, is_valid, flag,
  user_token_present, user_token_valid, service_token_present, service_token_valid,
}

-- Whether a token of the request was present and accepted, as far as this can be read.
pub record Reads (request : Value) (name valid_name : String) (present : Bool) (valid : Option Bool)
    : Type 0 where
  pub presence : token_present request name ≡ ok present
  pub validity : (if present then token_valid request valid_name else ok none) ≡ ok valid

pub record_token-ok :
    (request : Value) (name present_key valid_name valid_key : String) (present : Bool)
    (valid : Option Bool) (notes : List Note)
    → Reads request name valid_name present valid
    → record_token request name present_key valid_name valid_key notes
      ≡ (ok valid, (notes ++ attribute present_key (bool present) ∷ []) ++ flag valid_key valid)
unfolding record_token ◌>>=◌ emit
record_token-ok request name present_key valid_name valid_key present valid notes reads =
    rw (reads.presence, reads.validity) refl

-- Of a request whose user token was absent, refused, or of unknown validity, exactly the presence
-- and the validity of its two tokens are recorded, and nothing of an identity.
record_request-without_identity :
    (b : Builtins) (request : Value) (user service : Bool) (accepted service_accepted : Option Bool)
    → is_none request ≡ false
    → Reads request "user_token" "user_token_valid" user accepted
    → Reads request "service_token" "service_token_valid" service service_accepted
    → is_valid accepted ≡ false
    → record_request b request [] ≡ (
      ok tt,
      (((attribute user_token_present (bool user) ∷ []) ++ flag user_token_valid accepted)
            ++ attribute service_token_present (bool service) ∷ [])
          ++ flag service_token_valid service_accepted,
    )
unfolding record_request record_tokens ◌>>=◌
record_request-without_identity b request user service accepted service_accepted given u v refused =
    rw
      (
        given,
        record_token-ok request "user_token" user_token_present "user_token_valid" user_token_valid
            user accepted [] u,
        record_token-ok request "service_token" service_token_present "service_token_valid"
            service_token_valid service service_accepted _ v,
        refused,
      )
      refl
