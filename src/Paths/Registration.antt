-- ===== src/Paths/Registration.antt =====
-- The tables of secret_token.go and secret_password.go, and `newBackend` of backend.go, which puts
-- all tables together.
use vault_custom_secrets_eng.Base.{ℕ, ◌*◌, false, Option, none, List, [], ◌∷◌, ◌++◌, Bytes, codes}
use vault_custom_secrets_eng.Pveapi.Errors.{Error, Result}
use vault_custom_secrets_eng.Pveapi.Wire.{Wire}
use vault_custom_secrets_eng.Pveapi.Client.{ClientConfig, HttpClient}
use vault_custom_secrets_eng.Pveapi.Client
use vault_custom_secrets_eng.Host.{Host}
use vault_custom_secrets_eng.Host.Data.{Config, WalUser, RotationState}
use vault_custom_secrets_eng.Host.Response.{Lease, Outcome}
use vault_custom_secrets_eng.Host.Act.{Op}
use vault_custom_secrets_eng.Backend.{invalidate}
use vault_custom_secrets_eng.Roles.Ttls.{nanoseconds}
use vault_custom_secrets_eng.Lease.{secret_token_renew, secret_token_revoke}
use vault_custom_secrets_eng.Wal.Rotation.{wal_rollback}
use vault_custom_secrets_eng.Paths.Fields.{string_field, FieldSchema, Schema}
use vault_custom_secrets_eng.Paths.Tables.{
  field, MountPath, path_config, path_roles, path_creds, path_rotate_root,
}

-- `framework.Secret`
pub record Secret : Type 0 where
  pub type : Bytes
  pub fields : Schema
  pub renew : Lease → Op Outcome
  pub revoke : Lease → Op Outcome

abbrev text_field : FieldSchema
text_field = field string_field false none

module _ (host : Host) where
  -- `secretToken`
  unfoldable pub secret_token : Secret
  secret_token = record {
    type = codes "token";
    fields =
        (codes "token_id", text_field)
        ∷ (codes "token_secret", text_field)
        ∷ (codes "user_id", text_field)
        ∷ [];
    renew = secret_token_renew host;
    revoke = secret_token_revoke host;
  }

  -- `secretPassword`
  unfoldable pub secret_password : Secret
  secret_password = record {
    type = codes "password";
    fields = (codes "user_id", text_field) ∷ (codes "password", text_field) ∷ [];
    renew = secret_token_renew host;
    revoke = secret_token_revoke host;
  }

-- `framework.Backend`, and the factory of clients that the tests replace.
pub record Engine : Type 0 where
  pub new_client : Config → Result HttpClient
  pub seal_wrap_storage : List Bytes
  pub paths : List MountPath
  pub secrets : List Secret
  pub wal_rollback : Bytes → Result WalUser → Result RotationState → Op (Option Error)
  pub wal_rollback_min_age : ℕ
  pub invalidate : Bytes → Op Unit

-- The client's configuration.
unfoldable pub client_config : Config → ClientConfig
client_config cfg = record {
  address = cfg.address;
  token_id = cfg.token_id;
  token_secret = cfg.token_secret;
  tls_skip_verify = cfg.tls_skip_verify;
  ca_cert = cfg.ca_cert;
}

-- `newBackend`, before `Setup`.
unfoldable pub new_backend : Host → Wire → (Bytes → Bytes) → Engine
unfolding path_config path_roles path_creds path_rotate_root secret_token secret_password
    client_config
new_backend host wire generic_name_regex = record {
  new_client = λ cfg. Client.new_client wire (client_config cfg);
  seal_wrap_storage = codes "config" ∷ [];
  paths =
      path_config host
      ∷ (path_roles host generic_name_regex
          ++ path_creds host generic_name_regex ∷ path_rotate_root host ∷ []);
  secrets = secret_token host ∷ secret_password host ∷ [];
  wal_rollback = wal_rollback host;
  wal_rollback_min_age = 5 * 60 * nanoseconds;
  invalidate = invalidate;
}
