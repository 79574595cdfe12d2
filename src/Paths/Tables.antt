-- ===== src/Paths/Tables.antt =====
-- The tables of path_config.go, path_roles.go, path_creds.go and path_rotate_root.go.
use vault_custom_secrets_eng.Base.{
  Bool, true, false, Option, none, some, List, [], ◌∷◌, ◌++◌, Bytes, codes,
}
use vault_custom_secrets_eng.Pveapi.Errors.{Result}
use vault_custom_secrets_eng.Host.{Host}
use vault_custom_secrets_eng.Host.Response.{Value, str, Outcome}
use vault_custom_secrets_eng.Host.Act.{Op}
use vault_custom_secrets_eng.Roles.{mode_token}
use vault_custom_secrets_eng.Roles.Write.{role_write}
use vault_custom_secrets_eng.Roles.Handlers.{
  role_existence_check, role_read, role_list, role_delete,
}
use vault_custom_secrets_eng.Creds.Handler.{handle_creds_read}
use vault_custom_secrets_eng.Rotation.Status.{rotation_existence_check, read_rotation_state}
use vault_custom_secrets_eng.Rotation.Rotate.{rotate_root}
use vault_custom_secrets_eng.ConfigPath.{
  config_existence_check, config_write, config_read, config_delete,
}
use vault_custom_secrets_eng.Paths.Fields.{
  FieldType, string_field, bool_field, duration_field, FieldSchema, Schema, FieldData, ◌>>=◌,
}
use vault_custom_secrets_eng.Paths.Requests.{
  requested_config, requested_force, given_role, requested_rotation, requested_name,
}

-- `logical.Operation`
pub data Operation : Type 0 where
  create_operation update_operation read_operation delete_operation list_operation : Operation

-- `framework.PathOperation`; a callback that panics has no result.
pub record PathOperation : Type 0 where
  pub callback : FieldData → Option (Op Outcome)
  pub forward_performance_standby : Bool
  pub forward_performance_secondary : Bool

-- `framework.Path`
pub record MountPath : Type 0 where
  pub pattern : Bytes
  pub fields : Schema
  pub operations : Operation → Option PathOperation
  pub existence_check : Option (FieldData → Option (Op (Result Bool)))

abbrev plain : (FieldData → Option (Op Outcome)) → Option PathOperation
plain callback = some (record {
  callback = callback;
  forward_performance_standby = false;
  forward_performance_secondary = false;
})

abbrev forwarded : (FieldData → Option (Op Outcome)) → Option PathOperation
forwarded callback = some (record {
  callback = callback;
  forward_performance_standby = true;
  forward_performance_secondary = true;
})

abbrev pub field : FieldType → Bool → Option Value → FieldSchema
field type required default = record { type = type; required = required; default = default }

-- The fields of `pathConfig`.
abbrev pub config_schema : Schema
config_schema =
    (codes "address", field string_field true none)
    ∷ (codes "token_id", field string_field true none)
    ∷ (codes "token_secret", field string_field true none)
    ∷ (codes "tls_skip_verify", field bool_field false (some (Value.bool false)))
    ∷ (codes "ca_cert", field string_field false none)
    ∷ (codes "default_ttl", field duration_field false none)
    ∷ (codes "default_max_ttl", field duration_field false none)
    ∷ (codes "force", field bool_field false none)
    ∷ []

-- The fields of the first path of `pathRoles`.
abbrev pub role_schema : Schema
role_schema =
    (codes "name", field string_field true none)
    ∷ (codes "group", field string_field true none)
    ∷ (codes "user_prefix", field string_field false (some (str (codes "vault"))))
    ∷ (codes "realm", field string_field false (some (str (codes "pve"))))
    ∷ (codes "ttl", field duration_field false none)
    ∷ (codes "max_ttl", field duration_field false none)
    ∷ (codes "mode", field string_field false (some (str mode_token)))
    ∷ []

abbrev pub creds_schema : Schema
creds_schema = (codes "name", field string_field true none) ∷ []

abbrev pub rotation_schema : Schema
rotation_schema =
    (codes "expected_token_id", field string_field true none)
    ∷ (codes "confirm_exclusive", field bool_field true none)
    ∷ (codes "recovery_token_id", field string_field false none)
    ∷ []

-- The callback of an operation, for each path.
module _ (host : Host) where
  unfoldable pub config_operations : Operation → Option PathOperation
  config_operations create_operation =
      plain (λ d. requested_config d >>= λ cfg. some (config_write host cfg))
  config_operations update_operation =
      plain (λ d. requested_config d >>= λ cfg. some (config_write host cfg))
  config_operations read_operation = plain (λ d. some (config_read host))
  config_operations delete_operation =
      plain (λ d. requested_force d >>= λ force. some (config_delete host force))
  config_operations list_operation = none

  -- `roleWrite` with the fields that the request sets; for the others its `Get` gives the schema's
  -- default, which is the last choice of `resolve`, and `role_of` of Paths/Requests reads it.
  abbrev pub write_role_request : FieldData → Option (Op Outcome)
  write_role_request d = do
    name ← requested_name d
    fields ← given_role d
    some (role_write host name fields)

  unfoldable pub role_operations : Operation → Option PathOperation
  role_operations create_operation = plain write_role_request
  role_operations update_operation = plain write_role_request
  role_operations read_operation =
      plain (λ d. requested_name d >>= λ name. some (role_read host name))
  role_operations delete_operation =
      plain (λ d. requested_name d >>= λ name. some (role_delete host name))
  role_operations list_operation = none

  unfoldable pub roles_operations : Operation → Option PathOperation
  roles_operations list_operation = plain (λ d. some (role_list host))
  roles_operations _ = none

  unfoldable pub creds_operations : Operation → Option PathOperation
  creds_operations read_operation =
      forwarded (λ d. requested_name d >>= λ name. some (handle_creds_read host name))
  creds_operations _ = none

  unfoldable pub rotation_operations : Operation → Option PathOperation
  rotation_operations read_operation = plain (λ d. some (read_rotation_state host))
  rotation_operations create_operation =
      forwarded (λ d. requested_rotation d >>= λ fields. some (rotate_root host fields))
  rotation_operations update_operation =
      forwarded (λ d. requested_rotation d >>= λ fields. some (rotate_root host fields))
  rotation_operations _ = none

  -- `pathConfig`
  unfoldable pub path_config : MountPath
  unfolding config_operations
  path_config = record {
    pattern = codes "config";
    fields = config_schema;
    operations = config_operations;
    existence_check = some (λ d. some (config_existence_check host));
  }

  -- `pathRotateRoot`
  unfoldable pub path_rotate_root : MountPath
  unfolding rotation_operations
  path_rotate_root = record {
    pattern = codes "rotate-root";
    fields = rotation_schema;
    operations = rotation_operations;
    existence_check = some (λ d. some (rotation_existence_check host));
  }

  -- The pattern of a name is the framework's.
  module _ (generic_name_regex : Bytes → Bytes) where
    -- `pathRoles`
    unfoldable pub path_roles : List MountPath
    unfolding role_operations roles_operations
    path_roles =
        record {
          pattern = codes "roles/" ++ generic_name_regex (codes "name");
          fields = role_schema;
          operations = role_operations;
          existence_check =
              some (λ d. requested_name d >>= λ name. some (role_existence_check host name));
        }
        ∷ record {
          pattern = codes "roles/?";
          fields = [];
          operations = roles_operations;
          existence_check = none;
        }
        ∷ []

    -- `pathCreds`
    unfoldable pub path_creds : MountPath
    unfolding creds_operations
    path_creds = record {
      pattern = codes "creds/" ++ generic_name_regex (codes "name");
      fields = creds_schema;
      operations = creds_operations;
      existence_check = none;
    }
