-- ===== src/Engine/Updates.antt =====
-- Whatever is asked of the engine, it updates a user only right after it has read it enabled.
use vault_custom_secrets_eng.Base.{subst, Option, none, some, Bool, All, Bytes, arith}
use vault_custom_secrets_eng.Pveapi.Errors.{Result}
use vault_custom_secrets_eng.Pveapi.Wire.{Wire}
use vault_custom_secrets_eng.Host.{Host}
use vault_custom_secrets_eng.Host.Data.{WalUser, RotationState}
use vault_custom_secrets_eng.Host.Response.{Lease}
use vault_custom_secrets_eng.Host.Act.{State, Op, delete_user, storage_get, new_client}
use vault_custom_secrets_eng.Backend.{invalidate, get_client, build_client, get_config}
use vault_custom_secrets_eng.Lease.{secret_token_revoke}
use vault_custom_secrets_eng.Lease.Renew.{IsGuarded, secret_token_renew-IsGuarded}
use vault_custom_secrets_eng.Wal.Rotation.{wal_rollback}
use vault_custom_secrets_eng.Paths.Fields.{FieldData, ◌>>=◌}
use vault_custom_secrets_eng.Paths.Requests.{
  requested_config, requested_force, given_role, requested_rotation, requested_name,
}
use vault_custom_secrets_eng.Paths.Tables.{
  Operation, create_operation, update_operation, read_operation, delete_operation, list_operation,
  PathOperation, MountPath, config_operations, role_operations, roles_operations, creds_operations,
  rotation_operations, path_config, path_roles, path_creds, path_rotate_root, write_role_request,
}
use vault_custom_secrets_eng.Paths.Registration.{Secret, secret_token, secret_password, new_backend}
use vault_custom_secrets_eng.Paths.Total.{All-IsAmong}
use vault_custom_secrets_eng.Engine.Guards.{Guards}
use vault_custom_secrets_eng.Engine.Handlers.{
  config_existence_check-Guards, config_write-Guards, config_read-Guards, config_delete-Guards,
  role_existence_check-Guards, role_read-Guards, role_list-Guards, role_delete-Guards,
  role_write-Guards,
}
use vault_custom_secrets_eng.Engine.Issues.{handle_creds_read-Guards, wal_rollback_user-Guards}
use vault_custom_secrets_eng.Engine.Recoveries.{wal_rollback_rotation-Guards}
use vault_custom_secrets_eng.Engine.Rotations.{
  rotation_existence_check-Guards, read_rotation_state-Guards, rotate_root-Guards,
}
use vault_custom_secrets_eng.Engine.Steps.{
  EngineStep, request, existence, renewal, revocation, rollback, notice, EngineRun, here, later,
}

-- A callback that runs keeps the log guarded.
RunGuards : {A : Type 0} → Option (Op A) → Type 0
RunGuards none = Unit
RunGuards (some run) = Guards run

OperationGuards : Option PathOperation → Type 0
OperationGuards none = Unit
OperationGuards (some po) = (d : FieldData) → RunGuards (po.callback d)

CheckGuards : Option (FieldData → Option (Op (Result Bool))) → Type 0
CheckGuards none = Unit
CheckGuards (some check) = (d : FieldData) → RunGuards (check d)

then-RunGuards :
    {A B : Type 0} (m : Option A) (k : A → Option (Op B))
    → ((a : A) → RunGuards (k a))
    → RunGuards (m >>= k)
unfolding RunGuards
then-RunGuards none k h = tt
then-RunGuards (some a) k h = h a

bind-RunGuards :
    {A B : Type 0} (m : Option A) (f : A → Op B)
    → ((a : A) → Guards (f a))
    → RunGuards (m >>= λ a. some (f a))
unfolding RunGuards
bind-RunGuards m f h = then-RunGuards m (λ a. some (f a)) h

module _ (host : Host) where
  config-Guards : (op : Operation) → OperationGuards (config_operations host op)
  unfolding config_operations OperationGuards RunGuards
  config-Guards create_operation =
      λ d. bind-RunGuards (requested_config d) _ (config_write-Guards host)
  config-Guards update_operation =
      λ d. bind-RunGuards (requested_config d) _ (config_write-Guards host)
  config-Guards read_operation = λ d. config_read-Guards host
  config-Guards delete_operation =
      λ d. bind-RunGuards (requested_force d) _ (config_delete-Guards host)
  config-Guards list_operation = tt

  write_role_request-Guards : (d : FieldData) → RunGuards (write_role_request host d)
  write_role_request-Guards d =
      then-RunGuards (requested_name d) _
        λ name. bind-RunGuards (given_role d) _ (role_write-Guards host name)

  role-Guards : (op : Operation) → OperationGuards (role_operations host op)
  unfolding role_operations OperationGuards
  role-Guards create_operation = write_role_request-Guards
  role-Guards update_operation = write_role_request-Guards
  role-Guards read_operation = λ d. bind-RunGuards (requested_name d) _ (role_read-Guards host)
  role-Guards delete_operation = λ d. bind-RunGuards (requested_name d) _ (role_delete-Guards host)
  role-Guards list_operation = tt

  roles-Guards : (op : Operation) → OperationGuards (roles_operations host op)
  unfolding roles_operations OperationGuards RunGuards
  roles-Guards list_operation = λ d. role_list-Guards host
  roles-Guards _ = tt

  creds-Guards : (op : Operation) → OperationGuards (creds_operations host op)
  unfolding creds_operations OperationGuards
  creds-Guards read_operation =
      λ d. bind-RunGuards (requested_name d) _ (handle_creds_read-Guards host)
  creds-Guards _ = tt

  rotation-Guards : (op : Operation) → OperationGuards (rotation_operations host op)
  unfolding rotation_operations OperationGuards RunGuards
  rotation-Guards read_operation = λ d. read_rotation_state-Guards host
  rotation-Guards create_operation =
      λ d. bind-RunGuards (requested_rotation d) _ (rotate_root-Guards host)
  rotation-Guards update_operation =
      λ d. bind-RunGuards (requested_rotation d) _ (rotate_root-Guards host)
  rotation-Guards _ = tt

  revoke-Guards : (lease : Lease) → Guards (secret_token_revoke host lease)
  unfolding secret_token_revoke delete_user get_client build_client get_config storage_get
      new_client
  revoke-Guards lease s h = ground arith

  wal_rollback-Guards :
      (kind : Bytes) (as_user : Result WalUser) (as_rotation : Result RotationState)
      → Guards (wal_rollback host kind as_user as_rotation)
  unfolding wal_rollback
  wal_rollback-Guards kind as_user as_rotation s h = ground (
    arith,
    wal_rollback_user-Guards host as_user s h,
    wal_rollback_rotation-Guards host as_rotation s h,
  )

invalidate-Guards : (key : Bytes) → Guards (invalidate key)
unfolding invalidate
invalidate-Guards key s h = ground arith

PathGuards : MountPath → Type 0
PathGuards path =
    ((op : Operation) → OperationGuards (path.operations op)) × CheckGuards path.existence_check

SecretGuards : Secret → Type 0
SecretGuards secret =
    ((lease : Lease) → Guards (secret.renew lease))
    × ((lease : Lease) → Guards (secret.revoke lease))

module _ (host : Host) (wire : Wire) (regex : Bytes → Bytes) where
  paths-PathGuards : All PathGuards (new_backend host wire regex).paths
  unfolding new_backend path_config path_roles path_creds path_rotate_root PathGuards CheckGuards
      RunGuards
  paths-PathGuards = (
    (config-Guards host, λ d. config_existence_check-Guards host),
    (
      (
        role-Guards host,
        λ d. bind-RunGuards (requested_name d) _ (role_existence_check-Guards host),
      ),
      (
        (roles-Guards host, tt),
        (
          (creds-Guards host, tt),
          ((rotation-Guards host, λ d. rotation_existence_check-Guards host), tt),
        ),
      ),
    ),
  )

  secrets-SecretGuards : All SecretGuards (new_backend host wire regex).secrets
  unfolding new_backend secret_token secret_password SecretGuards
  secrets-SecretGuards = (
    (secret_token_renew-IsGuarded host, revoke-Guards host),
    ((secret_token_renew-IsGuarded host, revoke-Guards host), tt),
  )

  EngineStep-Guards :
      {s t : State}
      → EngineStep (new_backend host wire regex) s t
      → IsGuarded s.log
      → IsGuarded t.log
  unfolding new_backend PathGuards OperationGuards CheckGuards RunGuards SecretGuards
  EngineStep-Guards {s} (request path op po d run among e r) h =
      let path_guards =
        All-IsAmong PathGuards path (new_backend host wire regex).paths paths-PathGuards among in
      let op_guards = subst OperationGuards e (path_guards.0 op) in
      subst RunGuards r (op_guards d) s h
  EngineStep-Guards {s} (existence path check d run among e r) h =
      let path_guards =
        All-IsAmong PathGuards path (new_backend host wire regex).paths paths-PathGuards among in
      subst RunGuards r (subst CheckGuards e path_guards.1 d) s h
  EngineStep-Guards {s} (renewal secret lease among) h =
      (All-IsAmong SecretGuards secret (new_backend host wire regex).secrets secrets-SecretGuards
          among).0
        lease s h
  EngineStep-Guards {s} (revocation secret lease among) h =
      (All-IsAmong SecretGuards secret (new_backend host wire regex).secrets secrets-SecretGuards
          among).1
        lease s h
  EngineStep-Guards {s} (rollback kind as_user as_rotation) h =
      wal_rollback-Guards host kind as_user as_rotation s h
  EngineStep-Guards {s} (notice key) h = invalidate-Guards key s h

  -- In every sequence of requests, renewals, revocations, WAL rollbacks and notices of changes that
  -- Vault may bring to the backend of newBackend, whatever storage and PVE answer: each update of a
  -- user came right after a read that found the user enabled, and has a positive expiry, a group, the
  -- enabled state and append.
  pub engine_updates-IsGuarded :
      {start s : State}
      → IsGuarded start.log
      → EngineRun (new_backend host wire regex) start s
      → IsGuarded s.log
  engine_updates-IsGuarded h here = h
  engine_updates-IsGuarded h (later run step) =
      EngineStep-Guards step (engine_updates-IsGuarded h run)
