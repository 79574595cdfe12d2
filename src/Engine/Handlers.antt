-- ===== src/Engine/Handlers.antt =====
-- The handlers of path_config.go and path_roles.go update no user.
use vault_custom_secrets_eng.Roles.Write.{
  check_limits, check_mode, check_names, check_role, role_client, write_with, check_cluster,
  check_build, store_role, refuse_group, refuse_read, is_verified, written, role_write, write_role,
  RoleFields,
}
use vault_custom_secrets_eng.Base.{Bool, Bytes, arith}
use vault_custom_secrets_eng.Host.{Host}
use vault_custom_secrets_eng.Host.Data.{Config, Role}
use vault_custom_secrets_eng.Host.Act.{
  try, storage_get, storage_put, storage_delete, storage_list, new_client, get_version_info,
  get_permissions, get_group,
}
use vault_custom_secrets_eng.Backend.{get_config, get_client, build_client, invalidate}
use vault_custom_secrets_eng.Lease.Renew.{IsGuarded-after}
use vault_custom_secrets_eng.ConfigPath.{
  config_existence_check, check_fields, refuse_call, vet, store_config, config_write, config_read,
  config_delete,
}
use vault_custom_secrets_eng.Roles.{get_role}
use vault_custom_secrets_eng.Roles.Handlers.{
  role_existence_check, role_read, role_list, role_delete,
}
use vault_custom_secrets_eng.Engine.Guards.{Guards, try-Guards, get_role-Guards}

module _ (host : Host) where
  pub config_existence_check-Guards : Guards (config_existence_check host)
  unfolding config_existence_check get_config storage_get
  config_existence_check-Guards s h = ground arith

  pub config_write-Guards : (cfg : Config) → Guards (config_write host cfg)
  unfolding config_write check_fields vet refuse_call new_client get_version_info get_permissions
      store_config get_config storage_get storage_put invalidate
  config_write-Guards cfg s h = ground arith

  pub config_read-Guards : Guards (config_read host)
  unfolding config_read get_config storage_get
  config_read-Guards s h = ground arith

  pub config_delete-Guards : (force : Bool) → Guards (config_delete host force)
  unfolding config_delete storage_delete invalidate
  config_delete-Guards force s h = ground arith

  pub role_existence_check-Guards : (name : Bytes) → Guards (role_existence_check host name)
  unfolding role_existence_check get_role storage_get
  role_existence_check-Guards name s h = ground arith

  pub role_read-Guards : (name : Bytes) → Guards (role_read host name)
  unfolding role_read get_role storage_get
  role_read-Guards name s h = ground arith

  pub role_list-Guards : Guards (role_list host)
  unfolding role_list storage_list
  role_list-Guards s h = ground arith

  pub role_delete-Guards : (name : Bytes) → Guards (role_delete host name)
  unfolding role_delete storage_delete
  role_delete-Guards name s h = ground arith

  pub check_role-Guards : (name : Bytes) (role : Role) → Guards (check_role name role)
  unfolding check_role check_limits check_mode check_names
  check_role-Guards name role s h = ground arith

  pub role_client-Guards : Guards (role_client host)
  unfolding role_client get_client build_client get_config storage_get new_client
  role_client-Guards s h = ground arith

  pub write_with-Guards :
      (name : Bytes) (role : Role) (opting : Bool) (client : Config)
      → Guards (write_with host name role opting client)
  unfolding write_with check_cluster check_build store_role get_group get_permissions
      get_version_info storage_put refuse_group refuse_read is_verified written
  write_with-Guards name role opting client s h = ground arith

  pub write_role-Guards :
      (name : Bytes) (role : Role) (opting : Bool) → Guards (write_role host name role opting)
  unfolding write_role
  write_role-Guards name role opting s h =
      IsGuarded-after (check_role name role s) _ (check_role-Guards name role s h) λ _ s1 h1.
        IsGuarded-after (role_client host s1) _ (role_client-Guards s1 h1)
          (write_with-Guards name role opting)

  pub role_write-Guards :
      (name : Bytes) (fields : RoleFields) → Guards (role_write host name fields)
  unfolding role_write
  role_write-Guards name fields s h =
      IsGuarded-after (try (get_role host name) _ s) _
        (try-Guards (get_role host name) _ (get_role-Guards host name) s h)
        λ existing s1 h1. write_role-Guards name _ _ s1 h1
