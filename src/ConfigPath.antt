-- ===== src/ConfigPath.antt =====
-- path_config.go: the handlers of <mount>/config. The fields of a write are those of `Config`.
pub mod Vetted
pub mod Secret
use Prim.Native.String.{String}
use vault_custom_secrets_eng.Base.{
  Bool, true, false, not, ◌&&◌, ◌||◌, Option, none, some, List, [], ◌∷◌, Bytes, codes, is_empty,
  text_eq, ℤ, pos, ltb_ℤ, if◌then◌else◌,
}
use vault_custom_secrets_eng.Pveapi.Errors.{
  Error, wrap, Result, ok, err, errors_is, unauthenticated, forbidden,
}
use vault_custom_secrets_eng.Pveapi.Permissions.{PermissionTree, has_privilege}
use vault_custom_secrets_eng.Host.{Host}
use vault_custom_secrets_eng.Host.Data.{Config}
use vault_custom_secrets_eng.Host.Response.{str, bool, int, reply, Outcome}
use vault_custom_secrets_eng.Host.Act.{
  Op, Act, ◌>>=◌, ◌>>◌, pure, return, call, return_if, or_return, try, check, run, storage_put,
  storage_delete, new_client, get_version_info, get_permissions,
}
use vault_custom_secrets_eng.Backend.{config_key, invalidate, get_config}
use vault_custom_secrets_eng.Creds.{refuse}

-- The checks of the fields.
unfoldable pub check_fields : Config → Act Outcome Unit
check_fields cfg = do
  return_if (is_empty cfg.address) (refuse "address is required")
  return_if (is_empty cfg.token_id) (refuse "token_id is required")
  return_if (is_empty cfg.token_secret) (refuse "token_secret is required")
  return_if (ltb_ℤ cfg.default_ttl (pos 0)) (refuse "default_ttl cannot be negative")
  return_if (ltb_ℤ cfg.default_max_ttl (pos 0)) (refuse "default_max_ttl cannot be negative")
  return_if
      (ltb_ℤ (pos 0) cfg.default_ttl
        && (ltb_ℤ (pos 0) cfg.default_max_ttl && ltb_ℤ cfg.default_max_ttl cfg.default_ttl))
      (refuse "default_ttl must not exceed default_max_ttl")

-- What a failed `GetVersion` or `GetPermissions` is answered with.
unfoldable pub refuse_call : String → String → String → Error → Outcome
refuse_call no_login no_right other e =
    if errors_is e unauthenticated
    then refuse no_login
    else if errors_is e forbidden
    then refuse no_right
    else refuse other

unfoldable pub is_empty_tree : PermissionTree → Bool
is_empty_tree [] = true
is_empty_tree (x ∷ tree) = false

-- The warning of step 5.
unfoldable pub overwrite_warnings : Config → Option Config → List String
overwrite_warnings cfg none = []
overwrite_warnings cfg (some existing) =
    if not (text_eq existing.address cfg.address)
      || (not (text_eq existing.token_id cfg.token_id)
          || not (text_eq existing.token_secret cfg.token_secret))
    then "config address/token changed; outstanding leases were issued against the previous admin token"
      ∷ []
    else []

module _ (host : Host) where
  -- `configExistenceCheck`
  unfoldable pub config_existence_check : Op (Result Bool)
  unfolding get_config
  config_existence_check = run do
    cfg ← try (get_config host) err
    elim cfg [ none ↦ pure (ok false) | some c ↦ pure (ok true) ]

  -- Steps 2 to 4: the new credentials reach PVE and have both privileges.
  unfoldable pub vet : Config → Act Outcome Unit
  unfolding new_client get_version_info get_permissions
  vet cfg = do
    check (new_client host cfg) (λ e. refuse "failed to build PVE client")
    try (get_version_info host cfg) (
        refuse_call "PVE /version returned 401 — admin token is unauthenticated"
          "PVE /version returned 403 — check address and token credentials"
          "PVE connectivity check failed")
    tree ← try (get_permissions host cfg) (
        refuse_call "PVE returned 401 on GET /access/permissions"
          "PVE returned 403 on GET /access/permissions — token lacks required privileges"
          "PVE GetPermissions failed")
    return_if (is_empty_tree tree) (refuse "admin token has an empty permission tree")
    return_if (not (has_privilege tree (codes "/access/groups") (codes "User.Modify")))
        (refuse "admin token lacks User.Modify at /access/groups")
    return_if (not (has_privilege tree (codes "/access/groups") (codes "Sys.Audit")))
        (refuse "admin token lacks Sys.Audit at /access/groups")

  -- Steps 5 to 7.
  unfoldable pub store_config : Config → Act Outcome Outcome
  unfolding get_config storage_put invalidate
  store_config cfg = do
    existing ← try (get_config host) (λ e. err (wrap "proxmox: read existing config" e))
    value ←
        or_return (host.encode_config cfg) (λ e. err (wrap "proxmox: marshal config for storage" e))
    check (storage_put host config_key value) (λ e. err (wrap "proxmox: store config" e))
    call (invalidate config_key)
    pure (ok (some (reply [] (overwrite_warnings cfg existing))))

  -- `configWrite`
  unfoldable pub config_write : Config → Op Outcome
  config_write cfg = run do check_fields cfg; vet cfg; store_config cfg

  -- `configRead`
  unfoldable pub config_read : Op Outcome
  unfolding get_config
  config_read = run do
    stored ← try (get_config host) err
    elim stored [
      | none ↦ pure (ok none)
      | some cfg ↦ pure (
          ok (
            some (
              reply
                ((codes "address", str cfg.address)
                  ∷ (codes "token_id", str cfg.token_id)
                  ∷ (codes "tls_skip_verify", bool cfg.tls_skip_verify)
                  ∷ (codes "ca_cert", str cfg.ca_cert)
                  ∷ (codes "default_ttl", int cfg.default_ttl)
                  ∷ (codes "default_max_ttl", int cfg.default_max_ttl)
                  ∷ [])
                [])))
    ]

  -- `configDelete`, with `force` as it is given; absent is false.
  unfoldable pub config_delete : Bool → Op Outcome
  unfolding storage_delete invalidate
  config_delete force = run do
    return_if (not force) (refuse "DELETE <mount>/config requires force=true")
    check (storage_delete host config_key) (λ e. err (wrap "proxmox: delete config" e))
    call (invalidate config_key)
    pure (ok none)
