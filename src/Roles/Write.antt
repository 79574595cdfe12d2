-- ===== src/Roles/Write.antt =====
-- `roleWrite` of path_roles.go.
use Prim.Native.String.{String}
use vault_custom_secrets_eng.Base.{
  Bool, true, false, not, ◌&&◌, Option, none, some, [], ◌∷◌, ◌++◌, Bytes, codes, is_empty, text_eq,
  ℤ, pos, ltb_ℤ, if◌then◌else◌,
}
use vault_custom_secrets_eng.Pveapi.Errors.{
  Error, wrap, ok, err, errors_is, group_not_found, unauthenticated, forbidden,
}
use vault_custom_secrets_eng.Pveapi.Permissions.{has_privilege}
use vault_custom_secrets_eng.Pveapi.Types.{VersionInfo}
use vault_custom_secrets_eng.Host.{Host}
use vault_custom_secrets_eng.Host.Data.{Config, Role}
use vault_custom_secrets_eng.Host.Response.{reply, Outcome}
use vault_custom_secrets_eng.Host.Act.{
  Op, Act, ◌>>=◌, ◌>>◌, pure, return, return_if, or_return, or_stop, try, check, run, storage_put,
  get_group, get_permissions, get_version_info,
}
use vault_custom_secrets_eng.Backend.{get_config, get_client}
use vault_custom_secrets_eng.Userid.{
  validate_user_component, validate_realm_component, validate_length_budget,
}
use vault_custom_secrets_eng.Creds.{refuse}
use vault_custom_secrets_eng.Roles.{
  mode_token, mode_password, password_verified_version, password_verified_repo_id, password_realm,
  get_role,
}

-- The fields of a write; `none` where the request leaves one out.
pub record RoleFields : Type 0 where
  pub group : Option Bytes
  pub user_prefix : Option Bytes
  pub realm : Option Bytes
  pub ttl : Option ℤ
  pub max_ttl : Option ℤ
  pub mode : Option Bytes

-- The value of the request, else that of the stored role, else the schema's default.
unfoldable pub resolve : {A : Type 0} → Option A → (Role → A) → Option Role → A → A
resolve (some v) field existing default = v
resolve none field (some role) default = field role
resolve none field none default = default

unfoldable pub requested_role : RoleFields → Option Role → Role
unfolding resolve
requested_role fields existing = record {
  group = resolve fields.group (λ r. r.group) existing [];
  user_prefix = resolve fields.user_prefix (λ r. r.user_prefix) existing (codes "vault");
  realm = resolve fields.realm (λ r. r.realm) existing (codes "pve");
  ttl = resolve fields.ttl (λ r. r.ttl) existing (pos 0);
  max_ttl = resolve fields.max_ttl (λ r. r.max_ttl) existing (pos 0);
  mode = resolve fields.mode (λ r. r.mode) existing mode_token;
}

abbrev or_default : Bytes → Bytes → Bytes
or_default s default = if is_empty s then default else s

-- The empty mode, realm and prefix stand for the defaults.
unfoldable pub with_defaults : Role → Role
with_defaults role = record role {
  mode = or_default role.mode mode_token;
  realm = or_default role.realm (codes "pve");
  user_prefix = or_default role.user_prefix (codes "vault");
}

-- The group, and step 1: the TTLs.
unfoldable pub check_limits : Role → Act Outcome Unit
check_limits role = do
  return_if (is_empty role.group) (refuse "group is required")
  return_if (ltb_ℤ role.ttl (pos 0)) (refuse "ttl cannot be negative")
  return_if (ltb_ℤ role.max_ttl (pos 0)) (refuse "max_ttl cannot be negative")
  return_if (ltb_ℤ (pos 0) role.ttl && (ltb_ℤ (pos 0) role.max_ttl && ltb_ℤ role.max_ttl role.ttl))
      (refuse "ttl must not exceed max_ttl")

-- Steps 1b to 2b: the mode and the realm.
unfoldable pub check_mode : Role → Act Outcome Unit
check_mode role = do
  return_if (not (text_eq role.mode mode_token) && not (text_eq role.mode mode_password))
      (refuse "invalid mode")
  or_stop (validate_realm_component role.realm) (λ e. refuse "invalid realm")
  return_if (text_eq role.mode mode_password && not (text_eq role.realm password_realm))
      (refuse "password mode requires the realm pve")

-- Steps 3 and 4: the parts of a userid, and its length.
unfoldable pub check_names : Bytes → Role → Act Outcome Unit
check_names name role = do
  or_stop (validate_user_component role.user_prefix) (λ e. refuse "invalid user_prefix")
  or_stop (validate_user_component name) (λ e. refuse "invalid role name")
  or_stop (validate_length_budget role.user_prefix name role.realm)
      (λ e. refuse "userid would be too long")

-- Steps 1 to 4, on the fields with their defaults.
unfoldable pub check_role : Bytes → Role → Act Outcome Unit
check_role name role = do check_limits role; check_mode role; check_names name role

-- What a failed `GetGroup` is answered with.
unfoldable pub refuse_group : Error → Outcome
refuse_group e =
    if errors_is e group_not_found
    then refuse "group does not exist on Proxmox cluster"
    else if errors_is e unauthenticated
    then refuse "PVE returned 401 checking group"
    else if errors_is e forbidden
    then refuse "PVE returned 403 checking group"
    else err (wrap "proxmox: GetGroup" e)

-- What a failed `GetPermissions` or `GetVersionInfo` is answered with.
unfoldable pub refuse_read : String → String → String → Error → Outcome
refuse_read no_login no_right other e =
    if errors_is e unauthenticated
    then refuse no_login
    else if errors_is e forbidden
    then refuse no_right
    else err (wrap other e)

-- `optingIntoPassword`
unfoldable pub opts_in : Role → Option Role → Bool
opts_in role none = text_eq role.mode mode_password
opts_in role (some existing) =
    text_eq role.mode mode_password && not (text_eq existing.mode mode_password)

unfoldable pub is_verified : VersionInfo → Bool
is_verified version =
    text_eq version.version password_verified_version
    && text_eq version.repo_id password_verified_repo_id

-- The answer of a write that has stored a role.
unfoldable pub written : Role → Outcome
written role =
    if text_eq role.mode mode_password
    then ok
        (some (reply [] ("password mode is verified end to end only on pve-manager/9.2.14" ∷ [])))
    else ok none

module _ (host : Host) where
  -- Steps 6 to 7b: the group, and the privileges on the realm and on the group.
  unfoldable pub check_cluster : Config → Role → Act Outcome Unit
  unfolding get_group get_permissions refuse_group refuse_read
  check_cluster client role = do
    check (get_group host client role.group) refuse_group
    tree ← try (get_permissions host client) (
        refuse_read "PVE returned 401 on GET /access/permissions during role-write"
          "PVE returned 403 on GET /access/permissions during role-write" "proxmox: GetPermissions")
    return_if
        (not
          (has_privilege tree (codes "/access/realm/" ++ role.realm) (codes "Realm.AllocateUser")))
        (refuse "admin token lacks Realm.AllocateUser at the realm")
    return_if
        (not (has_privilege tree (codes "/access/groups/" ++ role.group) (codes "User.Modify")))
        (refuse "admin token lacks User.Modify at the group")

  -- Step 7c, for a write that opts into passwords.
  unfoldable pub check_build : Config → Bool → Act Outcome Unit
  unfolding get_version_info refuse_read is_verified
  check_build client false = pure tt
  check_build client true = do
    version ← try (get_version_info host client) (
        refuse_read "PVE returned 401 on GET /version during role-write"
          "PVE returned 403 on GET /version during role-write"
          "proxmox: verify password-mode PVE build")
    return_if (not (is_verified version)) (refuse "password mode requires verified PVE build")

  -- Step 5: a configuration and a client.
  unfoldable pub role_client : Act Outcome Config
  unfolding get_config get_client
  role_client = do
    stored ← try (get_config host) (λ e. err (wrap "proxmox: load config" e))
    elim stored [
      | none ↦ return (refuse "no config found; write config to <mount>/config first")
      | some cfg ↦ try (get_client host) (λ e. err (wrap "proxmox: get PVE client" e))
    ]

  -- Step 8.
  unfoldable pub store_role : Bytes → Role → Act Outcome Outcome
  unfolding storage_put
  store_role name role = do
    value ←
        or_return (host.encode_role role) (λ e. err (wrap "proxmox: marshal role for storage" e))
    check (storage_put host (codes "roles/" ++ name) value)
        (λ e. err (wrap "proxmox: store role" e))
    pure (written role)

  -- Steps 6 to 8, with a client.
  unfoldable pub write_with : Bytes → Role → Bool → Config → Act Outcome Outcome
  write_with name role opting client = do
    check_cluster client role
    check_build client opting
    store_role name role

  -- Steps 1 to 8, for the role as it is to be stored.
  unfoldable pub write_role : Bytes → Role → Bool → Act Outcome Outcome
  write_role name role opting = do
    check_role name role
    client ← role_client
    write_with name role opting client

  -- `roleWrite`; the lock keeps it whole.
  unfoldable pub role_write : Bytes → RoleFields → Op Outcome
  role_write name fields = run do
    existing ← try (get_role host name) (λ e. err (wrap "proxmox: load existing role" e))
    let role = with_defaults (requested_role fields existing)
    write_role name role (opts_in role existing)
