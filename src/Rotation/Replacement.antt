-- ===== src/Rotation/Replacement.antt =====
-- `validateReplacement` of path_rotate_root.go.
use vault_custom_secrets_eng.Base.{Bool, not, Option, none, some, List, [], ◌∷◌, ◌++◌, Bytes, codes}
use vault_custom_secrets_eng.Pveapi.Errors.{Error, failure, wrap}
use vault_custom_secrets_eng.Pveapi.Permissions.{PermissionTree, has_privilege}
use vault_custom_secrets_eng.Host.{Host}
use vault_custom_secrets_eng.Host.Data.{Config, Role}
use vault_custom_secrets_eng.Host.Act.{
  Op, Act, ◌>>=◌, ◌>>◌, pure, return_if, or_return, try, run, get_version_info, token_exists,
  get_permissions, storage_list,
}
use vault_custom_secrets_eng.Roles.{get_role}
use vault_custom_secrets_eng.Rotation.{split_token_id}

-- The test of one stored role; a role that is gone passes.
unfoldable pub realm_allowed : PermissionTree → Option Role → Bool
realm_allowed tree none = Bool.true
realm_allowed tree (some role) =
    has_privilege tree (codes "/access/realm/" ++ role.realm) (codes "Realm.AllocateUser")

module _ (host : Host) where
  -- The loop over the names of the roles.
  unfoldable pub check_realms : PermissionTree → List Bytes → Act (Option Error) Unit
  check_realms tree [] = pure tt
  check_realms tree (name ∷ names) = do
    role ← try (get_role host name) some
    return_if (not (realm_allowed tree role))
        (some (failure "replacement token lacks Realm.AllocateUser"))
    check_realms tree names

  -- `validateReplacement`; the interface's `GetVersion` answers as `GetVersionInfo` does.
  unfoldable pub validate_replacement : Config → Bytes → Op (Option Error)
  unfolding get_version_info token_exists get_permissions storage_list
  validate_replacement client old_token_id = run do
    try (get_version_info host client) some
    (old_user, old_token) ←
        or_return (split_token_id old_token_id)
          (λ e. some (wrap "validate current token for replacement" e))
    exists ←
        try (token_exists host client old_user old_token)
          (λ e. some (wrap "validate replacement token-list capability" e))
    return_if (not exists)
        (some (failure "current configured token is absent during replacement validation"))
    tree ← try (get_permissions host client) some
    return_if (not (has_privilege tree (codes "/access/groups") (codes "User.Modify")))
        (some (failure "replacement token lacks User.Modify at /access/groups"))
    return_if (not (has_privilege tree (codes "/access/groups") (codes "Sys.Audit")))
        (some (failure "replacement token lacks Sys.Audit at /access/groups"))
    names ←
        try (storage_list host (codes "roles/"))
          (λ e. some (wrap "list roles for replacement validation" e))
    check_realms tree names
    pure none
