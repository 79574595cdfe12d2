-- ===== src/Roles/Handlers.antt =====
-- The other handlers of <mount>/roles in path_roles.go.
use vault_custom_secrets_eng.Base.{Bool, true, false, none, some, [], ◌∷◌, ◌++◌, Bytes, codes}
use vault_custom_secrets_eng.Pveapi.Errors.{wrap, Result, ok, err}
use vault_custom_secrets_eng.Host.{Host}
use vault_custom_secrets_eng.Host.Data.{Role}
use vault_custom_secrets_eng.Host.Response.{str, int, Values, reply, keys, Outcome}
use vault_custom_secrets_eng.Host.Act.{
  Op, ◌>>=◌, ◌>>◌, pure, try, check, run, storage_list, storage_delete,
}
use vault_custom_secrets_eng.Roles.{get_role}

-- What a read of a role answers.
unfoldable pub role_data : Role → Values
role_data role =
    (codes "group", str role.group)
    ∷ (codes "user_prefix", str role.user_prefix)
    ∷ (codes "realm", str role.realm)
    ∷ (codes "ttl", int role.ttl)
    ∷ (codes "max_ttl", int role.max_ttl)
    ∷ (codes "mode", str role.mode)
    ∷ []

module _ (host : Host) where
  -- `roleExistenceCheck`
  unfoldable pub role_existence_check : Bytes → Op (Result Bool)
  unfolding get_role
  role_existence_check name = run do
    role ← try (get_role host name) err
    elim role [ none ↦ pure (ok false) | some r ↦ pure (ok true) ]

  -- `roleRead`
  unfoldable pub role_read : Bytes → Op Outcome
  unfolding get_role role_data
  role_read name = run do
    stored ← try (get_role host name) err
    elim stored [ none ↦ pure (ok none) | some role ↦ pure (ok (some (reply (role_data role) []))) ]

  -- `roleList`
  unfoldable pub role_list : Op Outcome
  unfolding storage_list
  role_list = run do
    names ← try (storage_list host (codes "roles/")) (λ e. err (wrap "proxmox: list roles" e))
    pure (ok (some (keys names)))

  -- `roleDelete`
  unfoldable pub role_delete : Bytes → Op Outcome
  unfolding storage_delete
  role_delete name = run do
    check (storage_delete host (codes "roles/" ++ name)) (λ e. err (wrap "proxmox: delete role" e))
    pure (ok none)
