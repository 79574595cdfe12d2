-- ===== src/Roles.antt =====
-- path_roles.go: the stored roles and their TTLs.
pub mod Ttls
pub mod Limits
pub mod Write
pub mod Handlers
pub mod Valid
pub mod Merged
pub mod Vetted
pub mod Userids
use vault_custom_secrets_eng.Base.{
  Option, none, some, [], ◌∷◌, ◌++◌, Bytes, codes, is_empty, if◌then◌else◌,
}
use vault_custom_secrets_eng.Pveapi.Errors.{Error, wrap, Result, ok, err}
use vault_custom_secrets_eng.Host.{Host}
use vault_custom_secrets_eng.Host.Data.{Role}
use vault_custom_secrets_eng.Host.Act.{
  Op, Act, continue, ◌>>=◌, ◌>>◌, pure, or_return, try, run, storage_get,
}

abbrev pub mode_token : Bytes
mode_token = codes "token"

abbrev pub mode_password : Bytes
mode_password = codes "password"

abbrev pub password_verified_version : Bytes
password_verified_version = codes "9.2.14"

abbrev pub password_verified_repo_id : Bytes
password_verified_repo_id = codes "a1480fa6b8d899cb"

abbrev pub password_realm : Bytes
password_realm = codes "pve"

-- A stored role with no mode is a token role.
unfoldable pub normalise_mode : Role → Role
normalise_mode role = if is_empty role.mode then record role { mode = mode_token } else role

module _ (host : Host) where
  -- `getRole`
  unfoldable pub get_role : Bytes → Op (Result (Option Role))
  unfolding storage_get normalise_mode
  get_role name = run do
    entry ←
        try (storage_get host (codes "roles/" ++ name))
          (λ e. err (wrap "proxmox: read role from storage" e))
    elim entry [
      | none ↦ pure (ok none)
      | some value ↦ do
        role ← or_return (host.decode_role value) (λ e. err (wrap "proxmox: decode role" e))
        pure (ok (some (normalise_mode role)))
    ]
