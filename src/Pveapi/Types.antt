-- ===== src/Pveapi/Types.antt =====
-- internal/pveapi/types.go: requests and responses of the client.
use vault_custom_secrets_eng.Base.{
  Bool, not, Option, none, some, List, Bytes, is_empty, ℤ, pos, leb_ℤ, if◌then◌else◌,
}
use vault_custom_secrets_eng.Unicode.{trim_space}
use vault_custom_secrets_eng.Pveapi.Errors.{Error, failure}

pub record CreateUserRequest : Type 0 where
  pub user_id : Bytes
  pub groups : Bytes
  pub expire : ℤ
  pub enable : Bool
  pub comment : Bytes
  pub password : Bytes

pub record UpdateUserRequest : Type 0 where
  pub user_id : Bytes
  pub expire : ℤ
  pub groups : Bytes
  pub enable : Bool
  pub append : Bool

-- `UpdateUserRequest.Validate`
unfoldable pub validate : UpdateUserRequest → Option Error
validate r =
    if leb_ℤ r.expire (pos 0)
    then some (
        failure
          "pveapi: UpdateUserRequest is unsafe: expire would remove the lease expiry backstop")
    else if is_empty (trim_space r.groups)
    then some (
        failure
          "pveapi: UpdateUserRequest is unsafe: groups is empty and would wipe group membership")
    else if not r.enable
    then some
        (failure "pveapi: UpdateUserRequest is unsafe: enable=false would disable the lease user")
    else if not r.append
    then some (
        failure
          "pveapi: UpdateUserRequest is unsafe: append=false would replace user attributes and may wipe groups")
    else none

pub record UserInfo : Type 0 where
  pub groups : List Bytes
  pub enable : Bool
  pub expire : ℤ
  pub comment : Bytes

pub record VersionInfo : Type 0 where
  pub version : Bytes
  pub repo_id : Bytes
