-- ===== src/Host/Event.antt =====
-- The calls that leave the engine, each with its answer. The newest stands first in a log.
use Prim.Native.String.{String}
use vault_custom_secrets_eng.Base.{ℕ, Bool, Option, List, Bytes, ℤ}
use vault_custom_secrets_eng.Pveapi.Errors.{Error, Result}
use vault_custom_secrets_eng.Pveapi.Types.{
  CreateUserRequest, UpdateUserRequest, UserInfo, VersionInfo,
}
use vault_custom_secrets_eng.Pveapi.Permissions.{PermissionTree}
use vault_custom_secrets_eng.Host.Data.{Config, WalEntry}

pub data Event : Type 0 where
  got : Bytes → Result (Option Bytes) → Event
  stored : Bytes → Bytes → Option Error → Event
  deleted : Bytes → Option Error → Event
  listed : Bytes → Result (List Bytes) → Event
  wal_put : WalEntry → Result Bytes → Event
  wal_deleted : Bytes → Option Error → Event
  told_time : ℕ → Event
  drew_bytes : ℕ → Result Bytes → Event
  drew_below : ℕ → Result ℕ → Event
  calculated_ttl : ℤ → ℤ → ℤ → ℤ → Result (ℤ × List String) → Event
  client_built : Config → Option Error → Event
  version_read : Config → Result VersionInfo → Event
  permissions_read : Config → Result PermissionTree → Event
  group_read : Config → Bytes → Option Error → Event
  user_created : Config → CreateUserRequest → Option Error → Event
  user_read : Config → Bytes → Result UserInfo → Event
  token_created : Config → Bytes → Bytes → Result Bytes → Event
  user_updated : Config → UpdateUserRequest → Option Error → Event
  user_deleted : Config → Bytes → Option Error → Event
  token_deleted : Config → Bytes → Bytes → Option Error → Event
  token_sought : Config → Bytes → Bytes → Result Bool → Event

abbrev pub Log : Type 0
Log = List Event
