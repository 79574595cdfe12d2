-- ===== src/Host.antt =====
-- What surrounds the engine: Vault's storage and framework, the Proxmox VE cluster, the clock and
-- the source of random bytes. None of these is code of the repository, so they are parameters:
-- each answer is an arbitrary function of all that was done before.
pub mod Data
pub mod Event
pub mod Act
pub mod Response
pub mod Chain
pub mod Returns
pub mod Through
use Prim.Native.String.{String}
use vault_custom_secrets_eng.Base.{ℕ, Bool, Option, List, Bytes, ℤ}
use vault_custom_secrets_eng.Pveapi.Errors.{Error, Result}
use vault_custom_secrets_eng.Pveapi.Types.{
  CreateUserRequest, UpdateUserRequest, UserInfo, VersionInfo,
}
use vault_custom_secrets_eng.Pveapi.Permissions.{PermissionTree}
use Data.{Config, Role, RotationState, WalEntry}
use Event.{Log}

pub record Host : Type 0 where
  -- `logical.Storage`
  pub get : Log → Bytes → Result (Option Bytes)
  pub put : Log → Bytes → Bytes → Option Error
  pub delete : Log → Bytes → Option Error
  pub list : Log → Bytes → Result (List Bytes)
  -- `framework.PutWAL` and `framework.DeleteWAL`
  pub put_wal : Log → WalEntry → Result Bytes
  pub delete_wal : Log → Bytes → Option Error
  -- JSON of the stored structs
  pub decode_config : Bytes → Result Config
  pub encode_config : Config → Result Bytes
  pub decode_role : Bytes → Result Role
  pub encode_role : Role → Result Bytes
  pub decode_rotation : Bytes → Result RotationState
  pub encode_rotation : RotationState → Result Bytes
  -- `time.Now`, in nanoseconds since 1970, and `rand.Read`, `rand.Int`
  pub now : Log → ℕ
  pub read_random : Log → ℕ → Result Bytes
  pub random_below : Log → ℕ → Result ℕ
  -- `framework.CalculateTTL` with its arguments increment, backendTTL, backendMaxTTL and
  -- startTime (period and explicitMaxTTL are always 0), and `b.System().MaxLeaseTTL()`
  pub calculate_ttl : Log → ℤ → ℤ → ℤ → ℤ → Result (ℤ × List String)
  pub max_lease_ttl : Log → ℤ
  -- the factory `newClient`, and the calls of the interface `pveapi.Client` on a client that was
  -- built from a configuration
  pub new_client : Log → Config → Option Error
  pub get_version_info : Log → Config → Result VersionInfo
  pub get_permissions : Log → Config → Result PermissionTree
  pub get_group : Log → Config → Bytes → Option Error
  pub create_user : Log → Config → CreateUserRequest → Option Error
  pub get_user : Log → Config → Bytes → Result UserInfo
  pub create_token : Log → Config → Bytes → Bytes → Result Bytes
  pub update_user : Log → Config → UpdateUserRequest → Option Error
  pub delete_user : Log → Config → Bytes → Option Error
  pub delete_token : Log → Config → Bytes → Bytes → Option Error
  pub token_exists : Log → Config → Bytes → Bytes → Result Bool
