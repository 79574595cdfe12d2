-- ===== src/Host/Data.antt =====
-- The records that the engine stores: `proxmoxConfig` of backend.go, `proxmoxRole` of
-- path_roles.go, `walUser` of wal.go and `rotationState` of path_rotate_root.go.
use vault_custom_secrets_eng.Base.{Bool, Bytes, ℤ}

pub record Config : Type 0 where
  pub address : Bytes
  pub token_id : Bytes
  pub token_secret : Bytes
  pub tls_skip_verify : Bool
  pub ca_cert : Bytes
  pub default_ttl : ℤ
  pub default_max_ttl : ℤ

pub record Role : Type 0 where
  pub group : Bytes
  pub user_prefix : Bytes
  pub realm : Bytes
  pub ttl : ℤ
  pub max_ttl : ℤ
  pub mode : Bytes

pub record WalUser : Type 0 where
  pub user_id : Bytes
  pub nonce : Bytes

pub record RotationState : Type 0 where
  pub old_token_id : Bytes
  pub new_token_id : Bytes
  pub phase : Bytes
  pub wal_id : Bytes
  pub started_at : ℤ

-- A WAL entry's kind and data: `walTypeUser` or `walTypeRotation`.
pub data WalEntry : Type 0 where
  user : WalUser → WalEntry
  root_rotation : RotationState → WalEntry
