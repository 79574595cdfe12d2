-- ===== src/Wal/Rotation.antt =====
-- `walRollback` and `walRollbackRotation` of wal.go. A recovery drops the token of a rotation that
-- the stored configuration does not use.
pub mod Spares
use vault_custom_secrets_eng.Base.{
  Bool, true, false, not, ◌&&◌, Option, none, some, Bytes, text_eq, if◌then◌else◌,
}
use vault_custom_secrets_eng.Pveapi.Errors.{
  Error, failure, wrap, Result, ok, err, errors_is, user_not_found, token_not_found,
}
use vault_custom_secrets_eng.Host.{Host}
use vault_custom_secrets_eng.Host.Data.{Config, RotationState, WalUser}
use vault_custom_secrets_eng.Host.Act.{
  Op, Act, ◌>>=◌, ◌>>◌, pure, return, call, return_if, or_return, try, check, run, storage_get,
  storage_delete, token_exists, delete_token,
}
use vault_custom_secrets_eng.Backend.{get_config, get_client}
use vault_custom_secrets_eng.Rotation.{rotation_storage_key, split_token_id, unless_is}
use vault_custom_secrets_eng.Wal.{wal_type_user, wal_type_rotation, wal_rollback_user}

-- The user and the two token names of a state whose token IDs are well formed.
pub record Tokens : Type 0 where
  pub owner : Bytes
  pub old_token : Bytes
  pub new_token : Bytes

unfoldable pub same_user : Bytes × Bytes → Bytes × Bytes → Option Tokens
same_user (old_user, old_token) (new_user, new_token) =
    if text_eq old_user new_user
    then some (record { owner = old_user; old_token = old_token; new_token = new_token })
    else none

unfoldable pub both_split : Result (Bytes × Bytes) → Result (Bytes × Bytes) → Option Tokens
both_split (ok old) (ok new) = same_user old new
both_split (ok old) (err e) = none
both_split (err e) new = none

unfoldable pub rotation_tokens : RotationState → Option Tokens
rotation_tokens state =
    both_split (split_token_id state.old_token_id) (split_token_id state.new_token_id)

-- Whether a stored state is the one of the WAL entry.
unfoldable pub same_rotation : RotationState → RotationState → Bool
same_rotation stored state =
    text_eq stored.old_token_id state.old_token_id && text_eq stored.new_token_id state.new_token_id

-- The switch on `cfg.TokenID`: the token that the configuration does not use.
unfoldable pub unused_token : RotationState → Tokens → Config → Option Bytes
unused_token state tokens cfg =
    if text_eq cfg.token_id state.old_token_id
    then some tokens.new_token
    else if text_eq cfg.token_id state.new_token_id
    then some tokens.old_token
    else none

-- The second answer of `TokenExists` in `recoverRotationToken`.
unfoldable pub confirm_removed : Result Bool → Option Error
confirm_removed (ok true) = some (failure "proxmox: token remains during rotation recovery")
confirm_removed (ok false) = none
confirm_removed (err e) = if errors_is e user_not_found then none else some e

module _ (host : Host) where
  -- What follows the first answer of `TokenExists`.
  unfoldable pub remove_token :
      Config → Bytes → Bytes → Result Bool → Act (Option Error) (Option Error)
  unfolding delete_token token_exists
  remove_token client user token (ok false) = pure none
  remove_token client user token (ok true) = do
    deleted ← call (delete_token host client user token)
    unless_is token_not_found deleted some
    again ← call (token_exists host client user token)
    pure (confirm_removed again)
  remove_token client user token (err e) =
      pure (if errors_is e user_not_found then none else some e)

  -- `recoverRotationToken`
  unfoldable pub recover_rotation_token : Config → Bytes → Bytes → Op (Option Error)
  unfolding token_exists
  recover_rotation_token client user token =
      run
        do found ← call (token_exists host client user token); remove_token client user token found

  -- `dropMalformedRotationWAL`
  unfoldable pub drop_malformed_rotation_wal : RotationState → Op (Option Error)
  unfolding storage_get storage_delete
  drop_malformed_rotation_wal state = run do
    entry ←
        try (storage_get host rotation_storage_key)
          (λ e. some (wrap "proxmox: read rotation state before malformed WAL cleanup" e))
    elim entry [
      | none ↦ pure none
      | some value ↦ do
        stored ←
            or_return (host.decode_rotation value)
              (λ e. some (wrap "proxmox: decode rotation state before malformed WAL cleanup" e))
        return_if (not (same_rotation stored state)) (
            some (
              failure
                "proxmox: malformed rotation WAL does not match shared state; preserving both"))
        check (storage_delete host rotation_storage_key)
            (λ e. some (wrap "proxmox: clear malformed rotation state" e))
        pure none
    ]

  -- The end of the recovery, for the token that goes.
  unfoldable pub recover_unused : Config → Bytes → Option Bytes → Act (Option Error) (Option Error)
  unfolding storage_delete
  recover_unused client user none = return (
      some (
        failure
          "proxmox: rotation recovery found inconsistent token ID; preserving WAL and rotation state"))
  recover_unused client user (some token) = do
    failed ← call (recover_rotation_token client user token)
    unless_is token_not_found failed some
    check (storage_delete host rotation_storage_key) some
    pure none

  -- The recovery with the stored configuration.
  unfoldable pub recover_with :
      RotationState → Tokens → Option Config → Act (Option Error) (Option Error)
  recover_with state tokens none = return (
      some (
        failure
          "proxmox: rotation recovery has no config; preserving state because no token can be safely selected"))
  recover_with state tokens (some cfg) = do
    client ← try (get_client host) some
    recover_unused client tokens.owner (unused_token state tokens cfg)

  -- The recovery, for an entry that is well formed.
  unfoldable pub recover_entry : RotationState → Tokens → Act (Option Error) (Option Error)
  unfolding storage_get
  recover_entry state tokens = do
    entry ←
        try (storage_get host rotation_storage_key)
          (λ e. some (wrap "proxmox: read rotation state during recovery" e))
    elim entry [
      | none ↦ pure none
      | some value ↦ do
        stored ←
            or_return (host.decode_rotation value)
              (λ e. some (wrap "proxmox: decode stored rotation state" e))
        return_if (not (same_rotation stored state)) (
            some (
              failure
                "proxmox: rotation WAL does not match shared rotation state; preserving both"))
        cfg ← try (get_config host) some
        recover_with state tokens cfg
    ]

  -- What follows the test of the token IDs.
  unfoldable pub recover_or_drop : RotationState → Option Tokens → Act (Option Error) (Option Error)
  recover_or_drop state none = call (drop_malformed_rotation_wal state)
  recover_or_drop state (some tokens) = recover_entry state tokens

  -- `walRollbackRotation`, with the payload as `mapstructure.Decode` gives it.
  unfoldable pub wal_rollback_rotation : Result RotationState → Op (Option Error)
  wal_rollback_rotation decoded = run do
    state ← or_return decoded (λ e. some (wrap "proxmox: rotation WAL decode" e))
    recover_or_drop state (rotation_tokens state)

  -- `walRollback`, with the payload decoded as either kind.
  unfoldable pub wal_rollback : Bytes → Result WalUser → Result RotationState → Op (Option Error)
  wal_rollback kind as_user as_rotation =
      if text_eq kind wal_type_user
      then wal_rollback_user host as_user
      else if text_eq kind wal_type_rotation
      then wal_rollback_rotation as_rotation
      else λ s. (some (failure "proxmox: walRollback: unknown WAL kind"), s)
