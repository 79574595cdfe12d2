-- ===== src/Rotation/Recover.antt =====
-- `recoverRotation` of path_rotate_root.go. `TokenExists` tells nothing of the token where it fails.
pub mod Spares
use vault_custom_secrets_eng.Base.{
  Bool, true, false, not, ◌&&◌, none, some, [], ◌∷◌, Bytes, codes, is_empty, text_eq, Option,
}
use vault_custom_secrets_eng.Pveapi.Errors.{
  failure, wrap, Result, ok, err, errors_is, user_not_found, token_not_found,
}
use vault_custom_secrets_eng.Host.{Host}
use vault_custom_secrets_eng.Host.Data.{Config, RotationState}
use vault_custom_secrets_eng.Host.Response.{str, reply, Outcome}
use vault_custom_secrets_eng.Host.Act.{
  Act, ◌>>=◌, ◌>>◌, pure, return, call, return_if, or_return, try, check, storage_get,
  storage_delete, token_exists, delete_token, delete_wal,
}
use vault_custom_secrets_eng.Backend.{get_config, get_client}
use vault_custom_secrets_eng.Creds.{refuse}
use vault_custom_secrets_eng.Rotation.{rotation_storage_key, split_token_id, unless_is}

-- The second answer of `TokenExists`, after the deletion.
unfoldable pub confirm_recovered : Result Bool → Act Outcome Unit
confirm_recovered (ok true) =
    return (err (failure "proxmox: recovery token deletion could not be confirmed"))
confirm_recovered (ok false) = pure tt
confirm_recovered (err e) =
    return_if (not (errors_is e user_not_found))
      (err (wrap "proxmox: confirm recovery token deletion" e))

module _ (host : Host) where
  -- What follows the first answer of `TokenExists`.
  unfoldable pub remove_recovered : Config → Bytes → Bytes → Result Bool → Act Outcome Unit
  unfolding delete_token token_exists
  remove_recovered client user token (ok false) = pure tt
  remove_recovered client user token (ok true) = do
    deleted ← call (delete_token host client user token)
    unless_is token_not_found deleted err
    again ← call (token_exists host client user token)
    confirm_recovered again
  remove_recovered client user token (err e) =
      return_if (not (errors_is e user_not_found)) (err (wrap "proxmox: verify recovery token" e))

  -- The token is looked up, deleted where it is there, and the records of the rotation go.
  unfoldable pub recover_token :
      Config → Bytes → Bytes → RotationState → Bytes → Act Outcome Outcome
  unfolding token_exists delete_wal storage_delete
  recover_token client user token state recovery_token = do
    found ← call (token_exists host client user token)
    remove_recovered client user token found
    check (delete_wal host state.wal_id) (λ e. err (wrap "proxmox: delete rotation recovery WAL" e))
    check (storage_delete host rotation_storage_key) err
    pure (
        ok (
          some (
            reply
              ((codes "status", str (codes "recovered"))
                ∷ (codes "token_id", str recovery_token)
                ∷ [])
              [])))

  -- The token ID is split, and a client taken.
  unfoldable pub recover_named : Bytes → RotationState → Act Outcome Outcome
  recover_named recovery_token state = do
    (user, token) ←
        or_return (split_token_id recovery_token)
          (λ e. refuse "rotate-root recovery: invalid token_id")
    client ← try (get_client host) err
    recover_token client user token state recovery_token

  -- The guards, with the stored state and configuration.
  unfoldable pub recover_guarded : Bytes → Bytes → RotationState → Config → Act Outcome Outcome
  recover_guarded expected recovery_token state cfg = do
    return_if (not (text_eq expected cfg.token_id))
        (refuse "rotate-root recovery rejected: expected_token_id does not match current token ID")
    return_if
        (not (text_eq recovery_token state.old_token_id)
          && not (text_eq recovery_token state.new_token_id))
        (refuse
          "rotate-root recovery rejected: recovery_token_id must equal old_token_id or new_token_id")
    return_if (text_eq recovery_token cfg.token_id)
        (refuse "rotate-root recovery rejected: recovery_token_id is the active configured token")
    return_if (is_empty state.wal_id)
        (err (failure "proxmox: rotation recovery state has no WAL ID; refusing to mutate tokens"))
    recover_named recovery_token state

  -- The stored configuration, if there is one.
  unfoldable pub recover_configured :
      Bytes → Bytes → RotationState → Option Config → Act Outcome Outcome
  recover_configured expected recovery_token state none =
      return (refuse "rotate-root recovery requires an existing configuration")
  recover_configured expected recovery_token state (some cfg) =
      recover_guarded expected recovery_token state cfg

  -- The configuration is read.
  unfoldable pub recover_pending : Bytes → Bytes → RotationState → Act Outcome Outcome
  recover_pending expected recovery_token state = do
    stored ← try (get_config host) err
    recover_configured expected recovery_token state stored

  -- The stored state, if there is one.
  unfoldable pub recover_stored : Bytes → Bytes → Option Bytes → Act Outcome Outcome
  recover_stored expected recovery_token none =
      return (refuse "rotate-root recovery found no pending rotation")
  recover_stored expected recovery_token (some value) = do
    state ←
        or_return (host.decode_rotation value) (λ e. err (wrap "proxmox: decode rotation state" e))
    recover_pending expected recovery_token state

  -- `recoverRotation`
  unfoldable pub recover_rotation : Bytes → Bytes → Act Outcome Outcome
  unfolding storage_get
  recover_rotation expected recovery_token = do
    entry ←
        try (storage_get host rotation_storage_key)
          (λ e. err (wrap "proxmox: read rotation state" e))
    recover_stored expected recovery_token entry
