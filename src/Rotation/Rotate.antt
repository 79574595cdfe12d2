-- ===== src/Rotation/Rotate.antt =====
-- `rotateRoot` of path_rotate_root.go.
use vault_custom_secrets_eng.Base.{
  ℕ, ◌/◌, Bool, true, false, not, Option, none, some, [], ◌∷◌, ◌++◌, Bytes, codes, text_eq, pos,
}
use vault_custom_secrets_eng.Pveapi.Errors.{
  Error, failure, wrap, Result, ok, err, errors_is, user_not_found, token_not_found,
}
use vault_custom_secrets_eng.Host.{Host}
use vault_custom_secrets_eng.Host.Data.{Config, RotationState, root_rotation}
use vault_custom_secrets_eng.Host.Response.{str, reply, Outcome}
use Prim.Native.String.{String}
use vault_custom_secrets_eng.Host.Act.{
  Op, Act, ◌>>=◌, ◌>>◌, pure, return, call, return_if, or_return, try, check, run, storage_get,
  storage_put, storage_delete, put_wal, delete_wal, time_now, new_client, token_exists,
  create_token, delete_token,
}
use vault_custom_secrets_eng.Backend.{config_key, invalidate, get_config, get_client}
use vault_custom_secrets_eng.Roles.Ttls.{nanoseconds}
use vault_custom_secrets_eng.Creds.{refuse}
use vault_custom_secrets_eng.Creds.Steps.{random_suffix}
use vault_custom_secrets_eng.Rotation.{
  rotation_storage_key, phase_provisioning, phase_validation_fail, phase_deleting_old,
  split_token_id, unless_is, put_rotation_state,
}
use vault_custom_secrets_eng.Rotation.Replacement.{validate_replacement}
use vault_custom_secrets_eng.Rotation.Recover.{recover_rotation}

-- The fields of the request; a recovery token that is absent or empty asks for a rotation.
pub record RotateFields : Type 0 where
  pub confirm_exclusive : Bool
  pub expected_token_id : Bytes
  pub recovery_token_id : Bytes

-- The variables of a rotation that has been recorded.
pub record Rotation : Type 0 where
  pub cfg : Config
  pub old_user : Bytes
  pub old_token : Bytes
  pub rotation_token_id : Bytes
  pub state : RotationState

-- The state of a rotation that starts at a time.
unfoldable pub provisioning_state : Bytes → Bytes → ℕ → RotationState
provisioning_state old_token_id new_token_id now = record {
  old_token_id = old_token_id;
  new_token_id = new_token_id;
  phase = phase_provisioning;
  wal_id = [];
  started_at = pos (now / nanoseconds);
}

-- The configuration with the new token.
unfoldable pub replacement : Rotation → Bytes → Config
replacement r secret = record r.cfg { token_id = r.state.new_token_id; token_secret = secret }

-- The answer of `TokenExists` after the deletion of the old token.
unfoldable pub confirm_deleted : Result Bool → Act Outcome Unit
confirm_deleted (ok true) =
    return (err (failure "proxmox: rotate-root: old token deletion could not be confirmed"))
confirm_deleted (ok false) = pure tt
confirm_deleted (err e) =
    return_if (not (errors_is e user_not_found))
      (err (wrap "proxmox: rotate-root: confirm old token deletion" e))

module _ (host : Host) where
  -- The guards, the WAL entry and the stored state, before PVE is called.
  unfoldable pub record_rotation : Config → Bytes → Act Outcome Rotation
  unfolding storage_get random_suffix time_now put_wal put_rotation_state provisioning_state
  record_rotation cfg expected = do
    return_if (not (text_eq expected cfg.token_id))
        (refuse "rotate-root rejected: expected_token_id does not match the current token ID")
    entry ←
        try (storage_get host rotation_storage_key)
          (λ e. err (wrap "proxmox: rotate-root: read rotation state" e))
    elim entry [
      | some value ↦
          return (refuse "rotate-root rejected: another rotation is active or requires recovery")
      | none ↦ do
        (old_user, old_token) ←
            or_return (split_token_id cfg.token_id) (λ e. refuse "rotate-root: invalid token_id")
        suffix ←
            try (random_suffix host) (λ e. err (wrap "proxmox: rotate-root: generate token ID" e))
        let rotation_token_id = codes "vault-rotation-" ++ suffix
        now ← call (time_now host)
        let state =
            provisioning_state cfg.token_id (old_user ++ (codes "!" ++ rotation_token_id)) now
        wal_id ←
            try (put_wal host (root_rotation state))
              (λ e. err (wrap "proxmox: rotate-root: write recovery WAL" e))
        check (put_rotation_state host (record state { wal_id = wal_id }))
            (λ e. err (wrap "proxmox: rotate-root: write rotation state" e))
        pure (record {
          cfg = cfg;
          old_user = old_user;
          old_token = old_token;
          rotation_token_id = rotation_token_id;
          state = record state { wal_id = wal_id };
        })
    ]

  -- Marks the rotation as failed, and returns an error.
  unfoldable pub mark_failed : String → RotationState → Error → Act Outcome Unit
  unfolding put_rotation_state
  mark_failed text state e = do
    check (put_rotation_state host (record state { phase = phase_validation_fail }))
        (λ e'. err (wrap text e'))
    return (err e)

  -- The first answer of `TokenExists`.
  unfoldable pub check_current : Rotation → Result Bool → Act Outcome Unit
  check_current r (ok true) = pure tt
  check_current r (ok false) =
      mark_failed "proxmox: rotate-root: mark current-token validation failure" r.state
        (failure "proxmox: rotate-root: current configured token is absent; rotation refused")
  check_current r (err e) =
      mark_failed "proxmox: rotate-root: mark current-token validation failure" r.state
        (wrap "proxmox: rotate-root: validate current token before replacement" e)

  -- The answer of `validateReplacement`.
  unfoldable pub check_replacement : Rotation → Option Error → Act Outcome Unit
  check_replacement r none = pure tt
  check_replacement r (some e) =
      mark_failed "proxmox: rotate-root: mark validation failure" r.state
        (wrap "proxmox: rotate-root: replacement validation failed" e)

  -- The new token, as a configuration that has been validated.
  unfoldable pub provision : Rotation → Act Outcome Config
  unfolding token_exists create_token new_client
  provision r = do
    old_client ← try (get_client host) err
    found ← call (token_exists host old_client r.old_user r.old_token)
    check_current r found
    secret ←
        try (create_token host old_client r.old_user r.rotation_token_id)
          (λ e. err (wrap "proxmox: rotate-root: create replacement token" e))
    let new_cfg = replacement r secret
    check (new_client host new_cfg)
        (λ e. err (wrap "proxmox: rotate-root: build replacement client" e))
    invalid ← call (validate_replacement host new_cfg r.cfg.token_id)
    check_replacement r invalid
    pure new_cfg

  -- The new configuration is stored, and the cached client dropped.
  unfoldable pub persist : Rotation → Config → Act Outcome Unit
  unfolding storage_put invalidate put_rotation_state
  persist r new_cfg = do
    value ←
        or_return (host.encode_config new_cfg)
          (λ e. err (wrap "proxmox: rotate-root: encode config" e))
    check (storage_put host config_key value)
        (λ e. err (wrap "proxmox: rotate-root: persist replacement config" e))
    call (invalidate config_key)
    check (put_rotation_state host (record r.state { phase = phase_deleting_old }))
        (λ e. err (wrap "proxmox: rotate-root: mark deletion phase" e))

  -- The old token is deleted by the new one.
  unfoldable pub retire : Rotation → Config → Act Outcome Unit
  unfolding delete_token token_exists
  retire r new_cfg = do
    deleted ← call (delete_token host new_cfg r.old_user r.old_token)
    unless_is token_not_found deleted (λ e. err (wrap "proxmox: rotate-root: delete old token" e))
    found ← call (token_exists host new_cfg r.old_user r.old_token)
    confirm_deleted found

  -- The records of the rotation go.
  unfoldable pub conclude : Rotation → Act Outcome Outcome
  unfolding delete_wal storage_delete
  conclude r = do
    check (delete_wal host r.state.wal_id)
        (λ e. err (wrap "proxmox: rotate-root: clear recovery WAL" e))
    check (storage_delete host rotation_storage_key)
        (λ e. err (wrap "proxmox: rotate-root: clear rotation state" e))
    pure (
        ok (
          some (
            reply
              ((codes "token_id", str r.state.new_token_id)
                ∷ (codes "status", str (codes "rotated"))
                ∷ [])
              [])))

  -- From a recorded rotation to its end.
  unfoldable pub replace_token : Rotation → Act Outcome Outcome
  replace_token r = do new_cfg ← provision r; persist r new_cfg; retire r new_cfg; conclude r

  -- The rotation of a stored configuration.
  unfoldable pub rotate_config : Bytes → Option Config → Act Outcome Outcome
  rotate_config expected none = return (refuse "rotate-root requires an existing configuration")
  rotate_config expected (some cfg) = do r ← record_rotation cfg expected; replace_token r

  -- The rotation of the configuration that is stored.
  unfoldable pub start_rotation : Bytes → Act Outcome Outcome
  start_rotation expected = do
    stored ← try (get_config host) (λ e. err (wrap "proxmox: rotate-root: read config" e))
    rotate_config expected stored

  -- A recovery where a token is named, a rotation otherwise.
  unfoldable pub rotate_or_recover : Bytes → Bytes → Act Outcome Outcome
  rotate_or_recover expected [] = start_rotation expected
  rotate_or_recover expected (b ∷ token) = recover_rotation host expected (b ∷ token)

  -- `rotateRoot`
  unfoldable pub rotate_root : RotateFields → Op Outcome
  rotate_root fields = run do
    return_if (not fields.confirm_exclusive) (refuse "rotate-root requires confirm_exclusive=true")
    rotate_or_recover fields.expected_token_id fields.recovery_token_id
