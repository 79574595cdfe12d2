-- ===== src/Rotation/Status.antt =====
-- path_rotate_root.go: what a read of <mount>/rotate-root tells.
use vault_custom_secrets_eng.Base.{
  ℕ, ◌*◌, Bool, true, false, ◌&&◌, ◌||◌, Option, none, some, [], ◌∷◌, Bytes, codes, text_eq, ℤ, pos,
  ◌+ℤ◌, eqb_ℤ, ltb_ℤ, mul_ℕ, if◌then◌else◌,
}
use vault_custom_secrets_eng.Pveapi.Errors.{wrap, Result, ok, err}
use vault_custom_secrets_eng.Host.{Host}
use vault_custom_secrets_eng.Host.Data.{Config, RotationState}
use vault_custom_secrets_eng.Host.Response.{str, reply, Outcome}
use vault_custom_secrets_eng.Host.Act.{
  Op, ◌>>=◌, pure, call, or_return, try, run, storage_get, time_now,
}
use vault_custom_secrets_eng.Backend.{get_config}
use vault_custom_secrets_eng.Roles.Ttls.{nanoseconds}
use vault_custom_secrets_eng.Rotation.{
  rotation_storage_key, phase_provisioning, phase_validation_fail, phase_config_persist,
  phase_deleting_old,
}

-- `rotationStaleAfter`, five minutes
abbrev pub rotation_stale_after : ℕ
rotation_stale_after = 5 * 60 * nanoseconds

-- `time.Since(time.Unix(startedAt, 0)) > rotationStaleAfter`
unfoldable pub is_stale : ℤ → ℕ → Bool
is_stale started_at now = ltb_ℤ (mul_ℕ started_at nanoseconds +ℤ pos rotation_stale_after) (pos now)

-- `rotationStatus` at a time
unfoldable pub rotation_status : RotationState → Option Config → ℕ → Bytes
unfolding is_stale
rotation_status state none now = codes "recovery-required"
rotation_status state (some cfg) now =
    if text_eq state.phase phase_validation_fail
    then codes "recovery-required"
    else if eqb_ℤ state.started_at (pos 0) || is_stale state.started_at now
    then codes "recovery-required"
    else if text_eq cfg.token_id state.old_token_id
        && (text_eq state.phase phase_provisioning || text_eq state.phase (codes "in-progress"))
    then codes "in-progress"
    else if text_eq cfg.token_id state.new_token_id
        && (text_eq state.phase phase_config_persist || text_eq state.phase phase_deleting_old)
    then codes "in-progress"
    else codes "recovery-required"

module _ (host : Host) where
  -- `rotationExistenceCheck`
  unfoldable pub rotation_existence_check : Op (Result Bool)
  unfolding storage_get
  rotation_existence_check = run do
    entry ← try (storage_get host rotation_storage_key) err
    elim entry [ none ↦ pure (ok false) | some value ↦ pure (ok true) ]

  -- `readRotationState`; the clock is read also where the status does not need it.
  unfoldable pub read_rotation_state : Op Outcome
  unfolding storage_get get_config time_now rotation_status
  read_rotation_state = run do
    entry ←
        try (storage_get host rotation_storage_key)
          (λ e. err (wrap "proxmox: read rotation state" e))
    elim entry [
      | none ↦ pure (ok none)
      | some value ↦ do
        state ←
            or_return (host.decode_rotation value)
              (λ e. err (wrap "proxmox: decode rotation state" e))
        cfg ← try (get_config host) (λ e. err (wrap "proxmox: read config for rotation status" e))
        now ← call (time_now host)
        pure (
            ok (
              some (
                reply
                  ((codes "status", str (rotation_status state cfg now))
                    ∷ (codes "old_token_id", str state.old_token_id)
                    ∷ (codes "new_token_id", str state.new_token_id)
                    ∷ [])
                  [])))
    ]
