-- ===== src/Rotation.antt =====
-- path_rotate_root.go: the rotation of the token that the engine itself uses.
pub mod Rotated
pub mod Validated
pub mod Shown
pub mod Provisioned
pub mod Success
pub mod Status
pub mod Replacement
pub mod Rotate
pub mod Recover
pub mod TokenId
pub mod Spares
pub mod MadeToken
pub mod HandsOver
use vault_custom_secrets_eng.Base.{
  ℕ, suc, ◌||◌, not, Option, none, some, [], ◌∷◌, ◌++◌, Bytes, codes, length, take, drop, ◌==◌,
  last_index, if◌then◌else◌,
}
use vault_custom_secrets_eng.Pveapi.Errors.{Error, Sentinel, failure, errors_is, Result, ok, err}
use vault_custom_secrets_eng.Host.{Host}
use vault_custom_secrets_eng.Host.Data.{RotationState}
use vault_custom_secrets_eng.Host.Act.{Op, Act, pure, return_if, storage_put}

abbrev pub rotation_storage_key : Bytes
rotation_storage_key = codes "rotation"

abbrev pub phase_provisioning : Bytes
phase_provisioning = codes "provisioning"

abbrev pub phase_validation_fail : Bytes
phase_validation_fail = codes "validation-failed"

abbrev pub phase_config_persist : Bytes
phase_config_persist = codes "config-persisted"

abbrev pub phase_deleting_old : Bytes
phase_deleting_old = codes "deleting-old"

-- What follows `strings.LastIndex` in `splitTokenID`.
unfoldable pub split_at : Bytes → Option ℕ → Result (Bytes × Bytes)
split_at token_id none = err (failure "invalid token_id: expected <user>@<realm>!<tokenid>")
split_at token_id (some i) =
    if i == 0 || suc i == length token_id
    then err (failure "invalid token_id: expected <user>@<realm>!<tokenid>")
    else ok (take i token_id, drop (suc i) token_id)

-- `splitTokenID`
unfoldable pub split_token_id : Bytes → Result (Bytes × Bytes)
split_token_id token_id = split_at token_id (last_index b'!' token_id)

module _ {R : Type 0} where
  -- `if err := ...; err != nil && !errors.Is(err, target) { return f(err) }`
  abbrev pub unless_is : Sentinel → Option Error → (Error → R) → Act R Unit
  unless_is target none f = pure tt
  unless_is target (some e) f = return_if (not (errors_is e target)) (f e)

module _ (host : Host) where
  -- `putRotationState`
  unfoldable pub put_rotation_state : RotationState → Op (Option Error)
  unfolding storage_put
  put_rotation_state state = elim (host.encode_rotation state) [
    | err e ↦ λ s. (some e, s)
    | ok value ↦ storage_put host rotation_storage_key value
  ]
