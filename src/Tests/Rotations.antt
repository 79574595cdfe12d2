-- ===== src/Tests/Rotations.antt =====
-- The theorems on the configuration and on the rotation of its token, at the test host.
use vault_custom_secrets_eng.Base.{
  ◌≡◌, ◌↔◌, refl, codes, pos, Bool, true, false, some, none, [], ◌∷◌, text_eq, if◌then◌else◌,
}
use vault_custom_secrets_eng.Pveapi.Errors.{ok}
use vault_custom_secrets_eng.Host.{Host}
use vault_custom_secrets_eng.Host.Event.{Event, Log}
use vault_custom_secrets_eng.Host.Data.{RotationState}
use vault_custom_secrets_eng.Rotation.{phase_provisioning, phase_validation_fail, split_token_id}
use vault_custom_secrets_eng.Rotation.Spares.{SparesActive}
use vault_custom_secrets_eng.Rotation.TokenId.{IsTokenId, split_token_id_iff}
use vault_custom_secrets_eng.Wal.Rotation.{wal_rollback_rotation}
use vault_custom_secrets_eng.Wal.Rotation.Spares.{wal_rollback_rotation-SparesActive}
use vault_custom_secrets_eng.Rotation.Recover.{recover_rotation}
use vault_custom_secrets_eng.Rotation.Recover.Spares.{recover_rotation-SparesActive}
use vault_custom_secrets_eng.Rotation.Rotate.{RotateFields, rotate_root}
use vault_custom_secrets_eng.Rotation.HandsOver.{HandsOver, rotate_root-HandsOver}
use vault_custom_secrets_eng.ConfigPath.{config_write}
use vault_custom_secrets_eng.ConfigPath.Vetted.{IsVetted, config_write-IsVetted}
use vault_custom_secrets_eng.Tests.{granting_host, test_config, start}

abbrev test_state : RotationState
test_state = record {
  old_token_id = codes "root@pam!vault";
  new_token_id = codes "root@pam!vault-rotation-00000000";
  phase = phase_provisioning;
  wal_id = codes "w1";
  started_at = pos 1000;
}

abbrev exists_unless_deleted : Log → Bool
exists_unless_deleted (Event.token_deleted c userid token r ∷ l) = false
exists_unless_deleted _ = true

-- No rotation is stored, and a token that has just been deleted is gone.
abbrev rotating_host : Host
rotating_host = record granting_host {
  get = λ l key. if text_eq key (codes "config") then ok (some (1 ∷ [])) else ok none;
  token_exists = λ l c userid tokenid. ok (exists_unless_deleted l);
}

-- The rotation of `test_state` is stored, and has failed.
abbrev recovering_host : Host
recovering_host = record rotating_host {
  get = λ l key. if text_eq key (codes "config") then ok (some (1 ∷ [])) else ok (some (3 ∷ []));
  decode_rotation = λ value. ok (record test_state { phase = phase_validation_fail });
}

wal_rollback_rotation-SparesActive_example :
    SparesActive recovering_host (wal_rollback_rotation recovering_host (ok test_state) start).1.log
wal_rollback_rotation-SparesActive_example =
    wal_rollback_rotation-SparesActive recovering_host test_state start (λ e. cc) refl

split_token_id_iff_example :
    (split_token_id (codes "root@pam!vault") ≡ ok (codes "root@pam", codes "vault"))
    ↔ IsTokenId (codes "root@pam!vault") (codes "root@pam") (codes "vault")
split_token_id_iff_example =
    split_token_id_iff (codes "root@pam!vault") (codes "root@pam") (codes "vault")

recover_rotation-SparesActive_example :
    SparesActive recovering_host
      (recover_rotation recovering_host
        (codes "root@pam!vault")
        (codes "root@pam!vault-rotation-00000000")
        start).1.log
recover_rotation-SparesActive_example =
    recover_rotation-SparesActive recovering_host (codes "root@pam!vault")
      (codes "root@pam!vault-rotation-00000000") start refl

config_write-IsVetted_example :
    IsVetted granting_host test_config (config_write granting_host test_config start).1.log
config_write-IsVetted_example = config_write-IsVetted granting_host test_config start refl

abbrev test_fields : RotateFields
test_fields = record {
  confirm_exclusive = true;
  expected_token_id = codes "root@pam!vault";
  recovery_token_id = [];
}

rotate_root-HandsOver_example :
    HandsOver rotating_host
      (codes "root@pam!vault")
      (rotate_root rotating_host test_fields start).1.log
rotate_root-HandsOver_example = rotate_root-HandsOver rotating_host test_fields start refl refl
