-- ===== src/Engine/Rotations.antt =====
-- The handlers of path_rotate_root.go update no user.
use vault_custom_secrets_eng.Engine.Recoveries.{recover_rotation-Guards}
use vault_custom_secrets_eng.Rotation.Replacement.{check_realms, validate_replacement}
use vault_custom_secrets_eng.Rotation.{put_rotation_state, split_token_id}
use vault_custom_secrets_eng.Rotation.Rotate.{
  record_rotation, Rotation, persist, retire, conclude, confirm_deleted, provision, mark_failed,
  check_current, check_replacement, replace_token, start_rotation, rotate_config, rotate_or_recover,
  rotate_root, RotateFields, replacement,
}
use vault_custom_secrets_eng.Rotation.Status.{rotation_existence_check, read_rotation_state}
use vault_custom_secrets_eng.Base.{
  Bool, Option, none, some, [], ◌∷◌, Bytes, List, arith, codes, not,
}
use vault_custom_secrets_eng.Pveapi.Errors.{Error, Result, err, failure}
use vault_custom_secrets_eng.Pveapi.Permissions.{PermissionTree, has_privilege}
use vault_custom_secrets_eng.Host.{Host}
use vault_custom_secrets_eng.Host.Data.{Config}
use vault_custom_secrets_eng.Host.Act.{
  try, check, or_return, return_if, storage_get, storage_put, storage_delete, storage_list,
  new_client, get_version_info, get_permissions, put_wal, delete_wal, read_random, time_now,
  create_token, delete_token, token_exists,
}
use vault_custom_secrets_eng.Backend.{get_config, get_client, invalidate}
use vault_custom_secrets_eng.Lease.Renew.{IsGuarded-after}
use vault_custom_secrets_eng.Roles.{get_role}
use vault_custom_secrets_eng.Creds.Steps.{random_suffix}
use vault_custom_secrets_eng.Engine.Guards.{
  Guards, try-Guards, or_return-Guards, get_config-Guards, get_client-Guards, get_role-Guards,
  return_if-Guards, check-Guards,
}

module _ (host : Host) where
  pub rotation_existence_check-Guards : Guards (rotation_existence_check host)
  unfolding rotation_existence_check storage_get
  rotation_existence_check-Guards s h = ground arith

  pub read_rotation_state-Guards : Guards (read_rotation_state host)
  unfolding read_rotation_state storage_get get_config time_now
  read_rotation_state-Guards s h = ground arith

  pub record_rotation-Guards :
      (cfg : Config) (expected : Bytes) → Guards (record_rotation host cfg expected)
  unfolding record_rotation storage_get random_suffix read_random time_now put_wal
      put_rotation_state storage_put
  record_rotation-Guards cfg expected s h = ground arith

  pub persist-Guards : (r : Rotation) (cfg : Config) → Guards (persist host r cfg)
  unfolding persist storage_put invalidate put_rotation_state
  persist-Guards r cfg s h = ground arith

  pub retire-Guards : (r : Rotation) (cfg : Config) → Guards (retire host r cfg)
  unfolding retire delete_token token_exists confirm_deleted
  retire-Guards r cfg s h = ground arith

  pub conclude-Guards : (r : Rotation) → Guards (conclude host r)
  unfolding conclude delete_wal storage_delete
  conclude-Guards r s h = ground arith

  check_realms-Guards :
      (tree : PermissionTree) (names : List Bytes) → Guards (check_realms host tree names)
  unfolding check_realms
  check_realms-Guards tree [] s h = h
  check_realms-Guards tree (name ∷ names) s h =
      IsGuarded-after (try (get_role host name) some s) _
        (try-Guards (get_role host name) some (get_role-Guards host name) s h)
        λ role s1 h1. ground (arith, check_realms-Guards tree names s1 h1)

  validate_replacement-Guards :
      (client : Config) (old : Bytes) → Guards (validate_replacement host client old)
  unfolding validate_replacement get_version_info token_exists get_permissions storage_list
  validate_replacement-Guards client old s h =
      IsGuarded-after (try (get_version_info host client) some s) _
        (try-Guards (get_version_info host client) some (λ s h. h) s h)
        λ version s1 h1.
          IsGuarded-after (or_return (split_token_id old) _ s1) _
            (or_return-Guards (split_token_id old) _ s1 h1)
            λ parts s2 h2.
              IsGuarded-after (try (token_exists host client parts.0 parts.1) _ s2) _
                (try-Guards (token_exists host client parts.0 parts.1) _ (λ s h. h) s2 h2)
                λ exists s3 h3.
                  IsGuarded-after (return_if (not exists) _ s3) _
                    (return_if-Guards (not exists) _ s3 h3)
                    λ _ s4 h4.
                      IsGuarded-after (try (get_permissions host client) some s4) _
                        (try-Guards (get_permissions host client) some (λ s h. h) s4 h4)
                        λ tree s5 h5.
                          let may_modify =
                            has_privilege tree (codes "/access/groups") (codes "User.Modify") in
                          let may_audit =
                            has_privilege tree (codes "/access/groups") (codes "Sys.Audit") in
                          let no_modify =
                            some
                              (failure "replacement token lacks User.Modify at /access/groups") in
                          let no_audit =
                            some (failure "replacement token lacks Sys.Audit at /access/groups") in
                          IsGuarded-after (return_if (not may_modify) no_modify s5) _
                            (return_if-Guards (not may_modify) no_modify s5 h5)
                            λ _ s6 h6.
                              IsGuarded-after (return_if (not may_audit) no_audit s6) _
                                (return_if-Guards (not may_audit) no_audit s6 h6)
                                λ _ s7 h7.
                                  IsGuarded-after (try (storage_list host (codes "roles/")) _ s7) _
                                    (try-Guards (storage_list host (codes "roles/")) _ (λ s h. h) s7
                                      h7)
                                    λ names s8 h8.
                                      IsGuarded-after (check_realms host tree names s8) _
                                        (check_realms-Guards tree names s8 h8) λ _ s9 h9. h9

  marked-Guards : (r : Rotation) (found : Result Bool) → Guards (check_current host r found)
  unfolding check_current mark_failed put_rotation_state storage_put
  marked-Guards r found s h = ground arith

  check_replacement-Guards :
      (r : Rotation) (invalid : Option Error) → Guards (check_replacement host r invalid)
  unfolding check_replacement mark_failed put_rotation_state storage_put
  check_replacement-Guards r invalid s h = ground arith

  provision-Guards : (r : Rotation) → Guards (provision host r)
  unfolding provision token_exists create_token new_client
  provision-Guards r s h =
      IsGuarded-after (try (get_client host) err s) _
        (try-Guards (get_client host) err (get_client-Guards host) s h)
        λ client s1 h1.
          IsGuarded-after (check_current host r _ _) _ (marked-Guards r _ _ h1) λ _ s2 h2.
            IsGuarded-after (try (create_token host client r.old_user r.rotation_token_id) _ s2) _
              (try-Guards (create_token host client r.old_user r.rotation_token_id) _ (λ s h. h) s2
                h2)
              λ secret s3 h3.
                let cfg = replacement r secret in
                IsGuarded-after (check (new_client host cfg) _ s3) _
                  (check-Guards (new_client host cfg) _ (λ s h. h) s3 h3)
                  λ _ s4 h4.
                    let (invalid, s5) = validate_replacement host cfg r.cfg.token_id s4 in
                    IsGuarded-after (check_replacement host r invalid s5) _
                      (check_replacement-Guards r invalid s5
                        (validate_replacement-Guards cfg r.cfg.token_id s4 h4))
                      λ _ s6 h6. h6

  replace_token-Guards : (r : Rotation) → Guards (replace_token host r)
  unfolding replace_token
  replace_token-Guards r s h =
      IsGuarded-after (provision host r s) _ (provision-Guards r s h) λ cfg s1 h1.
        IsGuarded-after (persist host r cfg s1) _ (persist-Guards r cfg s1 h1) λ _ s2 h2.
          IsGuarded-after (retire host r cfg s2) _ (retire-Guards r cfg s2 h2)
            λ _ s3 h3. conclude-Guards r s3 h3

  rotate_config-Guards :
      (expected : Bytes) (stored : Option Config) → Guards (rotate_config host expected stored)
  unfolding rotate_config
  rotate_config-Guards expected none s h = h
  rotate_config-Guards expected (some cfg) s h =
      IsGuarded-after (record_rotation host cfg expected s) _
        (record_rotation-Guards cfg expected s h) replace_token-Guards

  start_rotation-Guards : (expected : Bytes) → Guards (start_rotation host expected)
  unfolding start_rotation
  start_rotation-Guards expected s h =
      IsGuarded-after (try (get_config host) _ s) _
        (try-Guards (get_config host) _ (get_config-Guards host) s h)
        λ stored s1 h1. rotate_config-Guards expected stored s1 h1

  rotate_or_recover-Guards :
      (expected token : Bytes) → Guards (rotate_or_recover host expected token)
  unfolding rotate_or_recover
  rotate_or_recover-Guards expected [] s h = start_rotation-Guards expected s h
  rotate_or_recover-Guards expected (b ∷ token) s h =
      recover_rotation-Guards host expected (b ∷ token) s h

  pub rotate_root-Guards : (fields : RotateFields) → Guards (rotate_root host fields)
  unfolding rotate_root
  rotate_root-Guards fields s h =
      ground (arith, rotate_or_recover-Guards fields.expected_token_id fields.recovery_token_id s h)
