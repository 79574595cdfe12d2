-- ===== src/Engine/Recoveries.antt =====
-- `recoverRotation` of path_rotate_root.go and `walRollbackRotation` of wal.go update no user.
use vault_custom_secrets_eng.Wal.Rotation.{
  wal_rollback_rotation, recover_or_drop, drop_malformed_rotation_wal, recover_entry, recover_with,
  recover_unused, recover_rotation_token, remove_token, confirm_removed, rotation_tokens, Tokens,
}
use vault_custom_secrets_eng.Rotation.Recover.{
  recover_rotation, recover_stored, recover_pending, recover_configured, recover_guarded,
  recover_named, recover_token, remove_recovered, confirm_recovered,
}
use vault_custom_secrets_eng.Rotation.{split_token_id, rotation_storage_key}
use vault_custom_secrets_eng.Base.{Option, none, some, Bytes, arith}
use vault_custom_secrets_eng.Pveapi.Errors.{Result}
use vault_custom_secrets_eng.Host.{Host}
use vault_custom_secrets_eng.Host.Data.{Config, RotationState}
use vault_custom_secrets_eng.Host.Act.{
  try, or_return, storage_get, storage_delete, delete_wal, delete_token, token_exists,
}
use vault_custom_secrets_eng.Backend.{get_config, get_client}
use vault_custom_secrets_eng.Lease.Renew.{IsGuarded-after}
use vault_custom_secrets_eng.Engine.Guards.{
  Guards, try-Guards, or_return-Guards, get_config-Guards, get_client-Guards,
}

module _ (host : Host) where
  pub recover_token-Guards :
      (client : Config) (user token : Bytes) (state : RotationState) (given : Bytes)
      → Guards (recover_token host client user token state given)
  unfolding recover_token remove_recovered confirm_recovered delete_token token_exists delete_wal
      storage_delete
  recover_token-Guards client user token state given s h = ground arith

  pub recover_named-Guards :
      (given : Bytes) (state : RotationState) → Guards (recover_named host given state)
  unfolding recover_named
  recover_named-Guards given state s h =
      IsGuarded-after (or_return (split_token_id given) _ s) _
        (or_return-Guards (split_token_id given) _ s h)
        λ parts s1 h1.
          IsGuarded-after (try (get_client host) _ s1) _
            (try-Guards (get_client host) _ (get_client-Guards host) s1 h1)
            λ client s2 h2. recover_token-Guards client parts.0 parts.1 state given s2 h2

  pub recover_configured-Guards :
      (expected given : Bytes) (state : RotationState) (stored : Option Config)
      → Guards (recover_configured host expected given state stored)
  unfolding recover_configured recover_guarded
  recover_configured-Guards expected given state none s h = h
  recover_configured-Guards expected given state (some cfg) s h =
      ground (arith, recover_named-Guards given state s h)

  pub recover_stored-Guards :
      (expected given : Bytes) (entry : Option Bytes)
      → Guards (recover_stored host expected given entry)
  unfolding recover_stored recover_pending
  recover_stored-Guards expected given none s h = h
  recover_stored-Guards expected given (some value) s h =
      IsGuarded-after (or_return (host.decode_rotation value) _ s) _
        (or_return-Guards (host.decode_rotation value) _ s h)
        λ state s1 h1.
          IsGuarded-after (try (get_config host) _ s1) _
            (try-Guards (get_config host) _ (get_config-Guards host) s1 h1)
            λ stored s2 h2. recover_configured-Guards expected given state stored s2 h2

  pub recover_rotation-Guards :
      (expected given : Bytes) → Guards (recover_rotation host expected given)
  unfolding recover_rotation storage_get
  recover_rotation-Guards expected given s h =
      IsGuarded-after (try (storage_get host rotation_storage_key) _ s) _
        (try-Guards (storage_get host rotation_storage_key) _ (λ s h. h) s h)
        λ entry s1 h1. recover_stored-Guards expected given entry s1 h1

  recover_unused-Guards :
      (client : Config) (user : Bytes) (token : Option Bytes)
      → Guards (recover_unused host client user token)
  unfolding recover_unused recover_rotation_token remove_token confirm_removed delete_token
      token_exists storage_delete
  recover_unused-Guards client user token s h = ground arith

  recover_with-Guards :
      (state : RotationState) (tokens : Tokens) (cfg : Option Config)
      → Guards (recover_with host state tokens cfg)
  unfolding recover_with
  recover_with-Guards state tokens none s h = h
  recover_with-Guards state tokens (some cfg) s h =
      IsGuarded-after (try (get_client host) _ s) _
        (try-Guards (get_client host) _ (get_client-Guards host) s h)
        λ client s1 h1. recover_unused-Guards client tokens.owner _ s1 h1

  recover_entry-Guards :
      (state : RotationState) (tokens : Tokens) → Guards (recover_entry host state tokens)
  unfolding recover_entry storage_get
  recover_entry-Guards state tokens s h =
      let s1 = (storage_get host rotation_storage_key s).1 in
      ground (
        arith,
        IsGuarded-after (try (get_config host) some s1) (recover_with host state tokens)
            (try-Guards (get_config host) some (get_config-Guards host) s1 h)
            (recover_with-Guards state tokens),
      )

  drop_malformed-Guards : (state : RotationState) → Guards (drop_malformed_rotation_wal host state)
  unfolding drop_malformed_rotation_wal storage_get storage_delete
  drop_malformed-Guards state s h = ground arith

  recover_or_drop-Guards :
      (state : RotationState) (tokens : Option Tokens) → Guards (recover_or_drop host state tokens)
  unfolding recover_or_drop
  recover_or_drop-Guards state none s h = drop_malformed-Guards state s h
  recover_or_drop-Guards state (some tokens) s h = recover_entry-Guards state tokens s h

  pub wal_rollback_rotation-Guards :
      (decoded : Result RotationState) → Guards (wal_rollback_rotation host decoded)
  unfolding wal_rollback_rotation
  wal_rollback_rotation-Guards decoded s h =
      IsGuarded-after (or_return decoded _ s) _ (or_return-Guards decoded _ s h)
        λ state s1 h1. recover_or_drop-Guards state (rotation_tokens state) s1 h1
