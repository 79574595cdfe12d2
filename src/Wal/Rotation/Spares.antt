-- ===== src/Wal/Rotation/Spares.antt =====
-- `walRollbackRotation` of wal.go deletes no token that the configuration names.
use vault_custom_secrets_eng.Base.{
  ◌≡◌, ◌≢◌, refl, Bool, true, false, Option, none, some, [], ◌∷◌, ◌++◌, Bytes, text_eq_iff, arith,
}
use vault_custom_secrets_eng.Pveapi.Errors.{Result, ok, err, token_not_found}
use vault_custom_secrets_eng.Host.{Host}
use vault_custom_secrets_eng.Host.Data.{Config, RotationState}
use vault_custom_secrets_eng.Host.Act.{
  State, continue, or_return, storage_get, storage_delete, token_exists, delete_token,
}
use vault_custom_secrets_eng.Backend.{get_config, get_client}
use vault_custom_secrets_eng.Rotation.{rotation_storage_key}
use vault_custom_secrets_eng.Rotation.TokenId.{split_token_id_iff}
use vault_custom_secrets_eng.Rotation.Spares.{
  HasRead, SparesActive, Knows, unless_is-chain, get_config-SparesActive, get_config-HasRead,
  get_client-Knows,
}
use vault_custom_secrets_eng.Host.Chain.{or_stop-chain, or_return-chain}
use vault_custom_secrets_eng.Wal.Rotation.{
  Tokens, both_split, same_user, rotation_tokens, unused_token, remove_token,
  recover_rotation_token, drop_malformed_rotation_wal, recover_unused, recover_with, recover_entry,
  recover_or_drop, wal_rollback_rotation,
}

-- The token IDs of a state, put together from their parts.
abbrev IsTokens : RotationState → Tokens → Type 0
IsTokens state tokens =
    (state.old_token_id ≡ tokens.owner ++ b'!' ∷ tokens.old_token)
    × (state.new_token_id ≡ tokens.owner ++ b'!' ∷ tokens.new_token)

both_split-ok :
    (x y : Result (Bytes × Bytes)) (tokens : Tokens)
    → both_split x y ≡ some tokens
    → (x ≡ ok (tokens.owner, tokens.old_token)) × (y ≡ ok (tokens.owner, tokens.new_token))
unfolding both_split same_user
both_split-ok (ok x) (ok y) tokens h = ground (arith, text_eq_iff x.0 y.0)
both_split-ok (ok x) (err e) tokens h = cc
both_split-ok (err e) y tokens h = cc

rotation_tokens-IsTokens :
    (state : RotationState) (tokens : Tokens)
    → rotation_tokens state ≡ some tokens
    → IsTokens state tokens
unfolding rotation_tokens
rotation_tokens-IsTokens state tokens h =
    let (old, new) = both_split-ok _ _ tokens h in
    (((split_token_id_iff _ _ _).0 old).joined, ((split_token_id_iff _ _ _).0 new).joined)

-- The token that the switch chooses is not the configuration's.
unused_token-unused :
    (state : RotationState) (tokens : Tokens) (cfg : Config) (token : Bytes)
    → IsTokens state tokens
    → state.old_token_id ≢ state.new_token_id
    → unused_token state tokens cfg ≡ some token
    → tokens.owner ++ b'!' ∷ token ≢ cfg.token_id
unfolding unused_token
unused_token-unused state tokens cfg token parts distinct h = ground (
  arith,
  text_eq_iff cfg.token_id state.old_token_id,
  text_eq_iff cfg.token_id state.new_token_id,
)

module _ (host : Host) where
  remove_token-SparesActive :
      (cfg client : Config) (user token : Bytes) (found : Result Bool) (s : State)
      → Knows host cfg s
      → user ++ b'!' ∷ token ≢ cfg.token_id
      → SparesActive host (remove_token host client user token found s).1.log
  unfolding remove_token
  remove_token-SparesActive cfg client user token (ok false) s h other = h.spared
  remove_token-SparesActive cfg client user token (err e) s h other = h.spared
  remove_token-SparesActive cfg client user token (ok true) s h other =
      let deleted = delete_token host client user token s in
      unless_is-chain (λ s'. SparesActive host s'.log) token_not_found deleted.0 some _ deleted.1
        ((cfg, h.read, other), h.spared) ((cfg, h.read, other), h.spared)

  recover_rotation_token-SparesActive :
      (cfg client : Config) (user token : Bytes) (s : State)
      → Knows host cfg s
      → user ++ b'!' ∷ token ≢ cfg.token_id
      → SparesActive host (recover_rotation_token host client user token s).1.log
  unfolding recover_rotation_token
  recover_rotation_token-SparesActive cfg client user token s h other =
      let (found, s') = token_exists host client user token s in
      remove_token-SparesActive cfg client user token found s'
        (record { read = h.read; spared = h.spared }) other

  recover_unused-SparesActive :
      (cfg client : Config) (user : Bytes) (token : Option Bytes) (s : State)
      → Knows host cfg s
      → ((t : Bytes) → token ≡ some t → user ++ b'!' ∷ t ≢ cfg.token_id)
      → SparesActive host (recover_unused host client user token s).1.log
  unfolding recover_unused
  recover_unused-SparesActive cfg client user none s h other = h.spared
  recover_unused-SparesActive cfg client user (some token) s h other =
      let removed =
        recover_rotation_token-SparesActive cfg client user token s h (other token refl) in
      let (failed, s') = recover_rotation_token host client user token s in
      unless_is-chain (λ s''. SparesActive host s''.log) token_not_found failed some _ s' removed
        (or_stop-chain (λ s''. SparesActive host s''.log)
          (storage_delete host rotation_storage_key s').0 some _
          (storage_delete host rotation_storage_key s').1 removed removed)

  recover_with-SparesActive :
      (state : RotationState) (tokens : Tokens) (cfg : Config) (s : State)
      → IsTokens state tokens
      → state.old_token_id ≢ state.new_token_id
      → Knows host cfg s
      → SparesActive host (recover_with host state tokens (some cfg) s).1.log
  unfolding recover_with
  recover_with-SparesActive state tokens cfg s parts distinct h =
      or_return-chain (Knows host cfg) (λ s'. SparesActive host s'.log) (get_client host s).0 _ _
        (get_client host s).1 (get_client-Knows host cfg s h) (λ k. k.spared)
        λ client _.
          recover_unused-SparesActive cfg client tokens.owner (unused_token state tokens cfg) _
            (get_client-Knows host cfg s h)
            λ t e. unused_token-unused state tokens cfg t parts distinct e

  after_read :
      (state : RotationState) (tokens : Tokens) (r : Result (Option Config)) (s : State)
      → IsTokens state tokens
      → state.old_token_id ≢ state.new_token_id
      → SparesActive host s.log
      → ((cfg : Config) → r ≡ ok (some cfg) → HasRead host cfg s.log)
      → let y = or_return r some s in
        SparesActive host (continue y.0 (recover_with host state tokens) y.1).1.log
  unfolding recover_with
  after_read state tokens (err e) s parts distinct h read = h
  after_read state tokens (ok none) s parts distinct h read = h
  after_read state tokens (ok (some cfg)) s parts distinct h read =
      recover_with-SparesActive state tokens cfg s parts distinct
        (record { read = read cfg refl; spared = h })

  recover_entry-SparesActive :
      (state : RotationState) (tokens : Tokens) (s : State)
      → IsTokens state tokens
      → state.old_token_id ≢ state.new_token_id
      → SparesActive host s.log
      → SparesActive host (recover_entry host state tokens s).1.log
  unfolding recover_entry
  recover_entry-SparesActive state tokens s parts distinct h =
      let s1 = (storage_get host rotation_storage_key s).1 in
      ground (
        arith,
        after_read state tokens (get_config host s1).0 (get_config host s1).1 parts distinct
            (get_config-SparesActive host s1 h) (get_config-HasRead host s1),
      )

  drop_malformed-SparesActive :
      (state : RotationState) (s : State)
      → SparesActive host s.log
      → SparesActive host (drop_malformed_rotation_wal host state s).1.log
  unfolding drop_malformed_rotation_wal
  drop_malformed-SparesActive state s h = ground arith

  recover_or_drop-SparesActive :
      (state : RotationState) (tokens : Option Tokens) (s : State)
      → ((t : Tokens) → tokens ≡ some t → IsTokens state t)
      → state.old_token_id ≢ state.new_token_id
      → SparesActive host s.log
      → SparesActive host (recover_or_drop host state tokens s).1.log
  unfolding recover_or_drop
  recover_or_drop-SparesActive state none s parts distinct h = drop_malformed-SparesActive state s h
  recover_or_drop-SparesActive state (some t) s parts distinct h =
      recover_entry-SparesActive state t s (parts t refl) distinct h

-- The recovery of a rotation whose two token IDs differ deletes a token only after it has read a
-- stored configuration that names another one. The log is empty at first, so that the
-- configuration was read by the recovery itself.
pub wal_rollback_rotation-SparesActive :
    (host : Host) (state : RotationState) (s : State)
    → state.old_token_id ≢ state.new_token_id
    → s.log ≡ []
    → SparesActive host (wal_rollback_rotation host (ok state) s).1.log
unfolding wal_rollback_rotation
wal_rollback_rotation-SparesActive host state s distinct fresh =
    recover_or_drop-SparesActive host state (rotation_tokens state) s
      (rotation_tokens-IsTokens state) distinct (rw fresh tt)
