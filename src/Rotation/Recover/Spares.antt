-- ===== src/Rotation/Recover/Spares.antt =====
-- `recoverRotation` of path_rotate_root.go deletes no token that the configuration names.
use vault_custom_secrets_eng.Base.{
  ◌≡◌, ◌≢◌, inl, inr, refl, ◌∙◌, Bool, true, false, Option, none, some, [], ◌∷◌, ◌++◌, Bytes,
  text_eq, text_eq_iff, Bool-cases, arith,
}
use vault_custom_secrets_eng.Pveapi.Errors.{
  Error, Result, ok, err, errors_is, user_not_found, token_not_found,
}
use vault_custom_secrets_eng.Host.{Host}
use vault_custom_secrets_eng.Host.Data.{Config, RotationState}
use vault_custom_secrets_eng.Host.Response.{Outcome}
use vault_custom_secrets_eng.Host.Act.{
  State, continue, or_return, storage_get, storage_delete, token_exists, delete_token, delete_wal,
  try, ◌>>=◌,
}
use vault_custom_secrets_eng.Backend.{get_config, get_client}
use vault_custom_secrets_eng.Rotation.{rotation_storage_key, split_token_id}
use vault_custom_secrets_eng.Rotation.Recover.{
  confirm_recovered, remove_recovered, recover_token, recover_named, recover_guarded,
  recover_rotation, recover_configured, recover_pending, recover_stored,
}
use vault_custom_secrets_eng.Rotation.TokenId.{split_token_id_iff}
use vault_custom_secrets_eng.Rotation.Spares.{
  HasRead, SparesActive, Knows, unless_is-chain, get_config-SparesActive, get_config-HasRead,
  get_client-Knows,
}
use vault_custom_secrets_eng.Host.Chain.{keeps-chain, or_stop-chain}

confirm_recovered-log :
    (Q : State → Type 0) (found : Result Bool) (s : State) → Q s → Q (confirm_recovered found s).1
unfolding confirm_recovered
confirm_recovered-log Q (ok true) s h = h
confirm_recovered-log Q (ok false) s h = h
confirm_recovered-log Q (err e) s h = elim (Bool-cases (errors_is e user_not_found)) [
  | inl same ↦ rw same h
  | inr other ↦ rw other h
]

-- The parts of a text that is not the other do not make up the other.
split_differs :
    (s t user token : Bytes)
    → split_token_id s ≡ ok (user, token)
    → text_eq s t ≡ false
    → user ++ b'!' ∷ token ≢ t
split_differs s t user token e other same =
    let joined = ((split_token_id_iff s user token).0 e).joined in
    let equal = (text_eq_iff s t).1 (joined ∙ same) in cc

module _ (host : Host) where
  remove_recovered-SparesActive :
      (cfg client : Config) (user token : Bytes) (found : Result Bool) (s : State)
      → Knows host cfg s
      → user ++ b'!' ∷ token ≢ cfg.token_id
      → SparesActive host (remove_recovered host client user token found s).1.log
  unfolding remove_recovered
  remove_recovered-SparesActive cfg client user token (ok false) s h other = h.spared
  remove_recovered-SparesActive cfg client user token (err e) s h other =
      elim (Bool-cases (errors_is e user_not_found)) [
        | inl same ↦ rw same h.spared
        | inr different ↦ rw different h.spared
      ]
  remove_recovered-SparesActive cfg client user token (ok true) s h other =
      let deleted = delete_token host client user token s in
      let (again, s') = token_exists host client user token deleted.1 in
      unless_is-chain (λ s''. SparesActive host s''.log) token_not_found deleted.0 err _ deleted.1
        ((cfg, h.read, other), h.spared)
        (confirm_recovered-log (λ s''. SparesActive host s''.log) again s'
          ((cfg, h.read, other), h.spared))

  recover_token-SparesActive :
      (cfg client : Config) (user token : Bytes) (state : RotationState) (name : Bytes) (s : State)
      → Knows host cfg s
      → user ++ b'!' ∷ token ≢ cfg.token_id
      → SparesActive host (recover_token host client user token state name s).1.log
  unfolding recover_token
  recover_token-SparesActive cfg client user token state name s h other =
      let (found, s1) = token_exists host client user token s in
      let Q = λ (s' : State). SparesActive host s'.log in
      keeps-chain Q Q (remove_recovered host client user token found s1) _
        (remove_recovered-SparesActive cfg client user token found s1
          (record { read = h.read; spared = h.spared }) other)
        (λ q. q)
        λ _ s2 q.
          let (gone, s3) = delete_wal host state.wal_id s2 in
          let (cleared, s4) = storage_delete host rotation_storage_key s3 in
          or_stop-chain Q gone _ _ s3 q (or_stop-chain Q cleared _ _ s4 q q)

  after_client :
      (cfg : Config) (user token token_id : Bytes) (state : RotationState) (r : Result Config)
      (s : State)
      → Knows host cfg s
      → user ++ b'!' ∷ token ≢ cfg.token_id
      → let y = or_return r err s in
        SparesActive host
          (continue y.0 (λ client. recover_token host client user token state token_id) y.1).1.log
  after_client cfg user token token_id state (ok client) s h other =
      recover_token-SparesActive cfg client user token state token_id s h other
  after_client cfg user token token_id state (err e) s h other = h.spared

  after_split :
      (cfg : Config) (token_id : Bytes) (state : RotationState) (r : Result (Bytes × Bytes))
      (f : Error → Outcome) (s : State)
      → split_token_id token_id ≡ r
      → text_eq token_id cfg.token_id ≡ false
      → Knows host cfg s
      → let y = or_return r f s in
        SparesActive host
          (continue y.0
            (λ parts. try (get_client host) err >>= λ client.
              recover_token host client parts.0 parts.1 state token_id)
            y.1).1.log
  after_split cfg token_id state (err e) f s h other k = k.spared
  after_split cfg token_id state (ok parts) f s h other k =
      after_client cfg parts.0 parts.1 token_id state (get_client host s).0 (get_client host s).1
        (get_client-Knows host cfg s k)
        (split_differs token_id cfg.token_id parts.0 parts.1 h other)

  recover_named-SparesActive :
      (cfg : Config) (token_id : Bytes) (state : RotationState) (s : State)
      → text_eq token_id cfg.token_id ≡ false
      → Knows host cfg s
      → SparesActive host (recover_named host token_id state s).1.log
  unfolding recover_named
  recover_named-SparesActive cfg token_id state s other k =
      after_split cfg token_id state (split_token_id token_id) _ s refl other k

  recover_guarded-SparesActive :
      (expected token_id : Bytes) (state : RotationState) (cfg : Config) (s : State)
      → Knows host cfg s
      → SparesActive host (recover_guarded host expected token_id state cfg s).1.log
  unfolding recover_guarded
  recover_guarded-SparesActive expected token_id state cfg s h =
      let rest : text_eq token_id cfg.token_id ≡ false
          → SparesActive host (recover_named host token_id state s).1.log =
        λ other. recover_named-SparesActive cfg token_id state s other h in
      ground (arith, h.spared, rest)

  after_read :
      (expected token_id : Bytes) (state : RotationState) (r : Result (Option Config)) (s : State)
      → SparesActive host s.log
      → ((cfg : Config) → r ≡ ok (some cfg) → HasRead host cfg s.log)
      → let y = or_return r err s in
        SparesActive host (continue y.0 (recover_configured host expected token_id state) y.1).1.log
  unfolding recover_configured
  after_read expected token_id state (err e) s h read = h
  after_read expected token_id state (ok none) s h read = h
  after_read expected token_id state (ok (some cfg)) s h read =
      recover_guarded-SparesActive expected token_id state cfg s
        (record { read = read cfg refl; spared = h })

  recover_pending-SparesActive :
      (expected token_id : Bytes) (state : RotationState) (s : State)
      → SparesActive host s.log
      → SparesActive host (recover_pending host expected token_id state s).1.log
  unfolding recover_pending
  recover_pending-SparesActive expected token_id state s h =
      after_read expected token_id state (get_config host s).0 (get_config host s).1
        (get_config-SparesActive host s h) (get_config-HasRead host s)

  after_decode :
      (expected token_id : Bytes) (r : Result RotationState) (f : Error → Outcome) (s : State)
      → SparesActive host s.log
      → let y = or_return r f s in
        SparesActive host (continue y.0 (recover_pending host expected token_id) y.1).1.log
  after_decode expected token_id (ok state) f s h =
      recover_pending-SparesActive expected token_id state s h
  after_decode expected token_id (err e) f s h = h

  after_entry :
      (expected token_id : Bytes) (r : Result (Option Bytes)) (f : Error → Outcome) (s : State)
      → SparesActive host s.log
      → let y = or_return r f s in
        SparesActive host (continue y.0 (recover_stored host expected token_id) y.1).1.log
  unfolding recover_stored
  after_entry expected token_id (err e) f s h = h
  after_entry expected token_id (ok none) f s h = h
  after_entry expected token_id (ok (some value)) f s h =
      after_decode expected token_id (host.decode_rotation value) _ s h

-- A recovery that an operator asks for deletes a token only after it has read a stored
-- configuration that names another one, whatever is requested. The log is empty at first, so that
-- the configuration was read by the recovery itself.
pub recover_rotation-SparesActive :
    (host : Host) (expected token_id : Bytes) (s : State)
    → s.log ≡ []
    → SparesActive host (recover_rotation host expected token_id s).1.log
unfolding recover_rotation
recover_rotation-SparesActive host expected token_id s fresh =
    let (entry, s1) = storage_get host rotation_storage_key s in
    after_entry host expected token_id entry _ s1 (rw fresh tt)
