-- ===== src/Rotation/Rotated.antt =====
-- path_rotate_root.go: what stands behind the answer that a token has been rotated.
use vault_custom_secrets_eng.Base.{
  ◌≡◌, Bool, true, false, Option, none, some, [], ◌∷◌, ◌++◌, Bytes, codes,
}
use vault_custom_secrets_eng.Pveapi.Errors.{
  Error, Result, ok, err, errors_is, user_not_found, token_not_found,
}
use vault_custom_secrets_eng.Host.{Host}
use vault_custom_secrets_eng.Host.Data.{Config}
use vault_custom_secrets_eng.Host.Event.{Event, Log}
use vault_custom_secrets_eng.Host.Response.{refusal, reply, Outcome, str}
use vault_custom_secrets_eng.Host.Act.{State}
use vault_custom_secrets_eng.Backend.{config_key}
use vault_custom_secrets_eng.Rotation.{rotation_storage_key, split_token_id}
use vault_custom_secrets_eng.Rotation.Validated.{HasShown}
use vault_custom_secrets_eng.Rotation.Rotate.{Rotation}

-- The rotation is of the token that the request names, and its new token is of the same user.
pub record IsRecorded (expected : Bytes) (r : Rotation) : Type 0 where
  pub as_expected : expected ≡ r.cfg.token_id
  pub split : split_token_id r.cfg.token_id ≡ ok (r.old_user, r.old_token)
  pub same_user : r.state.new_token_id ≡ r.old_user ++ (codes "!" ++ r.rotation_token_id)

-- The configuration is that of the rotation, but names the new token and holds this secret.
pub record IsReplacement (r : Rotation) (secret : Bytes) (cfg : Config) : Type 0 where
  pub new_name : cfg.token_id ≡ r.old_user ++ (codes "!" ++ r.rotation_token_id)
  pub new_secret : cfg.token_secret ≡ secret
  pub address_kept : cfg.address ≡ r.cfg.address
  pub trust_kept : (cfg.tls_skip_verify ≡ r.cfg.tls_skip_verify) × (cfg.ca_cert ≡ r.cfg.ca_cert)
  pub ttls_kept :
      (cfg.default_ttl ≡ r.cfg.default_ttl) × (cfg.default_max_ttl ≡ r.cfg.default_max_ttl)

-- The newest call: PVE made the new token with this secret.
abbrev pub IsMade : Rotation → Bytes → Log → Type 0
IsMade r secret (Event.token_created c user token (ok made) ∷ l) =
    (user ≡ r.old_user) × (token ≡ r.rotation_token_id) × (made ≡ secret)
IsMade r secret _ = ⊥

-- Then a client was built with it.
abbrev pub IsMinted : Rotation → Bytes → Log → Type 0
IsMinted r secret (Event.client_built c none ∷ l) = IsReplacement r secret c × IsMade r secret l
IsMinted r secret _ = ⊥

-- Then the new configuration was validated, and nothing else was done.
pub record IsValidated (host : Host) (r : Rotation) (cfg : Config) (l : Log) : Type 0 where
  pub secret : Bytes
  pub replaces : IsReplacement r secret cfg
  pub before : Log
  pub minted : IsMinted r secret before
  pub valid : HasShown host cfg r.old_user r.old_token before l

-- Then the new configuration was stored, and after it the state of the rotation.
abbrev pub IsStored : Host → Rotation → Config → Log → Type 0
IsStored host r cfg (Event.stored key' value' none ∷ Event.stored key value none ∷ l) =
    (key' ≡ rotation_storage_key)
    × (key ≡ config_key)
    × (host.encode_config cfg ≡ ok value)
    × IsValidated host r cfg l
IsStored host r cfg _ = ⊥

-- A token was deleted or was not there.
abbrev pub IsDeleted : Option Error → Type 0
IsDeleted none = Unit
IsDeleted (some e) = errors_is e token_not_found ≡ true

-- The list of the user's tokens lacks it, or there is no such user.
abbrev pub IsAbsent : Result Bool → Type 0
IsAbsent (ok exists) = exists ≡ false
IsAbsent (err e) = errors_is e user_not_found ≡ true

-- Then the new token deleted the old one, and saw that it was gone.
abbrev pub IsRetired : Host → Rotation → Config → Log → Type 0
IsRetired host r cfg (Event.token_sought c' u' t' found ∷ Event.token_deleted c u t deleted ∷ l) =
    (c ≡ cfg)
    × (u ≡ r.old_user)
    × (t ≡ r.old_token)
    × (c' ≡ cfg)
    × (u' ≡ r.old_user)
    × (t' ≡ r.old_token)
    × IsDeleted deleted
    × IsAbsent found
    × IsStored host r cfg l
IsRetired host r cfg _ = ⊥

-- Then the WAL entry was deleted.
abbrev pub IsCleared : Host → Rotation → Config → Log → Type 0
IsCleared host r cfg (Event.wal_deleted id none ∷ l) =
    (id ≡ r.state.wal_id) × IsRetired host r cfg l
IsCleared host r cfg _ = ⊥

-- At last the state of the rotation was deleted.
abbrev pub IsConcluded : Host → Rotation → Config → Log → Type 0
IsConcluded host r cfg (Event.deleted key none ∷ l) =
    (key ≡ rotation_storage_key) × IsCleared host r cfg l
IsConcluded host r cfg _ = ⊥

-- An answer with data is the name of the new token, after all of this.
abbrev pub IsRotated : Host → Bytes → Outcome × State → Type 0
IsRotated host expected (ok (some (reply fields warnings)), s) =
    (r : Rotation) × (cfg : Config) × (IsRecorded expected r
      × (fields
          ≡ (codes "token_id", str r.state.new_token_id)
            ∷ (codes "status", str (codes "rotated"))
            ∷ [])
      × (warnings ≡ [])
      × IsConcluded host r cfg s.log)
IsRotated host expected (ok (some (refusal text)), s) = Unit
IsRotated host expected (err e, s) = Unit
IsRotated host expected (ok _, s) = ⊥
