-- ===== src/ConfigPath/Vetted.antt =====
-- `configWrite` of path_config.go stores only a configuration that PVE has accepted.
use vault_custom_secrets_eng.Base.{◌≡◌, true, [], ◌∷◌, codes, arith}
use vault_custom_secrets_eng.Pveapi.Errors.{ok}
use vault_custom_secrets_eng.Pveapi.Permissions.{has_privilege}
use vault_custom_secrets_eng.Host.{Host}
use vault_custom_secrets_eng.Host.Data.{Config}
use vault_custom_secrets_eng.Host.Event.{Event, Log}
use vault_custom_secrets_eng.Host.Act.{State}
use vault_custom_secrets_eng.Host.Chain.{EndsWith, ends_after}
use vault_custom_secrets_eng.Backend.{config_key}
use vault_custom_secrets_eng.ConfigPath.{check_fields, refuse_call, vet, store_config, config_write}

-- The newest call was answered by PVE for this configuration.
abbrev pub IsReached : Config → Log → Type 0
IsReached cfg (Event.version_read c (ok version) ∷ l) = c ≡ cfg
IsReached cfg _ = ⊥

-- So was the newest call, with both privileges on the groups, right after such an answer.
abbrev pub IsAccepted : Config → Log → Type 0
IsAccepted cfg (Event.permissions_read c (ok tree) ∷ l) =
    (c ≡ cfg)
    × (has_privilege tree (codes "/access/groups") (codes "User.Modify") ≡ true)
    × (has_privilege tree (codes "/access/groups") (codes "Sys.Audit") ≡ true)
    × IsReached cfg l
IsAccepted cfg _ = ⊥

-- The same, with one read of the storage behind it.
abbrev pub WasAccepted : Config → Log → Type 0
WasAccepted cfg (Event.got key r ∷ l) = IsAccepted cfg l
WasAccepted cfg _ = ⊥

-- Every write to storage is of the configuration, right after it was accepted and the old one read.
abbrev pub IsVetted : Host → Config → Log → Type 0
IsVetted host cfg [] = Unit
IsVetted host cfg (Event.stored key value r ∷ l) =
    (key ≡ config_key)
    × (host.encode_config cfg ≡ ok value)
    × WasAccepted cfg l
    × IsVetted host cfg l
IsVetted host cfg (_ ∷ l) = IsVetted host cfg l

module _ (host : Host) (cfg : Config) where
  check_fields-EndsWith :
      (s : State)
      → IsVetted host cfg s.log
      → EndsWith
          (λ _ s'. IsVetted host cfg s'.log)
          (λ s'. IsVetted host cfg s'.log)
          (check_fields cfg s)
  unfolding check_fields
  check_fields-EndsWith s h = ground arith

  vet-EndsWith :
      (s : State)
      → IsVetted host cfg s.log
      → EndsWith
          (λ _ s'. IsAccepted cfg s'.log × IsVetted host cfg s'.log)
          (λ s'. IsVetted host cfg s'.log)
          (vet host cfg s)
  unfolding vet refuse_call
  vet-EndsWith s h = ground arith

  store_config-IsVetted :
      (s : State)
      → IsAccepted cfg s.log
      → IsVetted host cfg s.log
      → IsVetted host cfg (store_config host cfg s).1.log
  unfolding store_config
  store_config-IsVetted s a h = ground arith

-- From an empty log, a write of the configuration stores it only right after PVE has answered its version and its
-- permissions to the new credentials, and these hold User.Modify and Sys.Audit on the groups;
-- nothing else is stored.
pub config_write-IsVetted :
    (host : Host) (cfg : Config) (s : State)
    → s.log ≡ []
    → IsVetted host cfg (config_write host cfg s).1.log
unfolding config_write
config_write-IsVetted host cfg s fresh =
    let Q : State → Type 0 = λ s'. IsVetted host cfg s'.log in
    ends_after (λ _. Q) Q (check_fields cfg s) _ (check_fields-EndsWith host cfg s (rw fresh tt))
      λ _ s1 h1.
        ends_after (λ _ s'. IsAccepted cfg s'.log × IsVetted host cfg s'.log) Q (vet host cfg s1) _
          (vet-EndsWith host cfg s1 h1) λ _ s2 h2. store_config-IsVetted host cfg s2 h2.0 h2.1
