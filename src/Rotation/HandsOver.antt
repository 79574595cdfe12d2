-- ===== src/Rotation/HandsOver.antt =====
-- `rotateRoot` of path_rotate_root.go: no token is deleted before the one that replaces it is stored.
use Prim.Native.String.{String}
use vault_custom_secrets_eng.Base.{
  ◌≡◌, ◌++◌, codes, Bool, true, false, Option, none, some, List, [], ◌∷◌, Bytes, arith,
}
use vault_custom_secrets_eng.Pveapi.Errors.{Error, Result, ok, err}
use vault_custom_secrets_eng.Pveapi.Permissions.{PermissionTree}
use vault_custom_secrets_eng.Host.{Host}
use vault_custom_secrets_eng.Host.Data.{Config, RotationState}
use vault_custom_secrets_eng.Host.Event.{Event, Log}
use vault_custom_secrets_eng.Host.Act.{State}
use vault_custom_secrets_eng.Host.Chain.{EndsWith, ends_after}
use vault_custom_secrets_eng.Host.Act.{Flow, next, stop}
use vault_custom_secrets_eng.Host.Response.{Outcome}
use vault_custom_secrets_eng.Host.Returns.{EndsIn}
use vault_custom_secrets_eng.Rotation.MadeToken.{MadeToken, IsValidated-MadeToken, old_token_lem}
use vault_custom_secrets_eng.Rotation.Rotated.{IsValidated, IsRecorded}
use vault_custom_secrets_eng.Rotation.Provisioned.{record_rotation-EndsIn, provision-EndsIn}
use vault_custom_secrets_eng.Backend.{config_key, get_config, get_client}
use vault_custom_secrets_eng.Roles.{get_role}
use vault_custom_secrets_eng.Rotation.{rotation_storage_key, put_rotation_state}
use vault_custom_secrets_eng.Rotation.Replacement.{check_realms, validate_replacement}
use vault_custom_secrets_eng.Rotation.Rotate.{
  RotateFields, Rotation, confirm_deleted, record_rotation, mark_failed, check_current,
  check_replacement, provision, persist, retire, conclude, replace_token, start_rotation,
  rotate_or_recover, rotate_root, rotate_config,
}

-- The newest call has stored the configuration.
abbrev pub StoredConfig : Host → Config → Log → Type 0
StoredConfig host cfg (Event.stored key value none ∷ l) =
    (key ≡ config_key) × (host.encode_config cfg ≡ ok value)
StoredConfig host cfg _ = ⊥

-- The newest call has stored the state of the rotation, right after the configuration was stored.
abbrev pub IsPersisted : Host → Config → Log → Type 0
IsPersisted host cfg (Event.stored key value none ∷ l) =
    (key ≡ rotation_storage_key) × StoredConfig host cfg l
IsPersisted host cfg _ = ⊥

-- Only the old token is deleted, by a client of the configuration that has just been stored and that
-- names a token that PVE has made for this rotation.
abbrev pub HandsOver : Host → Bytes → Log → Type 0
HandsOver host old [] = Unit
HandsOver host old (Event.token_deleted c user token r ∷ l) =
    (user ++ (codes "!" ++ token) ≡ old)
    × MadeToken c l
    × IsPersisted host c l
    × HandsOver host old l
HandsOver host old (_ ∷ l) = HandsOver host old l

-- A property of the value that a step goes on with joins what the step keeps.
joined :
    {A : Type 0} (P : A → State → Type 0) (Q : State → Type 0) (x : Flow Outcome A × State)
    → EndsIn P x
    → EndsWith (λ (v : A) s. Q s) Q x
    → EndsWith (λ v s. P v s × Q s) Q x
joined P Q (next v, s) h k = (h, k)
joined P Q (stop r, s) h k = k

module _ (host : Host) (old : Bytes) where
  abbrev Safe : State → Type 0
  Safe s = HandsOver host old s.log

  get_role-Safe : (name : Bytes) (s : State) → Safe s → Safe (get_role host name s).1
  unfolding get_role
  get_role-Safe name s h = ground arith

  get_config-Safe : (s : State) → Safe s → Safe (get_config host s).1
  unfolding get_config
  get_config-Safe s h = ground arith

  get_client-Safe : (s : State) → Safe s → Safe (get_client host s).1
  unfolding get_client
  get_client-Safe s h = ground arith

  check_realms-Safe :
      (tree : PermissionTree) (names : List Bytes) (s : State)
      → Safe s
      → Safe (check_realms host tree names s).1
  unfolding check_realms
  check_realms-Safe tree [] s h = h
  check_realms-Safe tree (name ∷ names) s h = ground (
    arith,
    get_role-Safe name s h,
    check_realms-Safe tree names (get_role host name s).1 (get_role-Safe name s h),
  )

  validate_replacement-Safe :
      (cfg : Config) (name : Bytes) (s : State)
      → Safe s
      → Safe (validate_replacement host cfg name s).1
  unfolding validate_replacement
  validate_replacement-Safe cfg name s h = grind (arith, check_realms-Safe)

  record_rotation-EndsWith :
      (cfg : Config) (expected : Bytes) (s : State)
      → Safe s
      → EndsWith (λ (r : Rotation) s'. Safe s') Safe (record_rotation host cfg expected s)
  unfolding record_rotation
  record_rotation-EndsWith cfg expected s h = ground arith

  put_rotation_state-Safe :
      (state : RotationState) (s : State) → Safe s → Safe (put_rotation_state host state s).1
  unfolding put_rotation_state
  put_rotation_state-Safe state s h = ground arith

  mark_failed-EndsWith :
      (text : String) (state : RotationState) (e : Error) (s : State)
      → Safe s
      → EndsWith (λ (u : Unit) s'. Safe s') Safe (mark_failed host text state e s)
  unfolding mark_failed
  mark_failed-EndsWith text state e s h = ground arith

  check_current-EndsWith :
      (r : Rotation) (found : Result Bool) (s : State)
      → Safe s
      → EndsWith (λ (u : Unit) s'. Safe s') Safe (check_current host r found s)
  unfolding check_current
  check_current-EndsWith r (ok true) s h = h
  check_current-EndsWith r (ok false) s h = mark_failed-EndsWith _ _ _ s h
  check_current-EndsWith r (err e) s h = mark_failed-EndsWith _ _ _ s h

  check_replacement-EndsWith :
      (r : Rotation) (invalid : Option Error) (s : State)
      → Safe s
      → EndsWith (λ (u : Unit) s'. Safe s') Safe (check_replacement host r invalid s)
  unfolding check_replacement
  check_replacement-EndsWith r none s h = h
  check_replacement-EndsWith r (some e) s h = mark_failed-EndsWith _ _ _ s h

  persist-EndsWith :
      (r : Rotation) (cfg : Config) (s : State)
      → MadeToken cfg s.log
      → Safe s
      → EndsWith
          (λ (u : Unit) s'. (IsPersisted host cfg s'.log × MadeToken cfg s'.log) × Safe s')
          Safe
          (persist host r cfg s)
  unfolding persist
  persist-EndsWith r cfg s made h = ground arith

  confirm_deleted-EndsWith :
      (found : Result Bool) (s : State)
      → Safe s
      → EndsWith (λ (u : Unit) s'. Safe s') Safe (confirm_deleted found s)
  unfolding confirm_deleted
  confirm_deleted-EndsWith found s h = ground arith

  conclude-Safe : (r : Rotation) (s : State) → Safe s → Safe (conclude host r s).1
  unfolding conclude
  conclude-Safe r s h = ground arith

  provision-EndsWith :
      (r : Rotation) (s : State)
      → Safe s
      → EndsWith (λ (cfg : Config) s'. Safe s') Safe (provision host r s)
  unfolding provision
  provision-EndsWith r s h = grind (
    arith, get_client-Safe, check_current-EndsWith, check_replacement-EndsWith,
    validate_replacement-Safe,
  )

  retire-EndsWith :
      (r : Rotation) (cfg : Config) (s : State)
      → r.old_user ++ (codes "!" ++ r.old_token) ≡ old
      → IsPersisted host cfg s.log
      → MadeToken cfg s.log
      → Safe s
      → EndsWith (λ (u : Unit) s'. Safe s') Safe (retire host r cfg s)
  unfolding retire
  retire-EndsWith r cfg s named p made h = grind (arith, confirm_deleted-EndsWith)

  replace_token-Safe :
      (r : Rotation) (s : State) → IsRecorded old r → Safe s → Safe (replace_token host r s).1
  unfolding replace_token
  replace_token-Safe r s recorded h =
      ends_after (λ (c : Config) s'. IsValidated host r c s'.log × Safe s') Safe
        (provision host r s) _
        (joined (λ cfg s'. IsValidated host r cfg s'.log) Safe (provision host r s)
          (provision-EndsIn host old r s recorded) (provision-EndsWith r s h))
        λ cfg s1 (valid, h1).
          ends_after
            (λ (u : Unit) s'. (IsPersisted host cfg s'.log × MadeToken cfg s'.log) × Safe s') Safe
            (persist host r cfg s1) _
            (persist-EndsWith r cfg s1 (IsValidated-MadeToken host r cfg s1.log valid) h1)
            λ u s2 ((p, made), h2).
              ends_after (λ (u' : Unit) s'. Safe s') Safe (retire host r cfg s2) _
                (retire-EndsWith r cfg s2 (old_token_lem old r recorded) p made h2)
                λ u' s3 h3. conclude-Safe r s3 h3

  rotate_config-Safe :
      (cfg : Option Config) (s : State) → Safe s → Safe (rotate_config host old cfg s).1
  unfolding rotate_config
  rotate_config-Safe none s h = h
  rotate_config-Safe (some cfg) s h =
      ends_after (λ (r : Rotation) s'. IsRecorded old r × Safe s') Safe
        (record_rotation host cfg old s) _
        (joined (λ r _. IsRecorded old r) Safe (record_rotation host cfg old s)
          (record_rotation-EndsIn host cfg old s) (record_rotation-EndsWith cfg old s h))
        λ r s1 (recorded, h1). replace_token-Safe r s1 recorded h1

  start_rotation-Safe : (s : State) → Safe s → Safe (start_rotation host old s).1
  unfolding start_rotation
  start_rotation-Safe s h = grind (arith, get_config-Safe, rotate_config-Safe)

  rotate_or_recover-Safe :
      (token : Bytes) (s : State)
      → token ≡ []
      → Safe s
      → Safe (rotate_or_recover host old token s).1
  unfolding rotate_or_recover
  rotate_or_recover-Safe [] s e h = start_rotation-Safe s h
  rotate_or_recover-Safe (b ∷ token) s e h = cc

-- From an empty log, a rotation (a request that names no token to recover) deletes no token but the
-- one that the request expects to be in use, and that only with a client of a configuration that it
-- has stored right before (then only the state of the rotation), and whose token and secret PVE has
-- made in this rotation.
pub rotate_root-HandsOver :
    (host : Host) (fields : RotateFields) (s : State)
    → s.log ≡ []
    → fields.recovery_token_id ≡ []
    → HandsOver host fields.expected_token_id (rotate_root host fields s).1.log
unfolding rotate_root
rotate_root-HandsOver host fields s fresh e = ground (
  arith,
  rotate_or_recover-Safe host fields.expected_token_id fields.recovery_token_id s e (rw fresh tt),
)
