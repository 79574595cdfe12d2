-- ===== src/Rotation/Provisioned.antt =====
-- The first half of `rotateRoot` in path_rotate_root.go, up to the validated configuration.
use Prim.Native.String.{String}
use vault_custom_secrets_eng.Base.{
  ◌≡◌, ◌++◌, codes, refl, Bool, true, false, Option, none, some, Bytes, text_eq→eq, arith,
}
use vault_custom_secrets_eng.Pveapi.Errors.{Error, Result, ok, err, wrap}
use vault_custom_secrets_eng.Host.{Host}
use vault_custom_secrets_eng.Host.Data.{Config}
use vault_custom_secrets_eng.Host.Act.{
  State, try, check, call, pure, ◌>>=◌, ◌>>◌, token_exists, create_token, new_client,
}
use vault_custom_secrets_eng.Host.Returns.{EndsIn, EndsIn-after, try-EndsIn}
use vault_custom_secrets_eng.Backend.{get_client}
use vault_custom_secrets_eng.Rotation.Replacement.{validate_replacement}
use vault_custom_secrets_eng.Rotation.Validated.{HasShown, Shows}
use vault_custom_secrets_eng.Rotation.Shown.{validate_replacement-Shows}
use vault_custom_secrets_eng.Host.Event.{Log}
use vault_custom_secrets_eng.Rotation.Rotate.{
  Rotation, replacement, record_rotation, provision, check_current, check_replacement, mark_failed,
}
use vault_custom_secrets_eng.Rotation.Rotated.{
  IsReplacement, IsRecorded, IsMade, IsMinted, IsValidated,
}

replacement_lem :
    (r : Rotation) (secret : Bytes)
    → r.state.new_token_id ≡ r.old_user ++ (codes "!" ++ r.rotation_token_id)
    → IsReplacement r secret (replacement r secret)
unfolding replacement
replacement_lem r secret named = record {
  new_name = named;
  new_secret = refl;
  address_kept = refl;
  trust_kept = (refl, refl);
  ttls_kept = (refl, refl);
}

module _ (host : Host) where
  pub record_rotation-EndsIn :
      (cfg : Config) (expected : Bytes) (s : State)
      → EndsIn (λ r _. IsRecorded expected r) (record_rotation host cfg expected s)
  unfolding record_rotation
  record_rotation-EndsIn cfg expected s = ground (arith, text_eq→eq expected cfg.token_id)

  check_current-EndsIn :
      (r : Rotation) (found : Result Bool) (s : State)
      → EndsIn (λ _ _. Unit) (check_current host r found s)
  unfolding check_current mark_failed
  check_current-EndsIn r (ok true) s = tt
  check_current-EndsIn r (ok false) s = ground arith
  check_current-EndsIn r (err e) s = ground arith

  check_replacement-EndsIn :
      (r : Rotation) (cfg : Config) (x : Option Error × State) (before : Log) (secret : Bytes)
      → IsReplacement r secret cfg
      → IsMinted r secret before
      → Shows (HasShown host cfg r.old_user r.old_token before) x
      → EndsIn (λ _ s'. IsValidated host r cfg s'.log) (check_replacement host r x.0 x.1)
  unfolding check_replacement mark_failed
  check_replacement-EndsIn r cfg (none, s) before secret replaces minted shown = record {
    secret = secret;
    replaces = replaces;
    before = before;
    minted = minted;
    valid = shown;
  }
  check_replacement-EndsIn r cfg (some invalid, s) before secret replaces minted shown =
      ground arith

  validate-EndsIn :
      (expected : Bytes) (r : Rotation) (secret : Bytes) (s : State)
      → IsRecorded expected r
      → IsMinted r secret s.log
      → EndsIn
          (λ cfg s'. IsValidated host r cfg s'.log)
          ((do
            invalid ← call (validate_replacement host (replacement r secret) r.cfg.token_id)
            check_replacement host r invalid
            pure (replacement r secret))
            s)
  validate-EndsIn expected r secret s recorded minted =
      let cfg : Config = replacement r secret in
      let x = validate_replacement host cfg r.cfg.token_id s in
      EndsIn-after (λ _ s'. IsValidated host r cfg s'.log) _ (check_replacement host r x.0 x.1) _
        (check_replacement-EndsIn r cfg x s.log secret (replacement_lem r secret recorded.same_user)
          minted
          (validate_replacement-Shows host cfg r.cfg.token_id r.old_user r.old_token s
            recorded.split))
        (λ _ s2 h. h)

  create_token-EndsIn :
      (r : Rotation) (c : Config) (text : String) (s : State)
      → EndsIn
          (λ secret s'. IsMade r secret s'.log)
          (try (create_token host c r.old_user r.rotation_token_id) (λ e. err (wrap text e)) s)
  unfolding create_token
  create_token-EndsIn r c text s = ground arith

  new_client-EndsIn :
      (r : Rotation) (secret : Bytes) (text : String) (s : State)
      → r.state.new_token_id ≡ r.old_user ++ (codes "!" ++ r.rotation_token_id)
      → IsMade r secret s.log
      → EndsIn
          (λ _ s'. IsMinted r secret s'.log)
          (check (new_client host (replacement r secret)) (λ e. err (wrap text e)) s)
  unfolding new_client
  new_client-EndsIn r secret text s named made = ground (arith, replacement_lem r secret named)

  pub provision-EndsIn :
      (expected : Bytes) (r : Rotation) (s : State)
      → IsRecorded expected r
      → EndsIn (λ cfg s'. IsValidated host r cfg s'.log) (provision host r s)
  unfolding provision token_exists
  provision-EndsIn expected r s recorded =
      EndsIn-after (λ _ _. Unit) _ (try (get_client host) _ s) _ (try-EndsIn (get_client host) _ s)
        λ c s1 _.
          EndsIn-after (λ _ _. Unit) _
            (check_current host r (host.token_exists s1.log c r.old_user r.old_token)
              (token_exists host c r.old_user r.old_token s1).1)
            _
            (check_current-EndsIn r (host.token_exists s1.log c r.old_user r.old_token)
              (token_exists host c r.old_user r.old_token s1).1)
            λ _ s2 _.
              EndsIn-after (λ secret s'. IsMade r secret s'.log) _
                (try (create_token host c r.old_user r.rotation_token_id) _ s2) _
                (create_token-EndsIn r c _ s2)
                λ secret s3 made.
                  EndsIn-after (λ _ s'. IsMinted r secret s'.log) _
                    (check (new_client host (replacement r secret)) _ s3) _
                    (new_client-EndsIn r secret _ s3 recorded.same_user made)
                    λ _ s4 minted. validate-EndsIn expected r secret s4 recorded minted
