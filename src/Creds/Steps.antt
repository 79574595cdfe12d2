-- ===== src/Creds/Steps.antt =====
-- path_creds.go: the steps of `handleCredsRead` that clean up after themselves, and `cleanupUser`.
use vault_custom_secrets_eng.Base.{
  ℕ, zero, suc, Bool, true, false, not, ◌&&◌, ◌||◌, Option, none, some, [], ◌++◌, Bytes, is_empty,
  text_eq, ℤ, if◌then◌else◌,
}
use vault_custom_secrets_eng.Pveapi.Types.{UserInfo}
use vault_custom_secrets_eng.Pveapi.Errors.{
  Error, failure, wrap, errors_is, Result, ok, err, conflict, unauthenticated, forbidden,
}
use vault_custom_secrets_eng.Host.{Host}
use vault_custom_secrets_eng.Host.Data.{Config, Role, user}
use vault_custom_secrets_eng.Host.Response.{Outcome}
use vault_custom_secrets_eng.Host.Act.{
  Op, Act, ◌>>=◌, ◌>>◌, pure, return, call, return_if, try, check, run, read_random, put_wal,
  delete_wal, get_version_info, create_user, get_user, create_token, delete_user,
}
use vault_custom_secrets_eng.Backend.{get_client}
use vault_custom_secrets_eng.Userid.{build_user_id}
use vault_custom_secrets_eng.Userid.Suffix.{suffix_of}
use vault_custom_secrets_eng.Roles.{password_verified_version, password_verified_repo_id}
use vault_custom_secrets_eng.Password.{generate_password}
use vault_custom_secrets_eng.Creds.{
  lease_token_id, wal_comment_prefix, contains_group, Attempt, create_request, failed, refuse,
  is_gone,
}

module _ (host : Host) where
  -- `randomSuffix`
  unfoldable pub random_suffix : Op (Result Bytes)
  unfolding read_random
  random_suffix = run do
    bytes ← try (read_random host 5) (λ e. err (wrap "proxmox: generate random suffix" e))
    pure (ok (suffix_of bytes))

  -- `cleanupUser`
  unfoldable pub cleanup_user : Bytes → Bytes → Op (Option Error)
  unfolding get_client delete_user delete_wal is_gone
  cleanup_user userid wal_id = run do
    client ← try (get_client host) some
    failure' ← call (delete_user host client userid)
    if is_gone failure'
        then (if is_empty wal_id then pure none else do call (delete_wal host wal_id); pure none)
        else pure failure'

  -- One round of the retry loop up to the answer of `CreateUser`.
  unfoldable pub try_attempt :
      Config → Role → Bytes → Bytes → ℤ → Act Outcome (Attempt × Option Error)
  unfolding random_suffix put_wal create_user create_request
  try_attempt client role name password expire = do
    suffix ← try random_suffix (λ e. err (wrap "proxmox: creds: generate random suffix" e))
    let userid = build_user_id role.user_prefix name suffix role.realm
    raw_nonce ← try random_suffix (λ e. err (wrap "proxmox: creds: generate nonce" e))
    let nonce = wal_comment_prefix ++ raw_nonce
    wal_id ←
        try (put_wal host (user (record { user_id = userid; nonce = nonce })))
          (λ e. err (wrap "proxmox: creds: PutWAL" e))
    created ← call (create_user host client (create_request role expire password userid nonce))
    pure (record { userid = userid; wal_id = wal_id; nonce = nonce }, created)

  -- The rest of the round: leave the loop, go on with another suffix, or return.
  unfoldable pub after_create :
      (Attempt → Act Outcome Attempt) → Attempt → Option Error → Act Outcome Attempt
  unfolding delete_wal
  after_create again attempt none = pure attempt
  after_create again attempt (some e) = elim (errors_is e conflict) [
    | true ↦ do
      check (delete_wal host attempt.wal_id)
          (λ e'. err (wrap "proxmox: creds: DeleteWAL after collision" e'))
      again (record attempt { wal_id = [] })
    | false ↦ return (failed "proxmox: creds: CreateUser" e)
  ]

  -- The retry loop, with the attempts that are left and the variables of the attempt before.
  unfoldable pub create_loop : ℕ → Config → Role → Bytes → Bytes → ℤ → Attempt → Act Outcome Attempt
  unfolding try_attempt after_create
  create_loop zero client role name password expire last = pure last
  create_loop (suc left) client role name password expire last = do
    (attempt, created) ← try_attempt client role name password expire
    after_create (create_loop left client role name password expire) attempt created

  -- Step 3b: the password of a password role, on the verified build only; none for a token role.
  unfoldable pub issue_password : Config → Bool → Act Outcome Bytes
  unfolding get_version_info
  issue_password client false = pure []
  issue_password client true = do
    version ← try (get_version_info host client) (λ e.
        if errors_is e unauthenticated
        then refuse "PVE returned 401 on GET /version during password-mode issuance"
        else if errors_is e forbidden
        then refuse "PVE returned 403 on GET /version during password-mode issuance"
        else err (wrap "proxmox: creds: verify password-mode PVE build" e))
    return_if
        (not (text_eq version.version password_verified_version)
          || not (text_eq version.repo_id password_verified_repo_id))
        (refuse "password mode requires verified PVE build")
    try (generate_password host) (λ e. err (wrap "proxmox: creds" e))

  -- Cleans up, and returns the error.
  unfoldable pub abandon : {A : Type 0} → Attempt → Outcome → Act Outcome A
  unfolding cleanup_user
  abandon attempt outcome = do call (cleanup_user attempt.userid attempt.wal_id); return outcome

  -- The checks of the read-back: an answer, the group, and in password mode the comment.
  unfoldable pub check_user : Role → Bool → Attempt → Result UserInfo → Act Outcome Unit
  unfolding contains_group
  check_user role password_mode attempt (err e) =
      abandon attempt (failed "proxmox: creds: GetUser read-back" e)
  check_user role password_mode attempt (ok info) =
      if not (contains_group info.groups role.group)
      then abandon attempt (err (failure "proxmox: creds: group read-back assertion failed"))
      else if password_mode && not (text_eq info.comment attempt.nonce)
      then abandon attempt
          (err (failure "proxmox: creds: comment read-back mismatch in password mode"))
      else pure tt

  -- Step 5: the read-back of the user.
  unfoldable pub read_back : Config → Role → Bool → Attempt → Act Outcome Unit
  unfolding get_user check_user
  read_back client role password_mode attempt = do
    found ← call (get_user host client attempt.userid)
    check_user role password_mode attempt found

  -- The secret, or the end of the issuance.
  unfoldable pub check_token : Attempt → Result Bytes → Act Outcome Bytes
  check_token attempt (err e) = abandon attempt (failed "proxmox: creds: CreateToken" e)
  check_token attempt (ok secret) = pure secret

  -- Step 6: the token of a token role; the empty text for a password role.
  unfoldable pub mint_token : Config → Bool → Attempt → Act Outcome Bytes
  unfolding create_token check_token
  mint_token client true attempt = pure []
  mint_token client false attempt = do
    minted ← call (create_token host client attempt.userid lease_token_id)
    check_token attempt minted

  -- Step 7: the WAL entry goes before the secret is returned.
  unfoldable pub clear_wal : Config → Attempt → Act Outcome Unit
  unfolding delete_wal delete_user
  clear_wal client attempt = do
    failure' ← call (delete_wal host attempt.wal_id)
    elim failure' [
      | none ↦ pure tt
      | some e ↦ do
        call (delete_user host client attempt.userid)
        return (err (wrap "proxmox: creds: DeleteWAL failed after successful issuance" e))
    ]
