-- ===== src/Engine/Issues.antt =====
-- `handleCredsRead` of path_creds.go and the rollback of its WAL entries update no user.
use vault_custom_secrets_eng.Password.{
  password_chars, generate_password, password_length, password_charset,
}
use vault_custom_secrets_eng.Wal.{wal_rollback_user, read_and_delete, delete_own, delete_if_own}
use vault_custom_secrets_eng.Creds.{Attempt, max_collision_retries}
use vault_custom_secrets_eng.Creds.Handler.{
  plan_issue, plan_stored, plan_configured, plan_for, plan_until, handle_creds_read, issue,
  finish_attempt, finish_issue, Plan,
}
use vault_custom_secrets_eng.Base.{
  ℕ, zero, suc, Bool, true, false, Option, none, some, [], Bytes, ℤ, arith, length, text_eq,
}
use vault_custom_secrets_eng.Pveapi.Errors.{Error, Result, err}
use vault_custom_secrets_eng.Host.{Host}
use vault_custom_secrets_eng.Host.Data.{Config, Role, WalUser}
use vault_custom_secrets_eng.Host.Response.{Outcome}
use vault_custom_secrets_eng.Host.Act.{
  Act, try, storage_get, new_client, get_version_info, put_wal, delete_wal, create_user, get_user,
  delete_user, read_random, time_now, create_token, random_below, calculate_ttl,
}
use vault_custom_secrets_eng.Backend.{get_config, get_client, build_client}
use vault_custom_secrets_eng.Lease.Renew.{IsGuarded-after}
use vault_custom_secrets_eng.Roles.{get_role, mode_password}
use vault_custom_secrets_eng.Creds.Steps.{
  random_suffix, cleanup_user, try_attempt, clear_wal, read_back, mint_token, check_user,
  check_token, abandon, create_loop, after_create, issue_password,
}
use vault_custom_secrets_eng.Engine.Guards.{Guards, try-Guards}

module _ (host : Host) where
  pub plan_issue-Guards : (name : Bytes) → Guards (plan_issue host name)
  unfolding plan_issue plan_stored plan_configured plan_for plan_until calculate_ttl time_now
      get_role get_client build_client get_config storage_get new_client
  plan_issue-Guards name s h = ground arith

  pub cleanup_user-Guards : (userid wal_id : Bytes) → Guards (cleanup_user host userid wal_id)
  unfolding cleanup_user delete_user delete_wal get_client build_client get_config storage_get
      new_client
  cleanup_user-Guards userid wal_id s h = ground arith

  pub try_attempt-Guards :
      (client : Config) (role : Role) (name password : Bytes) (expire : ℤ)
      → Guards (try_attempt host client role name password expire)
  unfolding try_attempt random_suffix read_random put_wal create_user
  try_attempt-Guards client role name password expire s h = ground arith

  pub clear_wal-Guards :
      (client : Config) (attempt : Attempt) → Guards (clear_wal host client attempt)
  unfolding clear_wal delete_wal delete_user
  clear_wal-Guards client attempt s h = ground arith

  pub read_back-Guards :
      (client : Config) (role : Role) (mode : Bool) (attempt : Attempt)
      → Guards (read_back host client role mode attempt)
  unfolding read_back get_user check_user abandon cleanup_user delete_user delete_wal get_client
      build_client get_config storage_get new_client
  read_back-Guards client role mode attempt s h = ground arith

  pub mint_token-Guards :
      (client : Config) (mode : Bool) (attempt : Attempt)
      → Guards (mint_token host client mode attempt)
  unfolding mint_token create_token check_token abandon cleanup_user delete_user delete_wal
      get_client build_client get_config storage_get new_client
  mint_token-Guards client mode attempt s h = ground arith

  pub wal_rollback_user-Guards :
      (decoded : Result WalUser) → Guards (wal_rollback_user host decoded)
  unfolding wal_rollback_user read_and_delete delete_own delete_if_own get_user delete_user
      get_client build_client get_config storage_get new_client
  wal_rollback_user-Guards decoded s h = ground arith

  password_chars-Guards : (n : ℕ) → Guards (password_chars host n)
  unfolding password_chars random_below
  password_chars-Guards zero s h = h
  password_chars-Guards (suc n) s h =
      IsGuarded-after (try (random_below host (length password_charset)) _ s) _
        (try-Guards (random_below host (length password_charset)) _ (λ s h. h) s h)
        λ i s1 h1.
          IsGuarded-after (try (password_chars host n) err s1) _
            (try-Guards (password_chars host n) err (password_chars-Guards n) s1 h1)
            λ rest s2 h2. h2

  generate_password-Guards : Guards (generate_password host)
  unfolding generate_password
  generate_password-Guards s h = ground (arith, password_chars-Guards password_length s h)

  issue_password-Guards : (client : Config) (mode : Bool) → Guards (issue_password host client mode)
  unfolding issue_password get_version_info
  issue_password-Guards client false s h = h
  issue_password-Guards client true s h =
      IsGuarded-after (try (get_version_info host client) _ s) _
        (try-Guards (get_version_info host client) _ (λ s h. h) s h)
        λ version s1 h1. ground (arith, generate_password-Guards s1 h1)

  after_create-Guards :
      (again : Attempt → Act Outcome Attempt) (attempt : Attempt) (created : Option Error)
      → ((a : Attempt) → Guards (again a))
      → Guards (after_create host again attempt created)
  unfolding after_create delete_wal
  after_create-Guards again attempt none keeps s h = h
  after_create-Guards again attempt (some e) keeps s h =
      ground (arith, keeps (record attempt { wal_id = [] }) (delete_wal host attempt.wal_id s).1 h)

  create_loop-Guards :
      (n : ℕ) (client : Config) (role : Role) (name password : Bytes) (expire : ℤ) (last : Attempt)
      → Guards (create_loop host n client role name password expire last)
  unfolding create_loop
  create_loop-Guards zero client role name password expire last s h = h
  create_loop-Guards (suc n) client role name password expire last s h =
      IsGuarded-after (try_attempt host client role name password expire s) _
        (try_attempt-Guards client role name password expire s h)
        λ made s1 h1.
          after_create-Guards (create_loop host n client role name password expire) made.0 made.1
            (create_loop-Guards n client role name password expire) s1 h1

  finish_issue-Guards :
      (name : Bytes) (plan : Plan) (password : Bytes) (attempt : Attempt)
      → Guards (finish_issue host name plan password attempt)
  unfolding finish_issue
  finish_issue-Guards name plan password attempt s h =
      let mode = text_eq plan.role.mode mode_password in
      IsGuarded-after (read_back host plan.client plan.role mode attempt s) _
        (read_back-Guards plan.client plan.role mode attempt s h)
        λ _ s1 h1.
          IsGuarded-after (mint_token host plan.client mode attempt s1) _
            (mint_token-Guards plan.client mode attempt s1 h1)
            λ secret s2 h2.
              IsGuarded-after (clear_wal host plan.client attempt s2) _
                (clear_wal-Guards plan.client attempt s2 h2) λ _ s3 h3. h3

  finish_attempt-Guards :
      (name : Bytes) (plan : Plan) (password : Bytes) (attempt : Attempt)
      → Guards (finish_attempt host name plan password attempt)
  unfolding finish_attempt
  finish_attempt-Guards name plan password attempt s h =
      ground (arith, finish_issue-Guards name plan password attempt s h)

  issue-Guards : (name : Bytes) (plan : Plan) → Guards (issue host name plan)
  unfolding issue
  issue-Guards name plan s h =
      let mode = text_eq plan.role.mode mode_password in
      IsGuarded-after (issue_password host plan.client mode s) _
        (issue_password-Guards plan.client mode s h)
        λ password s1 h1.
          IsGuarded-after
            (create_loop host max_collision_retries plan.client plan.role name password plan.expire
              _ s1)
            _
            (create_loop-Guards max_collision_retries plan.client plan.role name password
              plan.expire _ s1 h1)
            λ attempt s2 h2. finish_attempt-Guards name plan password attempt s2 h2

  pub handle_creds_read-Guards : (name : Bytes) → Guards (handle_creds_read host name)
  unfolding handle_creds_read
  handle_creds_read-Guards name s h =
      IsGuarded-after (plan_issue host name s) _ (plan_issue-Guards name s h) (issue-Guards name)
