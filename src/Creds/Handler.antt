-- ===== src/Creds/Handler.antt =====
-- path_creds.go: `handleCredsRead`, put together from its steps.
use vault_custom_secrets_eng.Base.{
  Bool, true, false, Option, none, some, [], ◌∷◌, ◌++◌, Bytes, codes, is_empty, text_eq, ℤ, pos,
  leb_ℤ, if◌then◌else◌,
}
use vault_custom_secrets_eng.Pveapi.Errors.{failure, wrap, ok, err}
use vault_custom_secrets_eng.Host.{Host}
use vault_custom_secrets_eng.Host.Data.{Config, Role}
use vault_custom_secrets_eng.Host.Response.{str, int64, Values, Response, leased, Outcome}
use vault_custom_secrets_eng.Host.Act.{
  Op, Act, Flow, ◌>>=◌, ◌>>◌, pure, return, call, return_if, try, run, time_now, calculate_ttl,
}
use vault_custom_secrets_eng.Backend.{get_config, get_client}
use vault_custom_secrets_eng.Roles.{get_role, mode_password}
use vault_custom_secrets_eng.Roles.Ttls.{ttls, capped_max_ttl}
use vault_custom_secrets_eng.Creds.{
  max_collision_retries, lease_token_id, expire_unix, Attempt, refuse,
}
use vault_custom_secrets_eng.Creds.Steps.{
  issue_password, create_loop, read_back, mint_token, clear_wal,
}

-- The data that renewals and revocations read.
unfoldable pub lease_internal_data : Bytes → Bytes → ℤ → Bytes → ℤ → Values
lease_internal_data userid group effective_max_ttl role_name expire =
    (codes "pve_userid", str userid)
    ∷ (codes "group", str group)
    ∷ (codes "effective_max_ttl", int64 effective_max_ttl)
    ∷ (codes "role_name", str role_name)
    ∷ (codes "expire", int64 expire)
    ∷ []

-- The response data: user_id and password, or token_id, token_secret and user_id.
unfoldable pub credential : Bool → Bytes → Bytes → Bytes → Values
credential true userid password token_secret =
    (codes "user_id", str userid) ∷ (codes "password", str password) ∷ []
credential false userid password token_secret =
    (codes "token_id", str (userid ++ (codes "!" ++ lease_token_id)))
    ∷ (codes "token_secret", str token_secret)
    ∷ (codes "user_id", str userid)
    ∷ []

-- Step 8: `Secret.Response`, with the lease's TTLs set.
unfoldable pub issued_response : Bool → Values → Values → ℤ → ℤ → Response
issued_response password_mode fields internal_data ttl max_ttl =
    leased
      (record {
        secret_type = if password_mode then codes "password" else codes "token";
        internal_data = internal_data;
        ttl = ttl;
        max_ttl = max_ttl;
        increment = pos 0;
        issue_time = pos 0;
      })
      fields []

-- What steps 1 to 3 have found out.
pub record Plan : Type 0 where
  pub role : Role
  pub client : Config
  pub ttl : ℤ
  pub max_ttl : ℤ
  pub expire : ℤ

module _ (host : Host) where
  -- The expiry and the client, for the TTL that Vault has calculated.
  unfoldable pub plan_until : Role → ℤ → ℤ → Act Outcome Plan
  unfolding time_now get_client capped_max_ttl expire_unix
  plan_until role backend_max_ttl ttl = do
    return_if (leb_ℤ ttl (pos 0)) (refuse "effective TTL is zero (unlimited); refusing to issue")
    effective_max_ttl ←
        λ s. (Flow.next (capped_max_ttl backend_max_ttl (host.max_lease_ttl s.log)), s)
    now ← call (time_now host)
    client ← try (get_client host) (λ e. err (wrap "proxmox: creds: get PVE client" e))
    pure (record {
      role = role;
      client = client;
      ttl = ttl;
      max_ttl = effective_max_ttl;
      expire = expire_unix now ttl;
    })

  -- Steps 2 and 3: TTLs, expiry and client.
  unfoldable pub plan_for : Role → Config → Act Outcome Plan
  unfolding calculate_ttl ttls plan_until
  plan_for role cfg = do
    let (backend_ttl, backend_max_ttl) = ttls role cfg
    (ttl, _) ←
        try (calculate_ttl host (pos 0) backend_ttl backend_max_ttl (pos 0))
          (λ e. err (wrap "proxmox: creds: CalculateTTL" e))
    plan_until role backend_max_ttl ttl

  unfoldable pub plan_configured : Role → Option Config → Act Outcome Plan
  unfolding plan_for
  plan_configured role none =
      return (refuse "no config found; write config to <mount>/config first")
  plan_configured role (some cfg) = plan_for role cfg

  -- Step 1: the role and the configuration.
  unfoldable pub plan_stored : Option Role → Act Outcome Plan
  unfolding plan_configured get_config
  plan_stored none = return (refuse "role not found; write a role to <mount>/roles/ first")
  plan_stored (some role) = do
    stored_config ← try (get_config host) (λ e. err (wrap "proxmox: creds: load config" e))
    plan_configured role stored_config

  -- Steps 1 to 3.
  unfoldable pub plan_issue : Bytes → Act Outcome Plan
  unfolding plan_stored get_role
  plan_issue name = do
    stored_role ← try (get_role host name) (λ e. err (wrap "proxmox: creds: load role" e))
    plan_stored stored_role

  -- Steps 5 to 8, once a user is created.
  unfoldable pub finish_issue : Bytes → Plan → Bytes → Attempt → Act Outcome Outcome
  finish_issue name plan password attempt = do
    let password_mode = text_eq plan.role.mode mode_password
    read_back host plan.client plan.role password_mode attempt
    token_secret ← mint_token host plan.client password_mode attempt
    clear_wal host plan.client attempt
    pure (
        ok (
          some (
            issued_response password_mode
              (credential password_mode attempt.userid password token_secret)
              (lease_internal_data attempt.userid plan.role.group plan.max_ttl name plan.expire)
              plan.ttl plan.max_ttl)))

  -- What follows the retry loop: an empty WAL id says that every attempt collided.
  unfoldable pub finish_attempt : Bytes → Plan → Bytes → Attempt → Act Outcome Outcome
  finish_attempt name plan password attempt = do
    return_if (is_empty attempt.wal_id)
        (err (failure "proxmox: creds: exhausted userid suffix attempts"))
    finish_issue name plan password attempt

  -- Steps 3b to 8.
  unfoldable pub issue : Bytes → Plan → Act Outcome Outcome
  issue name plan = do
    password ← issue_password host plan.client (text_eq plan.role.mode mode_password)
    attempt ←
        create_loop host max_collision_retries plan.client plan.role name password plan.expire
          (record { userid = []; wal_id = []; nonce = [] })
    finish_attempt name plan password attempt

  -- `handleCredsRead`
  unfoldable pub handle_creds_read : Bytes → Op Outcome
  handle_creds_read name = run do plan ← plan_issue name; issue name plan
