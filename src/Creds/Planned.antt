-- ===== src/Creds/Planned.antt =====
-- Steps 1 to 3 of `handleCredsRead` in path_creds.go: a plan has a TTL, and its expiry.
use vault_custom_secrets_eng.Base.{ℕ, refl, Option, none, some, Bytes, ℤ, pos, ◌<ℤ◌, leb_ℤ, arith}
use vault_custom_secrets_eng.Host.{Host}
use vault_custom_secrets_eng.Host.Data.{Config, Role}
use vault_custom_secrets_eng.Host.Act.{State, return_if, try, calculate_ttl, time_now}
use vault_custom_secrets_eng.Backend.{get_config, get_client}
use vault_custom_secrets_eng.Roles.{get_role}
use vault_custom_secrets_eng.Roles.Ttls.{ttls}
use vault_custom_secrets_eng.Creds.Handler.{
  Plan, plan_until, plan_for, plan_configured, plan_stored, plan_issue,
}
use vault_custom_secrets_eng.Host.Returns.{EndsIn, EndsIn-after, try-EndsIn}
use vault_custom_secrets_eng.Creds.Expiry.{ToldTime, expire_unix-IsExpiry}
use vault_custom_secrets_eng.Pveapi.Errors.{Error, err}
use vault_custom_secrets_eng.Creds.Issued.{IsPlanned, positive-EndsIn}

-- The plan of a TTL from the newest reading of the clock.
abbrev pub IsTimed : Plan → State → Type 0
IsTimed plan s = (now : ℕ) × (IsPlanned plan now × ToldTime now s.log)

module _ (host : Host) where
  client-EndsIn :
      (f : Error → Error) (now : ℕ) (s : State)
      → ToldTime now s.log
      → EndsIn (λ _ s'. ToldTime now s'.log) (try (get_client host) (λ e. err (f e)) s)
  unfolding get_client
  client-EndsIn f now s told = ground arith

  plan_until-EndsIn :
      (role : Role) (max ttl : ℤ) (s : State) → EndsIn IsTimed (plan_until host role max ttl s)
  unfolding plan_until time_now
  plan_until-EndsIn role max ttl s =
      EndsIn-after (λ _ _. pos 0 <ℤ ttl) IsTimed (return_if (leb_ℤ ttl (pos 0)) _ s) _
        (positive-EndsIn ttl _ s)
        λ _ s1 positive.
          let now = host.now s1.log in
          EndsIn-after (λ _ s'. ToldTime now s'.log) IsTimed
            (try (get_client host) _ (time_now host s1).1) _
            (client-EndsIn _ now (time_now host s1).1 refl)
            λ client s2 told. (
              now,
              (record { lives = positive; expires = expire_unix-IsExpiry now ttl positive }, told),
            )

  plan_for-EndsIn :
      (role : Role) (cfg : Config) (s : State) → EndsIn IsTimed (plan_for host role cfg s)
  unfolding plan_for
  plan_for-EndsIn role cfg s =
      let (ttl, max) = ttls role cfg in
      EndsIn-after (λ _ _. Unit) IsTimed (try (calculate_ttl host (pos 0) ttl max (pos 0)) _ s) _
        (try-EndsIn (calculate_ttl host (pos 0) ttl max (pos 0)) _ s)
        λ granted s1 _. plan_until-EndsIn role max granted.0 s1

  plan_configured-EndsIn :
      (role : Role) (cfg : Option Config) (s : State)
      → EndsIn IsTimed (plan_configured host role cfg s)
  unfolding plan_configured
  plan_configured-EndsIn role none s = tt
  plan_configured-EndsIn role (some cfg) s = plan_for-EndsIn role cfg s

  plan_stored-EndsIn :
      (stored : Option Role) (s : State) → EndsIn IsTimed (plan_stored host stored s)
  unfolding plan_stored
  plan_stored-EndsIn none s = tt
  plan_stored-EndsIn (some role) s =
      EndsIn-after (λ _ _. Unit) IsTimed (try (get_config host) _ s) _
        (try-EndsIn (get_config host) _ s) (λ cfg s1 _. plan_configured-EndsIn role cfg s1)

  pub plan_issue-EndsIn : (name : Bytes) (s : State) → EndsIn IsTimed (plan_issue host name s)
  unfolding plan_issue
  plan_issue-EndsIn name s =
      EndsIn-after (λ _ _. Unit) IsTimed (try (get_role host name) _ s) _
        (try-EndsIn (get_role host name) _ s) (λ stored s1 _. plan_stored-EndsIn stored s1)
