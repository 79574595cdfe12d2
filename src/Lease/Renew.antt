-- ===== src/Lease/Renew.antt =====
-- `secretTokenRenew` of secret_token.go: what a renewal does to the user, and when it succeeds.
use Prim.Native.String.{String}
use vault_custom_secrets_eng.Base.{
  ℕ, ◌≡◌, ◌≢◌, true, none, List, [], ◌∷◌, Bytes, ℤ, pos, ◌<ℤ◌, arith,
}
use vault_custom_secrets_eng.Unicode.{trim_space}
use vault_custom_secrets_eng.Pveapi.Errors.{Error, Result, ok, err}
use vault_custom_secrets_eng.Pveapi.Types.{UpdateUserRequest, validate}
use vault_custom_secrets_eng.Host.{Host}
use vault_custom_secrets_eng.Host.Data.{Config}
use vault_custom_secrets_eng.Host.Event.{Event, Log}
use vault_custom_secrets_eng.Host.Response.{Lease, Outcome}
use vault_custom_secrets_eng.Host.Act.{
  State, Act, Flow, next, stop, continue, time_now, try, or_return,
}
use vault_custom_secrets_eng.Backend.{get_client}
use vault_custom_secrets_eng.Creds.{expire_unix}
use vault_custom_secrets_eng.Lease.{
  LeaseData, extract_lease_internal_data, renew_request, renewal_ttl, extend_user, new_ttl,
  renew_until, renew_found, secret_token_renew,
}

-- The newest call has read the user, and found it enabled.
abbrev pub IsEnabledRead : Bytes → Log → Type 0
IsEnabledRead userid (Event.user_read c u (ok info) ∷ l) = (u ≡ userid) × (info.enable ≡ true)
IsEnabledRead userid _ = ⊥

-- Each update of a user came right after a read that found the user enabled, and keeps its expiry
-- finite, its groups, its enabled state and PVE's append mode.
abbrev pub IsGuarded : Log → Type 0
IsGuarded [] = Unit
IsGuarded (Event.user_updated c req r ∷ l) =
    IsEnabledRead req.user_id l
    × (pos 0 <ℤ req.expire)
    × (trim_space req.groups ≢ [])
    × (req.enable ≡ true)
    × (req.append ≡ true)
    × IsGuarded l
IsGuarded (_ ∷ l) = IsGuarded l

validate-none :
    (r : UpdateUserRequest)
    → validate r ≡ none
    → (pos 0 <ℤ r.expire) × (trim_space r.groups ≢ []) × (r.enable ≡ true) × (r.append ≡ true)
unfolding validate
validate-none r h = ground arith

module _ (host : Host) where
  get_client-IsGuarded : (s : State) → IsGuarded s.log → IsGuarded (get_client host s).1.log
  unfolding get_client
  get_client-IsGuarded s h = ground arith

  renewal_ttl-IsGuarded :
      (lease : Lease) (name : Bytes) (s : State)
      → IsGuarded s.log
      → IsGuarded (renewal_ttl host lease name s).1.log
  unfolding renewal_ttl
  renewal_ttl-IsGuarded lease [] s h = h
  renewal_ttl-IsGuarded lease (b ∷ name) s h = ground arith

  extend_user-IsGuarded :
      (client : Config) (lease : LeaseData) (expire : ℤ) (s : State)
      → IsGuarded s.log
      → IsGuarded (extend_user host client lease expire s).1.log
  unfolding extend_user renew_request
  extend_user-IsGuarded client lease expire s h =
      ground (arith, validate-none (renew_request lease expire))

-- A step that keeps the log guarded, and what follows it.
pub IsGuarded-after :
    {R A B : Type 0} (x : Flow R A × State) (k : A → Act R B)
    → IsGuarded x.1.log
    → ((v : A) (s : State) → IsGuarded s.log → IsGuarded (k v s).1.log)
    → IsGuarded (continue x.0 k x.1).1.log
IsGuarded-after (next v, s) k h rest = rest v s h
IsGuarded-after (stop r, s) k h rest = h

module _ (host : Host) where
  client_step-IsGuarded :
      (f : Error → Outcome) (s : State)
      → IsGuarded s.log
      → IsGuarded (try (get_client host) f s).1.log
  client_step-IsGuarded f s h = ground (arith, get_client-IsGuarded host s)

  new_ttl-IsGuarded :
      (lease : Lease) (found : LeaseData) (ttl : ℤ) (s : State)
      → IsGuarded s.log
      → IsGuarded (new_ttl host lease found ttl s).1.log
  unfolding new_ttl
  new_ttl-IsGuarded lease found ttl s h = ground arith

  renew_until-IsGuarded :
      (lease : Lease) (found : LeaseData) (ttl : ℤ) (warnings : List String) (now : ℕ) (s : State)
      → IsGuarded s.log
      → IsGuarded (renew_until host lease found ttl warnings now s).1.log
  unfolding renew_until
  renew_until-IsGuarded lease found ttl warnings now s h =
      IsGuarded-after (try (get_client host) _ s) _ (client_step-IsGuarded _ s h) λ client s1 h1.
        IsGuarded-after (extend_user host client found (expire_unix now ttl) s1) _
          (extend_user-IsGuarded host client found (expire_unix now ttl) s1 h1) λ _ s2 h2. h2

  renew_found-IsGuarded :
      (lease : Lease) (found : LeaseData) (s : State)
      → IsGuarded s.log
      → IsGuarded (renew_found host lease found s).1.log
  unfolding renew_found time_now
  renew_found-IsGuarded lease found s h =
      IsGuarded-after (renewal_ttl host lease found.role_name s) _
        (renewal_ttl-IsGuarded host lease found.role_name s h)
        λ backend_ttl s1 h1.
          IsGuarded-after (new_ttl host lease found backend_ttl s1) _
            (new_ttl-IsGuarded lease found backend_ttl s1 h1)
            λ granted s2 h2.
              renew_until-IsGuarded lease found granted.0 granted.1 (host.now s2.log)
                (time_now host s2).1 h2

or_return-IsGuarded :
    {A : Type 0} (r : Result A) (f : Error → Outcome) (s : State)
    → IsGuarded s.log
    → IsGuarded (or_return r f s).1.log
or_return-IsGuarded (ok a) f s h = h
or_return-IsGuarded (err e) f s h = h

-- From a log of which it holds already: a renewal sends an update only right after reading that
-- the user is enabled, and the update has an expiry above zero, a group, enable and append.
pub secret_token_renew-IsGuarded :
    (host : Host) (lease : Lease) (s : State)
    → IsGuarded s.log
    → IsGuarded (secret_token_renew host lease s).1.log
unfolding secret_token_renew
secret_token_renew-IsGuarded host lease s h =
    IsGuarded-after (or_return (extract_lease_internal_data lease.internal_data) _ s) _
      (or_return-IsGuarded (extract_lease_internal_data lease.internal_data) _ s h)
      (λ found s1 h1. renew_found-IsGuarded host lease found s1 h1)
