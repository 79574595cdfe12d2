-- ===== src/Lease/Success.antt =====
-- `secretTokenRenew` of secret_token.go: what holds when a renewal succeeds.
use Prim.Native.String.{String}
use vault_custom_secrets_eng.Base.{
  ℕ, ◌≡◌, refl, true, none, some, List, [], ◌∷◌, Bytes, codes, lookup, lookup-insert, text_eq_refl,
  ℤ, pos, ◌<ℤ◌, arith,
}
use vault_custom_secrets_eng.Pveapi.Errors.{ok, err, wrap}
use vault_custom_secrets_eng.Host.{Host}
use vault_custom_secrets_eng.Host.Data.{Config}
use vault_custom_secrets_eng.Host.Event.{Event, Log}
use vault_custom_secrets_eng.Host.Response.{Lease, leased, Outcome, int64}
use vault_custom_secrets_eng.Host.Act.{
  State, Act, Flow, next, stop, continue, result, try, time_now,
}
use vault_custom_secrets_eng.Backend.{get_client}
use vault_custom_secrets_eng.Creds.{contains_group, expire_unix}
use vault_custom_secrets_eng.Creds.Expiry.{
  ToldTime, IsExpiry, expire_unix-IsExpiry, contains_group_iff,
}
use vault_custom_secrets_eng.Pveapi.Client.Answers.{Among}
use vault_custom_secrets_eng.Lease.{
  LeaseData, extract_lease_internal_data, renew_request, renewal_ttl, extend_user, new_ttl,
  renew_until, renew_found, renewed_response, secret_token_renew,
}

-- The newest three calls: the user was read enabled, PVE took an update of it with the expiry, the
-- lease's group, enable and append, and the user was read back in that group; the newest reading of
-- the clock before them gave this time.
abbrev pub IsExtended : LeaseData → ℕ → ℤ → Log → Type 0
IsExtended found now expire
      (Event.user_read c u (ok after)
        ∷ Event.user_updated c' req none
        ∷ Event.user_read c'' u'' (ok before)
        ∷ l) =
    (u ≡ found.userid)
    × Among found.group after.groups
    × ((req.user_id ≡ found.userid) × (req.expire ≡ expire) × (req.groups ≡ found.group))
    × ((req.enable ≡ true) × (req.append ≡ true))
    × (u'' ≡ found.userid)
    × (before.enable ≡ true)
    × ToldTime now l
IsExtended found now expire _ = ⊥

-- A renewed lease has the expiry that was sent to PVE, the end of its TTL, which is above zero, and
-- the ceiling of the first issue; a renewal that does not fail returns a lease.
abbrev pub IsRenewed : LeaseData → Outcome × State → Type 0
IsRenewed found (ok (some (leased lease fields warnings)), s) =
    (expire : ℤ) × (now : ℕ) × ((lookup (codes "expire") lease.internal_data ≡ some (int64 expire))
      × IsExtended found now expire s.log
      × IsExpiry now lease.ttl expire
      × (lease.max_ttl ≡ found.effective_max_ttl)
      × (pos 0 <ℤ lease.ttl))
IsRenewed found (ok _, s) = ⊥
IsRenewed found (err e, s) = Unit

-- A step that fails with an error, or goes on with a value and a state as described.
abbrev EndsIn : {A : Type 0} → (A → State → Type 0) → Flow Outcome A × State → Type 0
EndsIn P (next v, s) = P v s
EndsIn P (stop (ok r), s) = ⊥
EndsIn P (stop (err e), s) = Unit

IsRenewed-after :
    {A : Type 0} (P : A → State → Type 0) (found : LeaseData) (x : Flow Outcome A × State)
    (k : A → Act Outcome Outcome)
    → EndsIn P x
    → ((v : A) (s : State) → P v s → IsRenewed found (result (k v s).0, (k v s).1))
    → let y = continue x.0 k x.1 in IsRenewed found (result y.0, y.1)
IsRenewed-after P found (next v, s) k h rest = rest v s h
IsRenewed-after P found (stop (ok r), s) k h rest = absurd h
IsRenewed-after P found (stop (err e), s) k h rest = tt

in_group :
    (groups : List Bytes) (group : Bytes) → contains_group groups group ≡ true → Among group groups
in_group groups group h = (contains_group_iff groups group).0 h

module _ (host : Host) where
  extend_user-EndsIn :
      (client : Config) (found : LeaseData) (now : ℕ) (expire : ℤ) (s : State)
      → ToldTime now s.log
      → EndsIn (λ _ s'. IsExtended found now expire s'.log) (extend_user host client found expire s)
  unfolding extend_user renew_request
  extend_user-EndsIn client found now expire s told = grind (arith, in_group)

  renewal_ttl-EndsIn :
      (lease : Lease) (name : Bytes) (s : State)
      → EndsIn (λ _ _. Unit) (renewal_ttl host lease name s)
  unfolding renewal_ttl
  renewal_ttl-EndsIn lease [] s = tt
  renewal_ttl-EndsIn lease (b ∷ name) s = ground arith

  new_ttl-EndsIn :
      (lease : Lease) (found : LeaseData) (ttl : ℤ) (s : State)
      → EndsIn (λ granted _. pos 0 <ℤ granted.0) (new_ttl host lease found ttl s)
  unfolding new_ttl
  new_ttl-EndsIn lease found ttl s = ground arith

  client-EndsIn :
      (text : String) (now : ℕ) (s : State)
      → ToldTime now s.log
      → EndsIn (λ _ s'. ToldTime now s'.log) (try (get_client host) (λ e. err (wrap text e)) s)
  unfolding get_client
  client-EndsIn text now s told = ground arith

  renewed_response-IsRenewed :
      (lease : Lease) (found : LeaseData) (now : ℕ) (ttl expire : ℤ) (warnings : List String)
      (s : State)
      → pos 0 <ℤ ttl
      → IsExpiry now ttl expire
      → IsExtended found now expire s.log
      → IsRenewed found (ok (some (renewed_response lease found ttl expire warnings)), s)
  unfolding renewed_response
  renewed_response-IsRenewed lease found now ttl expire warnings s positive ends h =
      (expire, now, (simp (lookup-insert, text_eq_refl), h, ends, refl, positive))

  renew_until-IsRenewed :
      (lease : Lease) (found : LeaseData) (ttl : ℤ) (warnings : List String) (now : ℕ) (s : State)
      → pos 0 <ℤ ttl
      → ToldTime now s.log
      → let y = renew_until host lease found ttl warnings now s in IsRenewed found (result y.0, y.1)
  unfolding renew_until
  renew_until-IsRenewed lease found ttl warnings now s positive told =
      let expire = expire_unix now ttl in
      IsRenewed-after (λ _ s'. ToldTime now s'.log) found (try (get_client host) _ s) _
        (client-EndsIn _ now s told)
        λ client s1 told1.
          IsRenewed-after (λ _ s'. IsExtended found now expire s'.log) found
            (extend_user host client found expire s1) _
            (extend_user-EndsIn client found now expire s1 told1)
            λ _ s2 h.
              renewed_response-IsRenewed lease found now ttl expire warnings s2 positive
                (expire_unix-IsExpiry now ttl positive) h

  renew_found-IsRenewed :
      (lease : Lease) (found : LeaseData) (s : State)
      → let y = renew_found host lease found s in IsRenewed found (result y.0, y.1)
  unfolding renew_found time_now
  renew_found-IsRenewed lease found s =
      IsRenewed-after (λ _ _. Unit) found (renewal_ttl host lease found.role_name s) _
        (renewal_ttl-EndsIn lease found.role_name s)
        λ backend_ttl s1 _.
          IsRenewed-after (λ granted _. pos 0 <ℤ granted.0) found
            (new_ttl host lease found backend_ttl s1) _ (new_ttl-EndsIn lease found backend_ttl s1)
            λ granted s2 positive.
              renew_until-IsRenewed lease found granted.0 granted.1 (host.now s2.log)
                (time_now host s2).1 positive refl

-- A renewal of a lease whose data can be read either fails with an error or returns the lease with
-- a TTL above zero, its old ceiling and a new expiry, which is the end of that TTL in whole seconds
-- from the newest reading of the clock, and a minute more (short of the overflow of an `int64`); then
-- the last three calls read the lease's user enabled, sent PVE that user with that expiry, the
-- lease's group, enable and append, and found the user in the group.
pub secret_token_renew-IsRenewed :
    (host : Host) (lease : Lease) (found : LeaseData) (s : State)
    → extract_lease_internal_data lease.internal_data ≡ ok found
    → IsRenewed found (secret_token_renew host lease s)
unfolding secret_token_renew
secret_token_renew-IsRenewed host lease found s e = rw e (renew_found-IsRenewed host lease found s)
