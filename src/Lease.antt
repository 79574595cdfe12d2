-- ===== src/Lease.antt =====
-- secret_token.go: renewing and revoking a lease, for both secret types (secret_password.go
-- registers the same two handlers).
pub mod OverHttp
pub mod Data
pub mod Renew
pub mod Success
pub mod Revoke
use Prim.Native.String.{String}
use vault_custom_secrets_eng.Base.{
  ℕ, Bool, true, false, not, Option, none, some, List, [], ◌∷◌, Bytes, codes, is_empty, lookup,
  insert, ℤ, pos, leb_ℤ, if◌then◌else◌,
}
use vault_custom_secrets_eng.Pveapi.Errors.{Error, failure, wrap, Result, ok, err}
use vault_custom_secrets_eng.Pveapi.Types.{UpdateUserRequest}
use vault_custom_secrets_eng.Host.{Host}
use vault_custom_secrets_eng.Host.Data.{Config}
use vault_custom_secrets_eng.Host.Response.{
  Value, str, int, int64, float64, Values, Lease, Response, leased, Outcome,
}
use vault_custom_secrets_eng.Host.Act.{
  Op, Act, continue, ◌>>=◌, ◌>>◌, pure, return, call, return_if, or_return, or_stop, try, check,
  run, time_now, calculate_ttl, get_user, update_user, delete_user,
}
use vault_custom_secrets_eng.Backend.{get_config, get_client}
use vault_custom_secrets_eng.Roles.{get_role}
use vault_custom_secrets_eng.Roles.Ttls.{ttls}
use vault_custom_secrets_eng.Creds.{
  wrap_admin_unauthenticated, contains_group, expire_unix, is_gone, failed,
}

-- The named results of `extractLeaseInternalData`.
pub record LeaseData : Type 0 where
  pub userid : Bytes
  pub group : Bytes
  pub effective_max_ttl : ℤ
  pub role_name : Bytes

-- A key that must hold a text which is not empty, with the errors for a missing key and for
-- another value.
unfoldable pub required_text : String → String → Option Value → Result Bytes
required_text missing other (some (str [])) = err (failure other)
required_text missing other (some (str (b ∷ s))) = ok (b ∷ s)
required_text missing other none = err (failure missing)
required_text missing other _ = err (failure other)

-- The switch on the type of effective_max_ttl.
unfoldable pub duration_value : Option Value → Result ℤ
duration_value (some (int64 v)) = ok v
duration_value (some (float64 v)) = ok v
duration_value (some (int v)) = ok v
duration_value none = err (failure "InternalData missing effective_max_ttl")
duration_value _ = err (failure "InternalData effective_max_ttl has unexpected type")

-- role_name may be absent or of another type.
unfoldable pub optional_text : Option Value → Bytes
optional_text (some (str s)) = s
optional_text _ = []

-- `extractLeaseInternalData`
unfoldable pub extract_lease_internal_data : Values → Result LeaseData
unfolding required_text duration_value optional_text lookup
extract_lease_internal_data values =
    elim (required_text "InternalData missing pve_userid"
      "InternalData pve_userid is not a non-empty string" (lookup (codes "pve_userid") values)) [
        | err e ↦ err e
        | ok userid ↦
            elim (required_text "InternalData missing group"
              "InternalData group is not a non-empty string" (lookup (codes "group") values)) [
                | err e ↦ err e
                | ok group ↦ elim (duration_value (lookup (codes "effective_max_ttl") values)) [
                  | err e ↦ err e
                  | ok max_ttl ↦ ok (record {
                    userid = userid;
                    group = group;
                    effective_max_ttl = max_ttl;
                    role_name = optional_text (lookup (codes "role_name") values);
                  })
                ]
              ]
      ]

-- The request of a renewal.
unfoldable pub renew_request : LeaseData → ℤ → UpdateUserRequest
renew_request lease expire = record {
  user_id = lease.userid;
  expire = expire;
  groups = lease.group;
  enable = true;
  append = true;
}

-- The updated lease.
unfoldable pub renewed_response : Lease → LeaseData → ℤ → ℤ → List String → Response
renewed_response lease found ttl expire warnings =
    leased
      (record lease {
        internal_data = insert (codes "expire") (int64 expire) lease.internal_data;
        ttl = ttl;
        max_ttl = found.effective_max_ttl;
      })
      [] warnings

module _ (host : Host) where
  -- Step 2: the role's TTL where the role, its name and the configuration are still there, and the
  -- lease's own TTL otherwise.
  unfoldable pub renewal_ttl : Lease → Bytes → Act Outcome ℤ
  unfolding get_config get_role ttls
  renewal_ttl lease [] = pure lease.ttl
  renewal_ttl lease (b ∷ name) = do
    stored_config ← try (get_config host) (λ e. err (wrap "proxmox: renew: load config" e))
    elim stored_config [
      | none ↦ pure lease.ttl
      | some cfg ↦ do
        stored_role ← try (get_role host (b ∷ name)) (λ e. err (wrap "proxmox: renew: load role" e))
        elim stored_role [ none ↦ pure lease.ttl | some role ↦ pure (ttls role cfg).0 ]
    ]

  -- Steps 5 to 7: the user must be enabled, is updated, and must still be in its group.
  unfoldable pub extend_user : Config → LeaseData → ℤ → Act Outcome Unit
  unfolding get_user update_user
  extend_user client lease expire = do
    before ← try (get_user host client lease.userid) (failed "proxmox: renew: pre-update GetUser")
    return_if (not before.enable)
        (err (failure "proxmox: renew: user is disabled; refusing to re-enable via renewal"))
    check (update_user host client (renew_request lease expire))
        (failed "proxmox: renew: UpdateUser")
    after ← try (get_user host client lease.userid) (failed "proxmox: renew: GetUser read-back")
    return_if (not (contains_group after.groups lease.group))
        (err (failure "proxmox: renew: group read-back assertion failed"))

  -- Steps 3 and 4: the new TTL, with the warnings of `CalculateTTL`.
  unfoldable pub new_ttl : Lease → LeaseData → ℤ → Act Outcome (ℤ × List String)
  unfolding calculate_ttl
  new_ttl lease found backend_ttl = do
    granted ←
        try
          (calculate_ttl host lease.increment backend_ttl found.effective_max_ttl lease.issue_time)
          (λ e. err (wrap "proxmox: renew: CalculateTTL" e))
    return_if (leb_ℤ granted.0 (pos 0))
        (err (failure "proxmox: renew: effective TTL is zero or past max; cannot renew"))
    pure granted

  -- Steps 5 to 9, for a new TTL at a time.
  unfoldable pub renew_until : Lease → LeaseData → ℤ → List String → ℕ → Act Outcome Outcome
  renew_until lease found ttl warnings now = do
    let expire = expire_unix now ttl
    client ← try (get_client host) (λ e. err (wrap "proxmox: renew: get PVE client" e))
    extend_user client found expire
    pure (ok (some (renewed_response lease found ttl expire warnings)))

  -- Steps 2 to 9, with what the lease says.
  unfoldable pub renew_found : Lease → LeaseData → Act Outcome Outcome
  renew_found lease found = do
    backend_ttl ← renewal_ttl lease found.role_name
    granted ← new_ttl lease found backend_ttl
    now ← call (time_now host)
    renew_until lease found granted.0 granted.1 now

  -- `secretTokenRenew`
  unfoldable pub secret_token_renew : Lease → Op Outcome
  secret_token_renew lease = run do
    found ←
        or_return (extract_lease_internal_data lease.internal_data)
          (λ e. err (wrap "proxmox: renew" e))
    renew_found lease found

  -- `secretTokenRevoke`
  unfoldable pub secret_token_revoke : Lease → Op Outcome
  unfolding delete_user is_gone
  secret_token_revoke lease = run do
    found ←
        or_return (extract_lease_internal_data lease.internal_data)
          (λ e. err (wrap "proxmox: revoke" e))
    client ← try (get_client host) (λ e. err (wrap "proxmox: revoke: get PVE client" e))
    failure' ← call (delete_user host client found.userid)
    elim failure' [
      | none ↦ pure (ok none)
      | some e ↦
          if is_gone (some e) then pure (ok none) else pure (failed "proxmox: revoke: DeleteUser" e)
    ]
