-- ===== src/Lease/Revoke.antt =====
-- `secretTokenRevoke` of secret_token.go.
use vault_custom_secrets_eng.Base.{◌≡◌, ◌↔◌, true, none, ◌∷◌, arith}
use vault_custom_secrets_eng.Pveapi.Errors.{ok}
use vault_custom_secrets_eng.Host.{Host}
use vault_custom_secrets_eng.Host.Data.{Config}
use vault_custom_secrets_eng.Host.Event.{Event}
use vault_custom_secrets_eng.Host.Response.{Lease}
use vault_custom_secrets_eng.Host.Act.{State}
use vault_custom_secrets_eng.Backend.{get_client}
use vault_custom_secrets_eng.Creds.{is_gone}
use vault_custom_secrets_eng.Lease.{LeaseData, extract_lease_internal_data, secret_token_revoke}

-- With readable lease data and a client, a revocation sends exactly one deletion, of the lease's
-- user, and succeeds exactly when PVE answers that it deleted the user or that there is none.
pub secret_token_revoke_iff :
    (host : Host) (lease : Lease) (found : LeaseData) (client : Config) (s : State)
    → extract_lease_internal_data lease.internal_data ≡ ok found
    → (get_client host s).0 ≡ ok client
    → let (outcome, s') = secret_token_revoke host lease s in
      let before = (get_client host s).1.log in
      let answer = host.delete_user before client found.userid in
      (s'.log ≡ Event.user_deleted client found.userid answer ∷ before)
      × ((outcome ≡ ok none) ↔ (is_gone answer ≡ true))
unfolding secret_token_revoke
secret_token_revoke_iff host lease found client s e c = ground arith
