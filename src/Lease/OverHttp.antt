-- ===== src/Lease/OverHttp.antt =====
-- `secretTokenRevoke` of secret_token.go over the HTTP client of internal/pveapi/client.go.
use vault_custom_secrets_eng.Base.{◌≡◌, ◌↔◌, refl, sym, subst, true, Option, none, Bytes, codes}
use vault_custom_secrets_eng.Pveapi.Errors.{Error, ok}
use vault_custom_secrets_eng.Pveapi.Wire.{Reply, Trace, Wire, failure_of}
use vault_custom_secrets_eng.Pveapi.Client.{HttpClient, request_to, user_path}
use vault_custom_secrets_eng.Pveapi.Client
use vault_custom_secrets_eng.Pveapi.Client.Answers.{IsAnswered, SaysGone, delete_user_iff}
use vault_custom_secrets_eng.Pveapi.Interface.{http}
use vault_custom_secrets_eng.Host.{Host}
use vault_custom_secrets_eng.Host.Data.{Config}
use vault_custom_secrets_eng.Host.Event.{Log}
use vault_custom_secrets_eng.Host.Through.{replay, through}
use vault_custom_secrets_eng.Host.Response.{Lease}
use vault_custom_secrets_eng.Host.Act.{State}
use vault_custom_secrets_eng.Backend.{get_client}
use vault_custom_secrets_eng.Creds.{is_gone}
use vault_custom_secrets_eng.Lease.{LeaseData, extract_lease_internal_data, secret_token_revoke}
use vault_custom_secrets_eng.Lease.Revoke.{secret_token_revoke_iff}

-- The engine deletes users by the HTTP client, whose exchanges its calls so far have made.
pub record IsOverHttp (host : Host) (wire : Wire) : Type 0 where
  pub client_of : Config → HttpClient
  pub exchanges : Log → Trace
  pub deletes :
      (l : Log) (c : Config) (userid : Bytes)
      → host.delete_user l c userid
        ≡ failure_of (Client.delete_user wire (client_of c) userid (exchanges l)).0

-- So it does on the implementation of the interface by the HTTP client.
pub through-http-IsOverHttp :
    (wire : Wire) (client_of : Config → HttpClient) (first : Trace) (host : Host)
    → IsOverHttp (through (λ c. ok (http wire (client_of c))) first host) wire
unfolding through http
through-http-IsOverHttp wire client_of first host = record {
  client_of = client_of;
  exchanges = replay (λ c. ok (http wire (client_of c))) first;
  deletes = λ l c userid. refl;
}

-- Over HTTP, where the lease's data can be read, there is a client, and the server answers the
-- engine's DELETE of the lease's user in full: the revocation succeeds exactly when the status is
-- 2xx, or is 400 or 500 with a body whose text holds "no such user" and not "already exists".
pub revoke_over_http :
    (host : Host) (wire : Wire) (http : IsOverHttp host wire) (lease : Lease) (found : LeaseData)
    (client : Config) (s : State) (reply : Reply)
    → extract_lease_internal_data lease.internal_data ≡ ok found
    → (get_client host s).0 ≡ ok client
    → IsAnswered wire
        (request_to wire
          (http.client_of client)
          (codes "DELETE")
          (user_path wire found.userid)
          none)
        (http.exchanges (get_client host s).1.log)
        reply
    → ((secret_token_revoke host lease s).0 ≡ ok none) ↔ SaysGone wire reply
revoke_over_http host wire http lease found client s reply e c answered =
    let before : Log = (get_client host s).1.log in
    let revoked = (secret_token_revoke_iff host lease found client s e c).1 in
    let gone =
      (delete_user_iff wire (http.client_of client) found.userid (http.exchanges before) reply
        answered).1 in
    let told : (is_gone (host.delete_user before client found.userid) ≡ true)
        ↔ SaysGone wire reply =
      subst (λ (o : Option Error). (is_gone o ≡ true) ↔ SaysGone wire reply)
        (sym (http.deletes before client found.userid)) gone in
    (λ h. told.0 (revoked.0 h), λ h. revoked.1 (told.1 h))
