-- ===== src/Tests/Leases.antt =====
-- The theorems on the leases, at the test host.
use vault_custom_secrets_eng.Base.{
  ◌≡◌, ◌↔◌, refl, true, none, [], ◌∷◌, codes, ℤ, pos, insert, arith,
}
use vault_custom_secrets_eng.Pveapi.Errors.{Result, ok}
use vault_custom_secrets_eng.Host.Data.{Config}
use vault_custom_secrets_eng.Host.Event.{Event}
use vault_custom_secrets_eng.Host.Response.{int64}
use vault_custom_secrets_eng.Backend.{get_client}
use vault_custom_secrets_eng.Creds.{is_gone}
use vault_custom_secrets_eng.Creds.Handler.{lease_internal_data}
use vault_custom_secrets_eng.Lease.{
  LeaseData, extract_lease_internal_data, secret_token_renew, secret_token_revoke,
}
use vault_custom_secrets_eng.Lease.Data.{stored, extract-lease_internal_data}
use vault_custom_secrets_eng.Lease.Renew.{IsGuarded, secret_token_renew-IsGuarded}
use vault_custom_secrets_eng.Lease.Success.{IsRenewed, secret_token_renew-IsRenewed}
use vault_custom_secrets_eng.Lease.Revoke.{secret_token_revoke_iff}
use vault_custom_secrets_eng.Lease.OverHttp.{through-http-IsOverHttp, revoke_over_http}
use vault_custom_secrets_eng.Pveapi.Wire.{Trace}
use vault_custom_secrets_eng.Pveapi.Client.Answers.{SaysGone}
use vault_custom_secrets_eng.Pveapi.Interface.{PveClient, http}
use vault_custom_secrets_eng.Host.{Host}
use vault_custom_secrets_eng.Host.Through.{through}
use vault_custom_secrets_eng.Tests.Client.{gone_reply, wire_of, test_client}
use vault_custom_secrets_eng.Tests.{test_host, test_config, test_lease, test_userid, start, warm}

abbrev test_data : LeaseData
test_data = record {
  userid = test_userid;
  group = codes "ops";
  effective_max_ttl = pos 7_200_000_000_000;
  role_name = codes "dev";
}

extract-lease_internal_data_example :
    let round : ℤ → ℤ = λ n. n in
    let values =
      lease_internal_data test_userid
        (codes "ops")
        (pos 7_200_000_000_000)
        (codes "dev")
        (pos 1660) in
    let renewed = insert (codes "expire") (int64 (pos 9)) (stored round values) in
    (extract_lease_internal_data values ≡ ok test_data)
    × (extract_lease_internal_data (stored round values) ≡ ok test_data)
    × (extract_lease_internal_data (stored round renewed) ≡ ok test_data)
extract-lease_internal_data_example =
    extract-lease_internal_data (λ n. n) test_userid (codes "ops") (codes "dev")
      (pos 7_200_000_000_000) (pos 1660) (pos 9) (λ n exact. refl) (omega arith, omega arith)
      (λ e. cc) (λ e. cc)

test_lease_lem : extract_lease_internal_data test_lease.internal_data ≡ ok test_data
test_lease_lem = extract-lease_internal_data_example.0

secret_token_renew-IsGuarded_example :
    IsGuarded (secret_token_renew test_host test_lease start).1.log
secret_token_renew-IsGuarded_example = secret_token_renew-IsGuarded test_host test_lease start tt

secret_token_renew-IsRenewed_example :
    IsRenewed test_data (secret_token_renew test_host test_lease start)
secret_token_renew-IsRenewed_example =
    secret_token_renew-IsRenewed test_host test_lease test_data start test_lease_lem

secret_token_revoke_iff_example :
    let (outcome, s') = secret_token_revoke test_host test_lease warm in
    (s'.log ≡ Event.user_deleted test_config test_userid none ∷ [])
    × ((outcome ≡ ok none) ↔ (is_gone none ≡ true))
unfolding get_client
secret_token_revoke_iff_example =
    secret_token_revoke_iff test_host test_lease test_data test_config warm test_lease_lem refl

-- The engine on the HTTP client, at a server that has no users.
abbrev http_factory : Config → Result (PveClient Trace)
http_factory c = ok (http (wire_of gone_reply) test_client)

abbrev http_host : Host
http_host = through http_factory [] test_host

revoke_over_http_example :
    ((secret_token_revoke http_host test_lease warm).0 ≡ ok none)
    ↔ SaysGone (wire_of gone_reply) gone_reply
unfolding get_client
revoke_over_http_example =
    revoke_over_http http_host (wire_of gone_reply)
      (through-http-IsOverHttp (wire_of gone_reply) (λ c. test_client) [] test_host) test_lease
      test_data test_config warm gone_reply test_lease_lem refl
      (record { built = refl; sent = refl; whole = refl; short = omega arith })
