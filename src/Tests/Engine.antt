-- ===== src/Tests/Engine.antt =====
-- The theorem on sequences of requests, at an issuance, a renewal of its lease and a rollback.
use vault_custom_secrets_eng.Base.{refl, inl, inr, text_eq, lookup, [], ◌∷◌, codes}
use vault_custom_secrets_eng.Pveapi.Errors.{ok, err, failure}
use vault_custom_secrets_eng.Host.Response.{str}
use vault_custom_secrets_eng.Host.Act.{State}
use vault_custom_secrets_eng.Lease.{secret_token_renew}
use vault_custom_secrets_eng.Lease.Renew.{IsGuarded}
use vault_custom_secrets_eng.Creds.Handler.{handle_creds_read}
use vault_custom_secrets_eng.Wal.Rotation.{wal_rollback}
use vault_custom_secrets_eng.Paths.Requests.{requested_name}
use vault_custom_secrets_eng.Paths.Tables.{
  read_operation, path_creds, path_roles, creds_schema, creds_operations,
}
use vault_custom_secrets_eng.Paths.Registration.{Engine, new_backend, secret_token}
use vault_custom_secrets_eng.Engine.Steps.{EngineRun, here, later, request, renewal, rollback}
use vault_custom_secrets_eng.Engine.Updates.{engine_updates-IsGuarded}
use vault_custom_secrets_eng.Tests.Client.{wire_of, gone_reply}
use vault_custom_secrets_eng.Tests.Paths.{request_of}
use vault_custom_secrets_eng.Tests.{test_host, test_lease, test_entry, start}

abbrev test_engine : Engine
test_engine = new_backend test_host (wire_of gone_reply) (λ name. name)

abbrev issued : State
issued = (handle_creds_read test_host (codes "dev") start).1

abbrev renewed : State
renewed = (secret_token_renew test_host test_lease issued).1

abbrev swept : State
swept =
    (wal_rollback test_host (codes "user") (ok test_entry) (err (failure "no rotation")) renewed).1

test_run : EngineRun test_engine start swept
unfolding new_backend path_roles path_creds creds_operations requested_name request_of lookup
    text_eq
test_run =
    later
      (later
        (later here (
          request _ read_operation _
            (request_of creds_schema ((codes "name", str (codes "dev")) ∷ []))
            (handle_creds_read test_host (codes "dev")) (inr (inr (inr (inl refl)))) refl refl))
        (renewal (secret_token test_host) test_lease (inl refl)))
      (rollback (codes "user") (ok test_entry) (err (failure "no rotation")))

engine_updates-IsGuarded_example : IsGuarded swept.log
engine_updates-IsGuarded_example =
    engine_updates-IsGuarded test_host (wire_of gone_reply) (λ name. name) tt test_run
