-- ===== src/Tests/Credentials.antt =====
-- The theorems on issuing and on the rollback of users, at the test host.
use vault_custom_secrets_eng.Base.{◌≡◌, ◌↔◌, refl, true, none, [], ◌∷◌, codes, pos}
use vault_custom_secrets_eng.Pveapi.Errors.{ok}
use vault_custom_secrets_eng.Creds.{is_gone}
use vault_custom_secrets_eng.Creds.Handler.{handle_creds_read}
use vault_custom_secrets_eng.Creds.Trace.{owned, pending, without, IsSettled}
use vault_custom_secrets_eng.Creds.Retry.{IsQuiet}
use vault_custom_secrets_eng.Creds.Issue.{handle_creds_read-IsSettled}
use vault_custom_secrets_eng.Wal.{wal_rollback_user}
use vault_custom_secrets_eng.Backend.{get_client}
use vault_custom_secrets_eng.Wal.Removes.{rollback_removes_created}
use vault_custom_secrets_eng.Pveapi.Types.{CreateUserRequest}
use vault_custom_secrets_eng.Host.Event.{Event, Log}
use vault_custom_secrets_eng.Host.Data.{user}
use vault_custom_secrets_eng.Creds.{create_request}
use vault_custom_secrets_eng.Creds.Steps.{try_attempt, random_suffix}
use vault_custom_secrets_eng.Userid.{build_user_id}
use vault_custom_secrets_eng.Userid.Suffix.{suffix_of, crockford_char}
use vault_custom_secrets_eng.Wal.User.{
  DeletesOwn, IsDone, wal_rollback_user-DeletesOwn, wal_rollback_user_iff,
}
use vault_custom_secrets_eng.Tests.{
  test_host, test_role, test_config, test_entry, test_userid, test_nonce, start, warm,
}

start-IsQuiet : IsQuiet start
unfolding owned pending
start-IsQuiet = record { no_user = refl; no_entry = refl }

handle_creds_read-IsSettled_example :
    let (outcome, s') = handle_creds_read test_host (codes "dev") start in IsSettled outcome s'.log
handle_creds_read-IsSettled_example =
    handle_creds_read-IsSettled test_host (codes "dev") start start-IsQuiet

wal_rollback_user-DeletesOwn_example :
    DeletesOwn test_entry (wal_rollback_user test_host (ok test_entry) start).1.log
wal_rollback_user-DeletesOwn_example = wal_rollback_user-DeletesOwn test_host test_entry start tt

wal_rollback_user_iff_example :
    ((wal_rollback_user test_host (ok test_entry) warm).0 ≡ none)
    ↔ IsDone test_entry (test_host.get_user [] test_config test_userid) none
unfolding get_client
wal_rollback_user_iff_example =
    wal_rollback_user_iff test_host test_entry test_config warm (λ e. cc) refl

-- What an attempt sends to PVE, and its log.
abbrev test_request : CreateUserRequest
test_request = record {
  user_id = test_userid;
  groups = codes "ops";
  expire = pos 1660;
  enable = true;
  comment = test_nonce;
  password = [];
}

abbrev draws : Log
draws =
    Event.drew_bytes 5 (ok (0 ∷ 0 ∷ 0 ∷ 0 ∷ 0 ∷ []))
    ∷ Event.drew_bytes 5 (ok (0 ∷ 0 ∷ 0 ∷ 0 ∷ 0 ∷ []))
    ∷ []

test_attempt_lem :
    (try_attempt test_host test_config test_role (codes "dev") [] (pos 1660) warm).1.log
    ≡ Event.user_created test_config test_request none
      ∷ Event.wal_put (user test_entry) (ok (codes "w1"))
      ∷ draws
unfolding try_attempt random_suffix create_request suffix_of build_user_id crockford_char
test_attempt_lem = refl

rollback_removes_created_example :
    let (outcome, s') = wal_rollback_user test_host (ok test_entry) warm in
    (outcome ≡ none) × (owned s'.log ≡ without test_userid (owned []))
unfolding get_client is_gone
rollback_removes_created_example =
    rollback_removes_created test_host test_config test_role (codes "dev") [] (pos 1660) warm
      test_config test_request none test_entry (ok (codes "w1")) draws test_config
      (record { groups = codes "ops" ∷ []; enable = true; expire = pos 1660; comment = test_nonce })
      warm test_attempt_lem refl refl refl refl
