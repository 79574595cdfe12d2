-- ===== src/Creds/Made.antt =====
-- The retry loop of `handleCredsRead` in path_creds.go ends with a user that was made.
use vault_custom_secrets_eng.Base.{
  ℕ, zero, suc, ◌≡◌, inl, inr, refl, Option, none, some, [], Bytes, arith,
}
use vault_custom_secrets_eng.Pveapi.Errors.{Error}
use vault_custom_secrets_eng.Host.{Host}
use vault_custom_secrets_eng.Host.Response.{Outcome}
use vault_custom_secrets_eng.Host.Act.{State, Act, delete_wal}
use vault_custom_secrets_eng.Creds.{Attempt, create_request}
use vault_custom_secrets_eng.Creds.Steps.{try_attempt, after_create, create_loop}
use vault_custom_secrets_eng.Creds.Handler.{Plan}
use vault_custom_secrets_eng.Host.Returns.{EndsIn, EndsIn-after}
use vault_custom_secrets_eng.Creds.Expiry.{ToldTime}
use vault_custom_secrets_eng.Creds.Issued.{Rounds, Loops}

module _ (host : Host) where
  try_attempt-EndsIn :
      (plan : Plan) (now : ℕ) (name password : Bytes) (s : State)
      → ToldTime now s.log
      → EndsIn
          (Rounds plan now password)
          (try_attempt host plan.client plan.role name password plan.expire s)
  unfolding try_attempt create_request
  try_attempt-EndsIn plan now name password s told = grind arith

  after_create-EndsIn :
      (plan : Plan) (now : ℕ) (password : Bytes) (again : Attempt → Act Outcome Attempt)
      (p : Attempt × Option Error) (s : State)
      → ((a : Attempt) (s' : State)
          → a.wal_id ≡ []
          → ToldTime now s'.log
          → EndsIn (Loops plan now password) (again a s'))
      → Rounds plan now password p s
      → EndsIn (Loops plan now password) (after_create host again p.0 p.1 s)
  unfolding after_create
  after_create-EndsIn plan now password again (a, none) s ih h = inr h
  after_create-EndsIn plan now password again (a, some e) s ih h =
      ground (arith, ih (record a { wal_id = [] }) (delete_wal host a.wal_id s).1 refl h)

  pub create_loop-EndsIn :
      (plan : Plan) (now : ℕ) (name password : Bytes) (left : ℕ) (last : Attempt) (s : State)
      → last.wal_id ≡ []
      → ToldTime now s.log
      → EndsIn
          (Loops plan now password)
          (create_loop host left plan.client plan.role name password plan.expire last s)
  unfolding create_loop
  create_loop-EndsIn plan now name password zero last s e told = inl e
  create_loop-EndsIn plan now name password (suc left) last s e told =
      EndsIn-after (Rounds plan now password) (Loops plan now password)
        (try_attempt host plan.client plan.role name password plan.expire s) _
        (try_attempt-EndsIn plan now name password s told)
        λ p s1 h.
          after_create-EndsIn plan now password
            (create_loop host left plan.client plan.role name password plan.expire) p s1
            (λ a s2 empty told2. create_loop-EndsIn plan now name password left a s2 empty told2) h
