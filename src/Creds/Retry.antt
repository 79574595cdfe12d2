-- ===== src/Creds/Retry.antt =====
-- path_creds.go: how the retry loop leaves the users and the WAL.
use vault_custom_secrets_eng.Base.{
  Bool-cases, ℕ, zero, suc, ◌≡◌, ◌⊎◌, inl, inr, refl, Option, none, some, [], ◌∷◌, Bytes, ℤ,
  text_eq_refl, if◌then◌else◌, arith,
}
use vault_custom_secrets_eng.Pveapi.Errors.{Error, errors_is, conflict}
use vault_custom_secrets_eng.Host.{Host}
use vault_custom_secrets_eng.Host.Data.{Config, Role, WalEntry, user}
use vault_custom_secrets_eng.Host.Response.{Outcome}
use vault_custom_secrets_eng.Host.Act.{State, Act, continue, Flow, next, stop, delete_wal}
use vault_custom_secrets_eng.Backend.{get_config, build_client, get_client}
use vault_custom_secrets_eng.Creds.{Attempt}
use vault_custom_secrets_eng.Creds.Steps.{random_suffix, try_attempt, after_create, create_loop}
use vault_custom_secrets_eng.Creds.Trace.{owned, pending, IsSettled}

-- Nothing is left to clean up.
pub record IsQuiet (s : State) : Type 0 where
  pub no_user : owned s.log ≡ []
  pub no_entry : pending s.log ≡ []

-- A step has created no user and written no WAL entry.
pub record KeepsTrace (s s' : State) : Type 0 where
  pub same_users : owned s'.log ≡ owned s.log
  pub same_entries : pending s'.log ≡ pending s.log

module _ (host : Host) where
  pub get_config-KeepsTrace : (s : State) → KeepsTrace s (get_config host s).1
  unfolding get_config owned pending
  get_config-KeepsTrace s = ground arith

  pub build_client-KeepsTrace : (s : State) → KeepsTrace s (build_client host s).1
  unfolding build_client owned pending
  build_client-KeepsTrace s = ground arith

  pub get_client-KeepsTrace : (s : State) → KeepsTrace s (get_client host s).1
  unfolding get_client owned pending
  get_client-KeepsTrace s = ground arith

  pub random_suffix-KeepsTrace : (s : State) → KeepsTrace s (random_suffix host s).1
  unfolding random_suffix owned pending
  random_suffix-KeepsTrace s = ground arith

-- The attempt's user is the only one, and the attempt's WAL entry leads to it.
pub record IsCreated (a : Attempt) (s : State) : Type 0 where
  pub one_user : owned s.log ≡ (a.userid, a.nonce) ∷ []
  pub one_entry :
      pending s.log ≡ (a.wal_id, user (record { user_id = a.userid; nonce = a.nonce })) ∷ []

-- How the retry loop ends: in an error with nothing orphaned, with a user, or with no attempt left.
abbrev pub LoopEnd : Flow Outcome Attempt × State → Type 0
LoopEnd (stop r, s) = IsSettled r s.log
LoopEnd (next a, s) = IsCreated a s ⊎ (IsQuiet s × (a.wal_id ≡ []))

-- After an answer of `CreateUser`: only a conflict says that there is no user.
abbrev Begun : Attempt → Option Error → State → Type 0
Begun a none s = IsCreated a s
Begun a (some e) s =
    if errors_is e conflict
    then (owned s.log ≡ [])
      × (pending s.log ≡ (a.wal_id, user (record { user_id = a.userid; nonce = a.nonce })) ∷ [])
    else IsCreated a s

abbrev AttemptEnd : Flow Outcome (Attempt × Option Error) × State → Type 0
AttemptEnd (stop r, s) = IsSettled r s.log
AttemptEnd (next (a, created), s) = Begun a created s

module _ (host : Host) where
  try_attempt-AttemptEnd :
      (client : Config) (role : Role) (name password : Bytes) (expire : ℤ) (s : State)
      → IsQuiet s
      → AttemptEnd (try_attempt host client role name password expire s)
  unfolding try_attempt owned pending
  try_attempt-AttemptEnd client role name password expire s quiet = ground arith

  delete_wal-IsQuiet :
      (id : Bytes) (entry : WalEntry) (s : State)
      → owned s.log ≡ []
      → pending s.log ≡ (id, entry) ∷ []
      → (delete_wal host id s).0 ≡ none
      → IsQuiet (delete_wal host id s).1
  unfolding delete_wal owned pending
  delete_wal-IsQuiet id entry s no_user one_entry e = ground (arith, text_eq_refl id)

  delete_wal-owned : (id : Bytes) (s : State) → owned (delete_wal host id s).1.log ≡ owned s.log
  unfolding delete_wal owned
  delete_wal-owned id s = refl

  after_create-LoopEnd :
      (again : Attempt → Act Outcome Attempt) (a : Attempt) (created : Option Error) (s : State)
      → ((a' : Attempt) (s' : State) → a'.wal_id ≡ [] → IsQuiet s' → LoopEnd (again a' s'))
      → Begun a created s
      → LoopEnd (after_create host again a created s)
  unfolding after_create
  after_create-LoopEnd again a none s ih h = inl h
  after_create-LoopEnd again a (some e) s ih h = elim (Bool-cases (errors_is e conflict)) [
    | inl collided ↦ ground (
      arith,
      delete_wal-owned a.wal_id s,
      delete_wal-IsQuiet a.wal_id (user (record { user_id = a.userid; nonce = a.nonce })) s,
      ih (record a { wal_id = [] }) (delete_wal host a.wal_id s).1,
    )
    | inr other ↦ ground arith
  ]

  continue-LoopEnd :
      (again : Attempt → Act Outcome Attempt) (x : Flow Outcome (Attempt × Option Error) × State)
      → ((a' : Attempt) (s' : State) → a'.wal_id ≡ [] → IsQuiet s' → LoopEnd (again a' s'))
      → AttemptEnd x
      → LoopEnd (continue x.0 (λ p. after_create host again p.0 p.1) x.1)
  continue-LoopEnd again (stop r, s) ih h = h
  continue-LoopEnd again (next (a, created), s) ih h = after_create-LoopEnd again a created s ih h

  -- From a quiet state the loop ends in an error that orphans nothing, with one user and its WAL
  -- entry, or with the attempts used up and nothing left.
  pub create_loop-LoopEnd :
      (left : ℕ) (client : Config) (role : Role) (name password : Bytes) (expire : ℤ)
      (last : Attempt) (s : State)
      → last.wal_id ≡ []
      → IsQuiet s
      → LoopEnd (create_loop host left client role name password expire last s)
  unfolding create_loop
  create_loop-LoopEnd zero client role name password expire last s e quiet = inr (quiet, e)
  create_loop-LoopEnd (suc left) client role name password expire last s e quiet =
      continue-LoopEnd (create_loop host left client role name password expire)
        (try_attempt host client role name password expire s)
        (λ a' s' e' q'. create_loop-LoopEnd left client role name password expire a' s' e' q')
        (try_attempt-AttemptEnd client role name password expire s quiet)
