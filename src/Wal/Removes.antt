-- ===== src/Wal/Removes.antt =====
-- `walRollbackUser` of wal.go after a round of `handleCredsRead` in path_creds.go that was cut off.
use vault_custom_secrets_eng.Base.{
  ℕ, ◌∙◌, ◌≡◌, ◌≢◌, subst, true, Option, none, [], ◌∷◌, ◌++◌, Bytes, text_eq_iff, ℤ, arith,
}
use vault_custom_secrets_eng.Pveapi.Errors.{Error, Result, ok}
use vault_custom_secrets_eng.Pveapi.Types.{CreateUserRequest, UserInfo}
use vault_custom_secrets_eng.Host.{Host}
use vault_custom_secrets_eng.Host.Data.{Config, Role, WalUser, user}
use vault_custom_secrets_eng.Host.Event.{Event, Log}
use vault_custom_secrets_eng.Host.Act.{State}
use vault_custom_secrets_eng.Backend.{get_client}
use vault_custom_secrets_eng.Userid.{build_user_id}
use vault_custom_secrets_eng.Creds.{is_gone, create_request}
use vault_custom_secrets_eng.Creds.Steps.{try_attempt, random_suffix}
use vault_custom_secrets_eng.Creds.Trace.{owned, without}
use vault_custom_secrets_eng.Creds.Retry.{get_client-KeepsTrace}
use vault_custom_secrets_eng.Wal.{is_own, delete_own, wal_rollback_user, read_and_delete}

-- A creation right after a WAL entry is of the entry's user, with the entry's nonce as its comment,
-- and neither is empty.
abbrev IsNamed : Log → Type 0
IsNamed (Event.user_created c req r ∷ Event.wal_put (user entry) w ∷ l) =
    (entry.user_id ≡ req.user_id)
    × (req.comment ≡ entry.nonce)
    × (req.user_id ≢ [])
    × (req.comment ≢ [])
IsNamed _ = Unit

append-ne_nil : (s : Bytes) (b : ℕ) (t : Bytes) → s ++ b ∷ t ≢ []
append-ne_nil [] b t = λ e. cc
append-ne_nil (x ∷ s) b t = λ e. cc

build_user_id-ne_nil :
    (prefix name suffix realm : Bytes) → build_user_id prefix name suffix realm ≢ []
unfolding build_user_id
build_user_id-ne_nil prefix name suffix realm = append-ne_nil prefix _ _

module _ (host : Host) where
  try_attempt-IsNamed :
      (client : Config) (role : Role) (name password : Bytes) (expire : ℤ) (s : State)
      → IsNamed (try_attempt host client role name password expire s).1.log
  unfolding try_attempt random_suffix create_request
  try_attempt-IsNamed client role name password expire s = grind (arith, build_user_id-ne_nil)

  removes_named :
      (entry : WalUser) (userid : Bytes) (client : Config) (info : UserInfo) (s : State)
      → entry.user_id ≡ userid
      → userid ≢ []
      → entry.nonce ≢ []
      → (get_client host s).0 ≡ ok client
      → host.get_user (get_client host s).1.log client userid ≡ ok info
      → info.comment ≡ entry.nonce
      → is_gone (
          host.delete_user
            (Event.user_read client userid (ok info) ∷ (get_client host s).1.log)
            client
            userid)
        ≡ true
      → let (outcome, s') = wal_rollback_user host (ok entry) s in
        (outcome ≡ none) × (owned s'.log ≡ without userid (owned s.log))
  unfolding wal_rollback_user read_and_delete delete_own is_own owned
  removes_named entry userid client info s same named nonced e found comment gone =
      ground (arith, get_client-KeepsTrace host s, text_eq_iff info.comment entry.nonce)

-- Where a round of the issuance wrote a WAL entry and then sent the creation of a user, with any
-- answers, and later, in any state, PVE still shows that user with the comment that was sent, the
-- rollback of the entry finds a client, and the deletion removes the user or finds none: then the
-- rollback is done with the entry, and the user is no longer among those that may exist.
pub rollback_removes_created :
    (host : Host) (client : Config) (role : Role) (name password : Bytes) (expire : ℤ) (s : State)
    (c : Config) (req : CreateUserRequest) (r : Option Error) (entry : WalUser) (w : Result Bytes)
    (l : Log) (client' : Config) (info : UserInfo) (later : State)
    → (try_attempt host client role name password expire s).1.log
      ≡ Event.user_created c req r ∷ Event.wal_put (user entry) w ∷ l
    → (get_client host later).0 ≡ ok client'
    → host.get_user (get_client host later).1.log client' req.user_id ≡ ok info
    → info.comment ≡ req.comment
    → is_gone (
        host.delete_user
          (Event.user_read client' req.user_id (ok info) ∷ (get_client host later).1.log)
          client'
          req.user_id)
      ≡ true
    → let (outcome, s') = wal_rollback_user host (ok entry) later in
      (outcome ≡ none) × (owned s'.log ≡ without req.user_id (owned later.log))
rollback_removes_created host client role name password expire s c req r entry w l client' info
      later sent e found comment gone =
    let (same, nonce, named, commented) =
      subst IsNamed sent (try_attempt-IsNamed host client role name password expire s) in
    removes_named host entry req.user_id client' info later same named
      (subst (λ t. t ≢ []) nonce commented) e found (comment ∙ nonce) gone
