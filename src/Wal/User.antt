-- ===== src/Wal/User.antt =====
-- `walRollbackUser` of wal.go: it deletes no foreign user, and says exactly when an entry is done.
use vault_custom_secrets_eng.Base.{
  ◌≡◌, ◌≢◌, ◌↔◌, ◌⊎◌, inl, inr, refl, true, Option, none, [], ◌∷◌, Bytes, is_empty, text_eq_iff,
  Bool-cases, arith, is_empty→eq,
}
use vault_custom_secrets_eng.Pveapi.Errors.{Error, Result, ok, err, errors_is, user_not_found}
use vault_custom_secrets_eng.Pveapi.Types.{UserInfo}
use vault_custom_secrets_eng.Host.{Host}
use vault_custom_secrets_eng.Host.Data.{Config, WalUser}
use vault_custom_secrets_eng.Host.Event.{Event, Log}
use vault_custom_secrets_eng.Host.Act.{State, get_user, continue, call, or_return}
use vault_custom_secrets_eng.Backend.{get_client}
use vault_custom_secrets_eng.Creds.{is_gone}
use vault_custom_secrets_eng.Wal.{is_own, delete_own, wal_rollback_user, read_and_delete}

-- The newest call read the user, and its comment is the entry's nonce, which is not empty.
abbrev pub IsOwnRead : WalUser → Bytes → Log → Type 0
IsOwnRead entry userid (Event.user_read c u (ok info) ∷ l) =
    (u ≡ userid) × (info.comment ≡ entry.nonce) × (entry.nonce ≢ [])
IsOwnRead entry userid _ = ⊥

-- Every deletion in the log is of the entry's user, right after such a read.
abbrev pub DeletesOwn : WalUser → Log → Type 0
DeletesOwn entry [] = Unit
DeletesOwn entry (Event.user_deleted c u r ∷ l) =
    (u ≡ entry.user_id) × IsOwnRead entry u l × DeletesOwn entry l
DeletesOwn entry (_ ∷ l) = DeletesOwn entry l

is_own_lem :
    (entry : WalUser) (comment : Bytes)
    → is_own entry comment ≡ true
    → (comment ≡ entry.nonce) × (entry.nonce ≢ [])
unfolding is_own
is_own_lem entry comment h = ground (arith, text_eq_iff comment entry.nonce)

module _ (host : Host) (entry : WalUser) where
  get_client-DeletesOwn :
      (s : State) → DeletesOwn entry s.log → DeletesOwn entry (get_client host s).1.log
  unfolding get_client
  get_client-DeletesOwn s h = ground arith

  delete_own-DeletesOwn :
      (client : Config) (found : Result UserInfo) (s : State) (l : Log)
      → s.log ≡ Event.user_read client entry.user_id found ∷ l
      → DeletesOwn entry l
      → DeletesOwn entry (delete_own host client entry found s).1.log
  unfolding delete_own
  delete_own-DeletesOwn client (err e) s l top h = rw top h
  delete_own-DeletesOwn client (ok info) s l top h = elim (Bool-cases (is_own entry info.comment)) [
    | inl own ↦
        rw (own, top)
          (
            refl,
            (refl, (is_own_lem entry info.comment own).0, (is_own_lem entry info.comment own).1),
            h,
          )
    | inr foreign ↦ rw (foreign, top) h
  ]

  read_and_delete-DeletesOwn :
      (client : Config) (s : State)
      → DeletesOwn entry s.log
      → DeletesOwn entry (read_and_delete host entry client s).1.log
  unfolding read_and_delete
  read_and_delete-DeletesOwn client s h =
      delete_own-DeletesOwn client (get_user host client entry.user_id s).0 _ s.log refl h

  after_client-DeletesOwn :
      (x : Result Config) (f : Error → Option Error) (s : State)
      → DeletesOwn entry s.log
      → let y = or_return x f s in
        DeletesOwn entry (continue y.0 (λ c. call (read_and_delete host entry c)) y.1).1.log
  after_client-DeletesOwn (ok c) f s h = read_and_delete-DeletesOwn c s h
  after_client-DeletesOwn (err e) f s h = h

  -- From a log of which it holds already: the rollback of a user's entry deletes a user only if it
  -- is the entry's, and only right after reading that the user's comment is the entry's nonce,
  -- which is not empty.
  pub wal_rollback_user-DeletesOwn :
      (s : State)
      → DeletesOwn entry s.log
      → DeletesOwn entry (wal_rollback_user host (ok entry) s).1.log
  unfolding wal_rollback_user
  wal_rollback_user-DeletesOwn s h = elim (Bool-cases (is_empty entry.user_id)) [
    | inl unnamed ↦ rw unnamed h
    | inr named ↦ rw named (
        after_client-DeletesOwn (get_client host s).0 _ (get_client host s).1
          (get_client-DeletesOwn s h))
  ]

-- Why an entry is done: the user is gone, is not the one that the entry's issuance created, or was
-- deleted.
abbrev pub IsDone : WalUser → Result UserInfo → Option Error → Type 0
IsDone entry (err e) answer = errors_is e user_not_found ≡ true
IsDone entry (ok info) answer =
    (entry.nonce ≡ []) ⊎ ((info.comment ≢ entry.nonce) ⊎ (is_gone answer ≡ true))

delete_own_iff :
    (host : Host) (entry : WalUser) (client : Config) (found : Result UserInfo) (s : State)
    → ((delete_own host client entry found s).0 ≡ none)
      ↔ IsDone entry found (host.delete_user s.log client entry.user_id)
unfolding delete_own is_own is_gone
delete_own_iff host entry client (err e) s = ground arith
delete_own_iff host entry client (ok info) s = ground (arith, text_eq_iff info.comment entry.nonce)

-- With a client, the rollback of an entry that names a user is done with it exactly when PVE has
-- no such user, or the entry has no nonce, or the user's comment is another, or the deletion that
-- was sent removed the user or found none. Otherwise it fails, and the entry stays for a retry.
pub wal_rollback_user_iff :
    (host : Host) (entry : WalUser) (client : Config) (s : State)
    → entry.user_id ≢ []
    → (get_client host s).0 ≡ ok client
    → let l = (get_client host s).1.log in
      let found = host.get_user l client entry.user_id in
      let answer =
        host.delete_user (Event.user_read client entry.user_id found ∷ l) client entry.user_id in
      ((wal_rollback_user host (ok entry) s).0 ≡ none) ↔ IsDone entry found answer
unfolding wal_rollback_user read_and_delete
wal_rollback_user_iff host entry client s named e = elim (Bool-cases (is_empty entry.user_id)) [
  | inl unnamed ↦ absurd (named (is_empty→eq entry.user_id unnamed))
  | inr b ↦ rw (b, e) (delete_own_iff host entry client _ _)
]
