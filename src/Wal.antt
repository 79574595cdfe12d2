-- ===== src/Wal.antt =====
-- wal.go: the rollback of WAL entries that a crash or an error has left.
pub mod User
pub mod Removes
pub mod Rotation
use vault_custom_secrets_eng.Pveapi.Types.{UserInfo}
use vault_custom_secrets_eng.Base.{
  Bool, true, false, not, ◌||◌, Option, none, some, List, [], ◌∷◌, Bytes, codes, is_empty, text_eq,
  if◌then◌else◌,
}
use vault_custom_secrets_eng.Pveapi.Errors.{
  Error, failure, wrap, errors_is, user_not_found, token_not_found, failed_with, Result, ok, err,
}
use vault_custom_secrets_eng.Host.{Host}
use vault_custom_secrets_eng.Host.Data.{Config, WalUser, RotationState}
use vault_custom_secrets_eng.Host.Act.{
  Op, Act, continue, ◌>>=◌, ◌>>◌, pure, return, call, return_if, or_return, try, check, run,
  get_user, delete_user,
}
use vault_custom_secrets_eng.Backend.{get_client}
use vault_custom_secrets_eng.Creds.{is_gone}

abbrev pub wal_type_user : Bytes
wal_type_user = codes "user"

abbrev pub wal_type_rotation : Bytes
wal_type_rotation = codes "root-rotation"

-- Whether the user is the one that the entry's issuance created.
unfoldable pub is_own : WalUser → Bytes → Bool
is_own entry comment = not (is_empty entry.nonce || not (text_eq comment entry.nonce))

module _ (host : Host) where
  -- What follows the comparison of the comment with the nonce. An outcome of `none` drops the WAL
  -- entry, an error keeps it for the next sweep.
  unfoldable pub delete_if_own : Bool → Config → WalUser → Op (Option Error)
  unfolding delete_user
  delete_if_own false client entry s = (none, s)
  delete_if_own true client entry s =
      let (answer, s') = delete_user host client entry.user_id s in
      (
        elim answer [
          | none ↦ none
          | some e ↦
              if errors_is e user_not_found
              then none
              else some (wrap "proxmox: walRollback user: DeleteUser" e)
        ],
        s',
      )

  -- What follows an answer of `GetUser`.
  unfoldable pub delete_own : Config → WalUser → Result UserInfo → Op (Option Error)
  unfolding delete_if_own
  delete_own client entry (err e) s = (
    if errors_is e user_not_found then none else some (wrap "proxmox: walRollback user: GetUser" e),
    s,
  )
  delete_own client entry (ok info) s = delete_if_own (is_own entry info.comment) client entry s

  -- The read, and what follows its answer.
  unfoldable pub read_and_delete : WalUser → Config → Op (Option Error)
  unfolding get_user
  read_and_delete entry client s =
      let (found, s') = get_user host client entry.user_id s in delete_own client entry found s'

  -- `walRollbackUser`, with the payload as `mapstructure.Decode` gives it.
  unfoldable pub wal_rollback_user : Result WalUser → Op (Option Error)
  wal_rollback_user decoded = run do
    entry ← or_return decoded (λ e. some (wrap "proxmox: walRollback user: decode WAL payload" e))
    return_if (is_empty entry.user_id)
        (some (failure "proxmox: walRollback user: WAL payload missing user_id"))
    client ← try (get_client host) (λ e. some (wrap "proxmox: walRollback user: get client" e))
    call (read_and_delete entry client)
