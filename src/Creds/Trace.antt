-- ===== src/Creds/Trace.antt =====
-- What a log says of the users that may exist in PVE and of the WAL entries that are left.
use vault_custom_secrets_eng.Base.{
  ◌≡◌, ◌⊎◌, none, some, List, [], ◌∷◌, Bytes, codes, text_eq, All, lookup, if◌then◌else◌,
}
use vault_custom_secrets_eng.Pveapi.Errors.{ok, errors_is, conflict}
use vault_custom_secrets_eng.Host.Data.{WalEntry, user}
use vault_custom_secrets_eng.Host.Event.{Event, Log}
use vault_custom_secrets_eng.Host.Response.{str, leased, Outcome}
use vault_custom_secrets_eng.Creds.{is_gone}

-- The entries of a dictionary without a key.
unfoldable pub without {ℓ} : {V : Type ℓ} → Bytes → List (Bytes × V) → List (Bytes × V)
without k [] = []
without k ((j, v) ∷ m) = let rest = without k m in if text_eq j k then rest else (j, v) ∷ rest

-- The users, each with its comment, that a creation may have made and that no deletion has removed
-- since. Only `ErrConflict` says that the creation made nothing.
unfoldable pub owned : Log → List (Bytes × Bytes)
unfolding without is_gone
owned [] = []
owned (Event.user_created c req none ∷ l) = (req.user_id, req.comment) ∷ owned l
owned (Event.user_created c req (some e) ∷ l) =
    if errors_is e conflict then owned l else (req.user_id, req.comment) ∷ owned l
owned (Event.user_deleted c userid r ∷ l) = if is_gone r then without userid (owned l) else owned l
owned (_ ∷ l) = owned l

-- The WAL entries that were written and not deleted.
unfoldable pub pending : Log → List (Bytes × WalEntry)
unfolding without
pending [] = []
pending (Event.wal_put entry (ok id) ∷ l) = (id, entry) ∷ pending l
pending (Event.wal_deleted id none ∷ l) = without id (pending l)
pending (_ ∷ l) = pending l

-- A WAL entry names the user and the comment that it was created with.
abbrev pub IsCovered : List (Bytes × WalEntry) → Bytes × Bytes → Type 0
IsCovered [] u = ⊥
IsCovered ((id, entry) ∷ wal) u =
    (entry ≡ user (record { user_id = u.0; nonce = u.1 })) ⊎ IsCovered wal u

-- The outcome is a lease on the user.
abbrev pub HandsOut : Outcome → Bytes → Type 0
HandsOut (ok (some (leased lease fields warnings))) userid =
    lookup (codes "pve_userid") lease.internal_data ≡ some (str userid)
HandsOut _ userid = ⊥

-- No user is left that neither a WAL entry nor the lease which is returned leads to.
abbrev pub IsSettled : Outcome → Log → Type 0
IsSettled outcome l = All (λ u. IsCovered (pending l) u ⊎ HandsOut outcome u.0) (owned l)
