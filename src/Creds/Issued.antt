-- ===== src/Creds/Issued.antt =====
-- path_creds.go: what a lease of `handleCredsRead` stands for.
use Prim.Native.String.{String}
use vault_custom_secrets_eng.Base.{
  ℕ, ◌≡◌, ◌⊎◌, Bool, true, false, Option, none, some, [], ◌∷◌, ◌++◌, codes, Bytes, text_eq, ℤ, pos,
  ◌<ℤ◌, leb_ℤ, arith,
}
use vault_custom_secrets_eng.Pveapi.Errors.{Error, ok, err}
use vault_custom_secrets_eng.Pveapi.Types.{UserInfo}
use vault_custom_secrets_eng.Host.Data.{user}
use vault_custom_secrets_eng.Host.Event.{Event, Log}
use vault_custom_secrets_eng.Host.Response.{refusal, reply, leased, keys, Outcome}
use vault_custom_secrets_eng.Host.Returns.{EndsIn}
use vault_custom_secrets_eng.Host.Act.{State, Act, Flow, next, stop, continue, result, return_if}
use vault_custom_secrets_eng.Creds.Expiry.{ToldTime, IsExpiry}
use vault_custom_secrets_eng.Pveapi.Client.Answers.{Among}
use vault_custom_secrets_eng.Host.Response.{Values, str, int64}
use vault_custom_secrets_eng.Creds.{refuse, Attempt}
use vault_custom_secrets_eng.Creds.Handler.{Plan}

-- The two newest calls: a WAL entry that names the user and the comment, and then the creation of
-- that user, enabled, with the role's group, the expiry, that comment and the password; the newest
-- reading of the clock before them gave this time.
abbrev pub IsMade : Plan → ℕ → Bytes → Attempt → Log → Type 0
IsMade plan now password a (Event.user_created c req none ∷ Event.wal_put entry (ok id) ∷ l) =
    (c ≡ plan.client)
    × ((req.user_id ≡ a.userid) × (req.groups ≡ plan.role.group) × (req.expire ≡ plan.expire))
    × ((req.enable ≡ true) × (req.comment ≡ a.nonce) × (req.password ≡ password))
    × (entry ≡ user (record { user_id = a.userid; nonce = a.nonce }))
    × (id ≡ a.wal_id)
    × ToldTime now l
IsMade plan now password a _ = ⊥

-- In password mode, the comment that was read is the one that was written.
abbrev pub KeepsComment : Bool → Attempt → UserInfo → Type 0
KeepsComment false a info = Unit
KeepsComment true a info = info.comment ≡ a.nonce

-- Then the user was read back, in the role's group.
abbrev pub IsReadBack : Plan → ℕ → Bool → Bytes → Attempt → Log → Type 0
IsReadBack plan now mode password a (Event.user_read c userid (ok info) ∷ l) =
    (userid ≡ a.userid)
    × Among plan.role.group info.groups
    × KeepsComment mode a info
    × IsMade plan now password a l
IsReadBack plan now mode password a _ = ⊥

-- Then a token role's user got the token "lease", whose secret this is.
abbrev pub IsMinted : Plan → ℕ → Bool → Bytes → Attempt → Bytes → Log → Type 0
IsMinted plan now true password a secret l = IsReadBack plan now true password a l
IsMinted plan now false password a secret (Event.token_created c userid token (ok minted) ∷ l) =
    (userid ≡ a.userid)
    × (token ≡ codes "lease")
    × (minted ≡ secret)
    × IsReadBack plan now false password a l
IsMinted plan now false password a secret _ = ⊥

-- At last the WAL entry was deleted.
abbrev pub IsFinished : Plan → ℕ → Bool → Bytes → Attempt → Bytes → Log → Type 0
IsFinished plan now mode password a secret (Event.wal_deleted id none ∷ l) =
    (id ≡ a.wal_id) × IsMinted plan now mode password a secret l
IsFinished plan now mode password a secret _ = ⊥

-- The TTL is above zero, and the expiry is the end of the TTL from this time.
pub record IsPlanned (plan : Plan) (now : ℕ) : Type 0 where
  pub lives : pos 0 <ℤ plan.ttl
  pub expires : IsExpiry now plan.ttl plan.expire

-- The response data of a password lease, and of a token lease.
abbrev pub IsCredential : Bool → Bytes → Bytes → Bytes → Values → Type 0
IsCredential true userid password secret fields =
    fields ≡ (codes "user_id", str userid) ∷ (codes "password", str password) ∷ []
IsCredential false userid password secret fields =
    fields
    ≡ (codes "token_id", str (userid ++ codes "!lease"))
      ∷ (codes "token_secret", str secret)
      ∷ (codes "user_id", str userid)
      ∷ []

-- The secret type's name for the mode, and a user without a password in token mode.
abbrev pub IsKind : Bool → Bytes → Bytes → Type 0
IsKind true kind password = kind ≡ codes "password"
IsKind false kind password = (kind ≡ codes "token") × (password ≡ [])

-- The data of the lease, which renewals and revocations read.
abbrev pub IsData : Plan → Bytes → Bytes → Values → Type 0
IsData plan name userid data' =
    data'
    ≡ (codes "pve_userid", str userid)
      ∷ (codes "group", str plan.role.group)
      ∷ (codes "effective_max_ttl", int64 plan.max_ttl)
      ∷ (codes "role_name", str name)
      ∷ (codes "expire", int64 plan.expire)
      ∷ []

-- A lease is of a user that was made, read back, given its credential, and freed of its WAL entry
-- by the newest calls; the credential and the data are those of that user.
abbrev pub IsIssued : Bytes → Outcome × State → Type 0
IsIssued name (ok (some (leased lease fields warnings)), s) =
    (plan : Plan) × (now : ℕ) × (password : Bytes) × (a : Attempt) × (secret : Bytes) × let mode =
        text_eq plan.role.mode (codes "password") in
      IsPlanned plan now
      × (lease.ttl ≡ plan.ttl)
      × (lease.max_ttl ≡ plan.max_ttl)
      × IsKind mode lease.secret_type password
      × IsData plan name a.userid lease.internal_data
      × IsCredential mode a.userid password secret fields
      × IsFinished plan now mode password a secret s.log
IsIssued name (ok (some (refusal text)), s) = Unit
IsIssued name (err e, s) = Unit
IsIssued name (ok _, s) = ⊥

pub IsIssued-after :
    {A : Type 0} (P : A → State → Type 0) (name : Bytes) (x : Flow Outcome A × State)
    (k : A → Act Outcome Outcome)
    → EndsIn P x
    → ((v : A) (s : State) → P v s → IsIssued name (result (k v s).0, (k v s).1))
    → let y = continue x.0 k x.1 in IsIssued name (result y.0, y.1)
IsIssued-after P name (next v, s) k h rest = rest v s h
IsIssued-after P name (stop (ok none), s) k h rest = absurd h
IsIssued-after P name (stop (ok (some (refusal text))), s) k h rest = tt
IsIssued-after P name (stop (ok (some (reply fields warnings))), s) k h rest = absurd h
IsIssued-after P name (stop (ok (some (leased lease fields warnings))), s) k h rest = absurd h
IsIssued-after P name (stop (ok (some (keys ks))), s) k h rest = absurd h
IsIssued-after P name (stop (err e), s) k h rest = tt

-- What a round of the retry loop leaves: a user where `CreateUser` has accepted it.
abbrev pub Rounds : Plan → ℕ → Bytes → Attempt × Option Error → State → Type 0
Rounds plan now password (a, none) s = IsMade plan now password a s.log
Rounds plan now password (a, some e) s = ToldTime now s.log

-- What the retry loop leaves: a user, or no WAL id where every attempt has collided.
abbrev pub Loops : Plan → ℕ → Bytes → Attempt → State → Type 0
Loops plan now password a s = (a.wal_id ≡ []) ⊎ IsMade plan now password a s.log

pub positive-EndsIn :
    (ttl : ℤ) (text : String) (s : State)
    → EndsIn (λ _ _. pos 0 <ℤ ttl) (return_if (leb_ℤ ttl (pos 0)) (refuse text) s)
positive-EndsIn ttl text s = ground arith
