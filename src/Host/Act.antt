-- ===== src/Host/Act.antt =====
-- The engine's code as functions of its state: the cached client of `backend`, and the log of the
-- calls that left the engine. A function that Go leaves by an early `return` is an `Act`.
use Prim.Native.String.{String}
use vault_custom_secrets_eng.Base.{ℕ, Bool, true, false, Option, none, some, List, ◌∷◌, Bytes, ℤ}
use vault_custom_secrets_eng.Pveapi.Errors.{Error, Result, ok, err}
use vault_custom_secrets_eng.Pveapi.Types.{
  CreateUserRequest, UpdateUserRequest, UserInfo, VersionInfo, validate,
}
use vault_custom_secrets_eng.Pveapi.Permissions.{PermissionTree}
use vault_custom_secrets_eng.Host.Data.{Config, WalEntry}
use vault_custom_secrets_eng.Host.Event.{Event, Log}
use vault_custom_secrets_eng.Host.{Host}

-- The client is known by the configuration that it was built from.
pub record State : Type 0 where
  pub client : Option Config
  pub log : Log

-- A call that always comes back.
abbrev pub Op : Type 0 → Type 0
Op A = State → A × State

-- The value of a statement, or the value that the function returns.
pub data Flow (R A : Type 0) : Type 0 where
  next : A → Flow R A
  stop : R → Flow R A

abbrev pub Act : Type 0 → Type 0 → Type 0
Act R A = State → Flow R A × State

module _ {R A B : Type 0} where
  abbrev pub continue : Flow R A → (A → Act R B) → Act R B
  continue (next a) f s = f a s
  continue (stop r) f s = (stop r, s)

  infixl 5 ◌>>=◌ ◌>>◌
  abbrev pub ◌>>=◌ : Act R A → (A → Act R B) → Act R B
  ◌>>=◌ m f s = let (a, s') = m s in continue a f s'

  abbrev pub ◌>>◌ : Act R A → Act R B → Act R B
  m >> k = m >>= λ _. k

module _ {R A : Type 0} where
  abbrev pub pure : A → Act R A
  pure a s = (next a, s)

  -- `return r`
  abbrev pub return : R → Act R A
  return r s = (stop r, s)

  abbrev pub call : Op A → Act R A
  call m s = let (a, s') = m s in (next a, s')

  -- `a, err := r; if err != nil { return f(err) }`
  abbrev pub or_return : Result A → (Error → R) → Act R A
  or_return (ok a) f = pure a
  or_return (err e) f = return (f e)

  -- `a, err := m(); if err != nil { return f(err) }`
  abbrev pub try : Op (Result A) → (Error → R) → Act R A
  try m f s = let (r, s') = m s in or_return r f s'

module _ {R : Type 0} where
  abbrev pub or_stop : Option Error → (Error → R) → Act R Unit
  or_stop none f = pure tt
  or_stop (some e) f = return (f e)

  -- `if err := m(); err != nil { return f(err) }`
  abbrev pub check : Op (Option Error) → (Error → R) → Act R Unit
  check m f s = let (r, s') = m s in or_stop r f s'

  -- `if b { return r }`
  abbrev pub return_if : Bool → R → Act R Unit
  return_if true r s = (stop r, s)
  return_if false r s = (next tt, s)

  -- The function whose body this is.
  abbrev pub result : Flow R R → R
  result (next r) = r
  result (stop r) = r

  abbrev pub run : Act R R → Op R
  run m s = let (r, s') = m s in (result r, s')

module _ {A : Type 0} where
  abbrev ask : (Log → A) → (A → Event) → Op A
  ask f event s = let a = f s.log in (a, record s { log = event a ∷ s.log })

module _ (host : Host) where
  unfoldable pub storage_get : Bytes → Op (Result (Option Bytes))
  storage_get key = ask (λ l. host.get l key) (Event.got key)

  unfoldable pub storage_put : Bytes → Bytes → Op (Option Error)
  storage_put key value = ask (λ l. host.put l key value) (Event.stored key value)

  unfoldable pub storage_delete : Bytes → Op (Option Error)
  storage_delete key = ask (λ l. host.delete l key) (Event.deleted key)

  unfoldable pub storage_list : Bytes → Op (Result (List Bytes))
  storage_list prefix = ask (λ l. host.list l prefix) (Event.listed prefix)

  unfoldable pub put_wal : WalEntry → Op (Result Bytes)
  put_wal entry = ask (λ l. host.put_wal l entry) (Event.wal_put entry)

  unfoldable pub delete_wal : Bytes → Op (Option Error)
  delete_wal id = ask (λ l. host.delete_wal l id) (Event.wal_deleted id)

  unfoldable pub time_now : Op ℕ
  time_now = ask host.now Event.told_time

  unfoldable pub read_random : ℕ → Op (Result Bytes)
  read_random n = ask (λ l. host.read_random l n) (Event.drew_bytes n)

  unfoldable pub random_below : ℕ → Op (Result ℕ)
  random_below n = ask (λ l. host.random_below l n) (Event.drew_below n)

  unfoldable pub calculate_ttl : ℤ → ℤ → ℤ → ℤ → Op (Result (ℤ × List String))
  calculate_ttl increment ttl max start =
      ask (λ l. host.calculate_ttl l increment ttl max start)
        (Event.calculated_ttl increment ttl max start)

  unfoldable pub new_client : Config → Op (Option Error)
  new_client cfg = ask (λ l. host.new_client l cfg) (Event.client_built cfg)

  -- `GetVersionInfo`, which `GetVersion` calls
  unfoldable pub get_version_info : Config → Op (Result VersionInfo)
  get_version_info c = ask (λ l. host.get_version_info l c) (Event.version_read c)

  unfoldable pub get_permissions : Config → Op (Result PermissionTree)
  get_permissions c = ask (λ l. host.get_permissions l c) (Event.permissions_read c)

  unfoldable pub get_group : Config → Bytes → Op (Option Error)
  get_group c group = ask (λ l. host.get_group l c group) (Event.group_read c group)

  unfoldable pub create_user : Config → CreateUserRequest → Op (Option Error)
  create_user c req = ask (λ l. host.create_user l c req) (Event.user_created c req)

  unfoldable pub get_user : Config → Bytes → Op (Result UserInfo)
  get_user c userid = ask (λ l. host.get_user l c userid) (Event.user_read c userid)

  unfoldable pub create_token : Config → Bytes → Bytes → Op (Result Bytes)
  create_token c userid tokenid =
      ask (λ l. host.create_token l c userid tokenid) (Event.token_created c userid tokenid)

  -- Both implementations of `UpdateUser` validate the request before anything is sent.
  unfoldable pub update_user : Config → UpdateUserRequest → Op (Option Error)
  update_user c req = elim (validate req) [
    | some e ↦ λ s. (some e, s)
    | none ↦ ask (λ l. host.update_user l c req) (Event.user_updated c req)
  ]

  unfoldable pub delete_user : Config → Bytes → Op (Option Error)
  delete_user c userid = ask (λ l. host.delete_user l c userid) (Event.user_deleted c userid)

  unfoldable pub delete_token : Config → Bytes → Bytes → Op (Option Error)
  delete_token c userid tokenid =
      ask (λ l. host.delete_token l c userid tokenid) (Event.token_deleted c userid tokenid)

  unfoldable pub token_exists : Config → Bytes → Bytes → Op (Result Bool)
  token_exists c userid tokenid =
      ask (λ l. host.token_exists l c userid tokenid) (Event.token_sought c userid tokenid)
