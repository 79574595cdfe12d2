-- ===== src/Pveapi/Wire.antt =====
-- What stands under internal/pveapi/client.go: net/http, net/url, crypto/x509 and encoding/json as
-- parameters, and the exchanges with the server as a log, the newest first.
use vault_custom_secrets_eng.Base.{ℕ, ℤ, Bool, Option, none, some, List, Bytes}
use vault_custom_secrets_eng.Pveapi.Errors.{Error, wrap, Result, ok, err}
use vault_custom_secrets_eng.Pveapi.Types.{VersionInfo}
use vault_custom_secrets_eng.Pveapi.Permissions.{PermissionTree}
use vault_custom_secrets_eng.Pveapi.Groups.{RawGroups}
use vault_custom_secrets_eng.Pveapi.Classify.{ErrorBody}
use Prim.Native.String.{String}

-- `url.Values`: each key is set once.
abbrev pub Form : Type 0
Form = List (Bytes × Bytes)

-- A request; `Content-Type` is set exactly where there is a form.
pub record Request : Type 0 where
  pub method : Bytes
  pub url : Bytes
  pub authorization : Bytes
  pub form : Option Form

-- The answer: its status, the bytes of its body, and the error that reading on behind them meets.
pub record Reply : Type 0 where
  pub status : ℕ
  pub body : Bytes
  pub broken : Option Error

-- `userResponse`, with the groups still to be decoded.
pub record UserData : Type 0 where
  pub groups : RawGroups
  pub enable : ℤ
  pub expire : ℤ
  pub comment : Bytes

abbrev pub Exchange : Type 0
Exchange = Request × Result Reply

abbrev pub Trace : Type 0
Trace = List Exchange

pub record Wire : Type 0 where
  -- `url.Parse(address).Scheme`, `pool.AppendCertsFromPEM` and `url.PathEscape`
  pub scheme : Bytes → Result Bytes
  pub has_certs : Bytes → Bool
  pub path_escape : Bytes → Bytes
  -- the check of method and URL in `http.NewRequestWithContext`, and `http.Client.Do`
  pub new_request : Bytes → Bytes → Option Error
  pub send : Trace → Request → Result Reply
  -- `json.Unmarshal` into the response types
  pub parse_error : Bytes → Option ErrorBody
  pub parse_version : Bytes → Result VersionInfo
  pub parse_permissions : Bytes → Result PermissionTree
  pub parse_user : Bytes → Result UserData
  pub parse_token : Bytes → Result Bytes
  pub parse_tokens : Bytes → Result (List Bytes)

-- A method of the client.
abbrev pub Call : Type 0 → Type 0
Call A = Trace → Result A × Trace

module _ {A B : Type 0} where
  abbrev pub proceed : Result A → (A → Call B) → Call B
  proceed (ok a) f t = f a t
  proceed (err e) f t = (err e, t)

  -- `a, err := m(); if err != nil { return err }`
  infixl 5 ◌>>=◌
  abbrev pub ◌>>=◌ : Call A → (A → Call B) → Call B
  ◌>>=◌ m f t = let (r, t') = m t in proceed r f t'

module _ {A : Type 0} where
  abbrev pub lift : Result A → Call A
  lift r t = (r, t)

  abbrev pub in_context : String → Result A → Result A
  in_context text (ok a) = ok a
  in_context text (err e) = err (wrap text e)

  -- An error is wrapped with a text.
  abbrev pub named : String → Call A → Call A
  named text m t = let (r, t') = m t in (in_context text r, t')

-- A call that tells only whether it failed.
abbrev pub failure_of : {A : Type 0} → Result A → Option Error
failure_of (ok a) = none
failure_of (err e) = some e
