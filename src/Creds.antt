-- ===== src/Creds.antt =====
-- path_creds.go: issuing a credential. What the handler only logs is left out.
pub mod Steps
pub mod Handler
pub mod Trace
pub mod Retry
pub mod Settled
pub mod Issue
pub mod Expiry
pub mod Issued
pub mod Planned
pub mod Made
pub mod Success
use Prim.Native.String.{String}
use vault_custom_secrets_eng.Base.{
  ℕ, zero, suc, ◌+◌, ◌-◌, ◌/◌, ◌≤◌, Bool, true, false, not, ◌&&◌, ◌||◌, Option, none, some, List,
  [], ◌∷◌, ◌++◌, Bytes, codes, is_empty, text_eq, ℤ, pos, negsuc, ◌+ℤ◌, leb_ℤ, leb, wrap64,
  if◌then◌else◌,
}
use vault_custom_secrets_eng.Pveapi.Errors.{
  Error, Sentinel, failure, wrap, errors_is, Result, ok, err, conflict, user_not_found,
  unauthenticated, forbidden,
}
use vault_custom_secrets_eng.Pveapi.Types.{CreateUserRequest, UserInfo, VersionInfo}
use vault_custom_secrets_eng.Host.{Host}
use vault_custom_secrets_eng.Host.Data.{Config, Role, WalUser, WalEntry, user}
use vault_custom_secrets_eng.Host.Response.{
  Value, str, int64, Values, Lease, Response, refusal, leased, Outcome,
}
use vault_custom_secrets_eng.Host.Act.{
  Op, Act, Flow, continue, ◌>>=◌, ◌>>◌, pure, return, call, return_if, or_return, or_stop, try,
  check, run, read_random, put_wal, delete_wal, time_now, calculate_ttl, get_version_info,
  create_user, get_user, create_token, delete_user,
}
use vault_custom_secrets_eng.Backend.{get_config, get_client}
use vault_custom_secrets_eng.Userid.{build_user_id}
use vault_custom_secrets_eng.Userid.Suffix.{suffix_of}
use vault_custom_secrets_eng.Roles.{
  get_role, mode_password, password_verified_version, password_verified_repo_id,
}
use vault_custom_secrets_eng.Roles.Ttls.{ttls, capped_max_ttl, nanoseconds}
use vault_custom_secrets_eng.Password.{generate_password}

abbrev pub max_collision_retries : ℕ
max_collision_retries = 5

abbrev pub expire_grace_secs : ℤ
expire_grace_secs = pos 60

abbrev pub lease_token_id : Bytes
lease_token_id = codes "lease"

abbrev pub wal_comment_prefix : Bytes
wal_comment_prefix = codes "vault-wal:"

-- `wrapAdminUnauthenticated`
unfoldable pub wrap_admin_unauthenticated : Error → Error
wrap_admin_unauthenticated e =
    if errors_is e unauthenticated
    then wrap "admin token unauthenticated — check config credentials" e
    else e

-- `containsGroup`
unfoldable pub contains_group : List Bytes → Bytes → Bool
contains_group [] group = false
contains_group (g ∷ groups) group = text_eq g group || contains_group groups group

-- `time.Now().Add(ttl).Unix()`, for a clock in nanoseconds: the quotient is rounded down.
unfoldable pub unix_after : ℕ → ℤ → ℤ
unix_after now (pos d) = pos ((now + d) / nanoseconds)
unix_after now (negsuc d) =
    if leb (suc d) now
    then pos ((now - suc d) / nanoseconds)
    else negsuc ((suc d - now - 1) / nanoseconds)

-- The expiry that is sent to PVE, an `int64`.
unfoldable pub expire_unix : ℕ → ℤ → ℤ
unfolding unix_after
expire_unix now ttl = wrap64 (unix_after now ttl +ℤ expire_grace_secs)

-- The variables `userid`, `walID` and `nonce` of the retry loop.
pub record Attempt : Type 0 where
  pub userid : Bytes
  pub wal_id : Bytes
  pub nonce : Bytes

-- The request of one attempt.
unfoldable pub create_request : Role → ℤ → Bytes → Bytes → Bytes → CreateUserRequest
create_request role expire password userid nonce = record {
  user_id = userid;
  groups = role.group;
  expire = expire;
  enable = true;
  comment = nonce;
  password = password;
}

-- What a failed read-back or token call is reported as.
abbrev pub failed : {A : Type 0} → String → Error → Result A
failed text e = err (wrap_admin_unauthenticated (wrap text e))

abbrev pub refuse : String → Outcome
refuse text = ok (some (refusal text))

-- `ErrUserNotFound` counts as deleted.
unfoldable pub is_gone : Option Error → Bool
is_gone none = true
is_gone (some e) = errors_is e user_not_found
