-- ===== src/Rotation/Validated.antt =====
-- `validateReplacement` of path_rotate_root.go: what a replacement has shown that it accepts.
use vault_custom_secrets_eng.Base.{◌≡◌, true, Option, none, some, List, [], ◌∷◌, ◌++◌, Bytes, codes}
use vault_custom_secrets_eng.Pveapi.Errors.{Error, ok}
use vault_custom_secrets_eng.Pveapi.Types.{VersionInfo}
use vault_custom_secrets_eng.Pveapi.Permissions.{PermissionTree, has_privilege}
use vault_custom_secrets_eng.Host.{Host}
use vault_custom_secrets_eng.Host.Data.{Config, Role}
use vault_custom_secrets_eng.Host.Event.{Event, Log}
use vault_custom_secrets_eng.Host.Act.{State}

-- A role is gone, or its realm is one in which the token may make users.
abbrev pub RealmAllowed : Host → PermissionTree → Option Bytes → Type 0
RealmAllowed host tree none = Unit
RealmAllowed host tree (some value) =
    (role : Role) × (host.decode_role value ≡ ok role)
    × (has_privilege tree (codes "/access/realm/" ++ role.realm) (codes "Realm.AllocateUser")
        ≡ true)

-- From one log to another, every role of the list was read, one after the other, and allowed.
abbrev pub RealmsAllowed : Host → PermissionTree → List Bytes → Log → Log → Type 0
RealmsAllowed host tree [] before after = after ≡ before
RealmsAllowed host tree (name ∷ names) before after =
    (entry : Option Bytes) × RealmAllowed host tree entry
    × RealmsAllowed host tree names (Event.got (codes "roles/" ++ name) (ok entry) ∷ before) after

-- The replacement reached PVE, listed the old token, holds both privileges at the groups, and may
-- make users in the realm of every stored role; nothing else was done.
pub record HasShown (host : Host) (cfg : Config) (user token : Bytes) (before after : Log)
    : Type 0 where
  pub version : VersionInfo
  pub tree : PermissionTree
  pub names : List Bytes
  pub modifies : has_privilege tree (codes "/access/groups") (codes "User.Modify") ≡ true
  pub audits : has_privilege tree (codes "/access/groups") (codes "Sys.Audit") ≡ true
  pub realms :
      RealmsAllowed host tree names
        (Event.listed (codes "roles/") (ok names)
          ∷ Event.permissions_read cfg (ok tree)
          ∷ Event.token_sought cfg user token (ok true)
          ∷ Event.version_read cfg (ok version)
          ∷ before)
        after

-- A validation without an error leaves a log as described.
abbrev pub Shows : (Log → Type 0) → Option Error × State → Type 0
Shows P (none, s) = P s.log
Shows P (some e, s) = Unit
