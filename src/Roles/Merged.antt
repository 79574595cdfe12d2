-- ===== src/Roles/Merged.antt =====
-- `roleWrite` of path_roles.go merges the request with the stored role and the defaults.
use vault_custom_secrets_eng.Base.{
  ◌≡◌, ◌≢◌, ◌⊎◌, refl, Option, none, some, [], Bytes, codes, is_empty, pos, if◌then◌else◌, arith,
}
use vault_custom_secrets_eng.Host.Data.{Role}
use vault_custom_secrets_eng.Roles.Write.{RoleFields, resolve, requested_role, with_defaults}

-- The value of the request, else that of the stored role, else the default.
abbrev pub IsChosen : {A : Type 0} → Option A → (Role → A) → Option Role → A → A → Type 0
IsChosen (some v) field existing default x = x ≡ v
IsChosen none field (some role) default x = x ≡ field role
IsChosen none field none default x = x ≡ default

-- The same, where the default also takes the place of the empty text.
abbrev pub IsFilled : Option Bytes → (Role → Bytes) → Option Role → Bytes → Bytes → Type 0
IsFilled v field existing default x =
    (chosen : Bytes) × (IsChosen v field existing default chosen
      × (((chosen ≢ []) × (x ≡ chosen)) ⊎ ((chosen ≡ []) × (x ≡ default))))

-- The role is the request, completed by the stored role and the defaults.
pub record IsMerge (fields : RoleFields) (existing : Option Role) (role : Role) : Type 0 where
  pub group : IsChosen fields.group (λ r. r.group) existing [] role.group
  pub prefix :
      IsFilled fields.user_prefix (λ r. r.user_prefix) existing (codes "vault") role.user_prefix
  pub realm : IsFilled fields.realm (λ r. r.realm) existing (codes "pve") role.realm
  pub ttl : IsChosen fields.ttl (λ r. r.ttl) existing (pos 0) role.ttl
  pub max_ttl : IsChosen fields.max_ttl (λ r. r.max_ttl) existing (pos 0) role.max_ttl
  pub mode : IsFilled fields.mode (λ r. r.mode) existing (codes "token") role.mode

resolve-IsChosen :
    {A : Type 0} (v : Option A) (field : Role → A) (existing : Option Role) (default : A)
    → IsChosen v field existing default (resolve v field existing default)
unfolding resolve
resolve-IsChosen (some v) field existing default = refl
resolve-IsChosen none field (some role) default = refl
resolve-IsChosen none field none default = refl

filled_lem :
    (v : Option Bytes) (field : Role → Bytes) (existing : Option Role) (default : Bytes)
    → let chosen = resolve v field existing default in
      IsFilled v field existing default (if is_empty chosen then default else chosen)
filled_lem v field existing default =
    (resolve v field existing default, (resolve-IsChosen v field existing default, ground arith))

pub requested_role-IsMerge :
    (fields : RoleFields) (existing : Option Role)
    → IsMerge fields existing (with_defaults (requested_role fields existing))
unfolding with_defaults requested_role
requested_role-IsMerge fields existing = record {
  group = resolve-IsChosen fields.group (λ r. r.group) existing [];
  prefix = filled_lem fields.user_prefix (λ r. r.user_prefix) existing (codes "vault");
  realm = filled_lem fields.realm (λ r. r.realm) existing (codes "pve");
  ttl = resolve-IsChosen fields.ttl (λ r. r.ttl) existing (pos 0);
  max_ttl = resolve-IsChosen fields.max_ttl (λ r. r.max_ttl) existing (pos 0);
  mode = filled_lem fields.mode (λ r. r.mode) existing (codes "token");
}
