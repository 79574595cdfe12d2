-- ===== src/Roles/Vetted.antt =====
-- `roleWrite` of path_roles.go stores only roles that are valid and that PVE can serve.
use vault_custom_secrets_eng.Base.{
  ◌≡◌, ◌≢◌, ◌⊎◌, inl, inr, refl, subst, Bool-cases, text_eq_iff, text_eq→eq, Bool, true, false,
  Option, none, some, [], ◌∷◌, ◌++◌, Bytes, codes, arith,
}
use vault_custom_secrets_eng.Pveapi.Errors.{ok, Result-cases}
use vault_custom_secrets_eng.Pveapi.Permissions.{has_privilege}
use vault_custom_secrets_eng.Host.{Host}
use vault_custom_secrets_eng.Host.Data.{Config, Role}
use vault_custom_secrets_eng.Host.Event.{Event, Log}
use vault_custom_secrets_eng.Host.Act.{State, pure, storage_put}
use vault_custom_secrets_eng.Host.Chain.{EndsWith, ends_after, or_stop-chain}
use vault_custom_secrets_eng.Roles.{get_role}
use vault_custom_secrets_eng.Roles.Valid.{IsValidRole, check_role-EndsWith}
use vault_custom_secrets_eng.Roles.Merged.{IsMerge, requested_role-IsMerge}
use vault_custom_secrets_eng.Pveapi.Types.{VersionInfo}
use vault_custom_secrets_eng.Roles.Write.{
  RoleFields, requested_role, with_defaults, check_role, opts_in, is_verified, check_cluster,
  check_build, role_client, store_role, written, write_with, write_role, role_write,
}

-- The newest call found the group.
abbrev pub FoundGroup : Role → Log → Type 0
FoundGroup role (Event.group_read c group none ∷ l) = group ≡ role.group
FoundGroup role _ = ⊥

-- The newest call read permissions with both privileges, right after the group was found.
abbrev pub IsServed : Role → Log → Type 0
IsServed role (Event.permissions_read c (ok tree) ∷ l) =
    (has_privilege tree (codes "/access/realm/" ++ role.realm) (codes "Realm.AllocateUser") ≡ true)
    × (has_privilege tree (codes "/access/groups/" ++ role.group) (codes "User.Modify") ≡ true)
    × FoundGroup role l
IsServed role _ = ⊥

-- The stored role is a password role.
abbrev pub HadPassword : Option Role → Type 0
HadPassword none = ⊥
HadPassword (some role) = role.mode ≡ codes "password"

-- The newest call read the version of the verified build, right after PVE showed the group and the
-- privileges.
abbrev pub IsVerified : Role → Log → Type 0
IsVerified role (Event.version_read c (ok version) ∷ l) =
    (version.version ≡ codes "9.2.14")
    × (version.repo_id ≡ codes "a1480fa6b8d899cb")
    × IsServed role l
IsVerified role _ = ⊥

-- The same, for a write that opts into passwords right after PVE has named the verified build.
abbrev WasServed : Bool → Role → Log → Type 0
WasServed false role l = IsServed role l
WasServed true role l = IsVerified role l

is_verified_lem :
    (version : VersionInfo)
    → is_verified version ≡ true
    → (version.version ≡ codes "9.2.14") × (version.repo_id ≡ codes "a1480fa6b8d899cb")
unfolding is_verified
is_verified_lem version h = ground (
  arith,
  text_eq→eq version.version (codes "9.2.14"),
  text_eq→eq version.repo_id (codes "a1480fa6b8d899cb"),
)

-- Everything that is stored is a merge of the request under the role's name, valid, right after PVE
-- was asked, for the build too where the write makes a password role of one that was none.
abbrev pub StoresValid : Host → Bytes → RoleFields → Option Role → Log → Type 0
StoresValid host name fields existing [] = Unit
StoresValid host name fields existing (Event.stored key value r ∷ l) =
    (role : Role) × ((key ≡ codes "roles/" ++ name)
      × (host.encode_role role ≡ ok value)
      × IsMerge fields existing role
      × IsValidRole name role
      × ((((role.mode ≢ codes "password") ⊎ HadPassword existing) × IsServed role l)
          ⊎ IsVerified role l)
      × StoresValid host name fields existing l)
StoresValid host name fields existing (_ ∷ l) = StoresValid host name fields existing l

not_opting :
    (role : Role) (existing : Option Role)
    → opts_in role existing ≡ false
    → (role.mode ≢ codes "password") ⊎ HadPassword existing
unfolding opts_in
not_opting role none e = ground (arith, text_eq_iff role.mode (codes "password"))
not_opting role (some old) e =
    ground
      (arith, text_eq_iff role.mode (codes "password"), text_eq_iff old.mode (codes "password"))

was_served_lem :
    (role : Role) (existing : Option Role) (l : Log)
    → WasServed (opts_in role existing) role l
    → (((role.mode ≢ codes "password") ⊎ HadPassword existing) × IsServed role l)
      ⊎ IsVerified role l
was_served_lem role existing l h = elim (Bool-cases (opts_in role existing)) [
  | inl opting ↦ inr (subst (λ b. WasServed b role l) opting h)
  | inr kept ↦ inl (not_opting role existing kept, subst (λ b. WasServed b role l) kept h)
]

module _ (host : Host) (name : Bytes) (fields : RoleFields) (existing : Option Role) where
  abbrev Stores : State → Type 0
  Stores s = StoresValid host name fields existing s.log

  role_client-EndsWith :
      (s : State) → Stores s → EndsWith (λ (c : Config) s'. Stores s') Stores (role_client host s)
  unfolding role_client
  role_client-EndsWith s h = ground arith

  check_cluster-EndsWith :
      (role : Role) (client : Config) (s : State)
      → Stores s
      → EndsWith
          (λ (u : Unit) s'. IsServed role s'.log × Stores s')
          Stores
          (check_cluster host client role s)
  unfolding check_cluster
  check_cluster-EndsWith role client s h = ground arith

  check_build-EndsWith :
      (role : Role) (opting : Bool) (client : Config) (s : State)
      → IsServed role s.log
      → Stores s
      → EndsWith
          (λ (u : Unit) s'. WasServed opting role s'.log × Stores s')
          Stores
          (check_build host client opting s)
  unfolding check_build
  check_build-EndsWith role false client s served h = (served, h)
  check_build-EndsWith role true client s served h = grind (arith, is_verified_lem)

  store_role-StoresValid :
      (role : Role) (s : State)
      → IsMerge fields existing role
      → IsValidRole name role
      → WasServed (opts_in role existing) role s.log
      → Stores s
      → Stores (store_role host name role s).1
  unfolding store_role
  store_role-StoresValid role s merged valid was h = elim (Result-cases (host.encode_role role)) [
    | inl (value, encoded) ↦
        let after = (storage_put host (codes "roles/" ++ name) value s).1 in
        let stored : Stores after =
          (role, (refl, encoded, merged, valid, was_served_lem role existing s.log was, h)) in
        rw encoded (
          or_stop-chain Stores (host.put s.log (codes "roles/" ++ name) value) _
            (λ u. pure (written role)) after stored stored)
    | inr (e, failed) ↦ rw failed h
  ]

  write_with-StoresValid :
      (role : Role) (client : Config) (s : State)
      → IsMerge fields existing role
      → IsValidRole name role
      → Stores s
      → Stores (write_with host name role (opts_in role existing) client s).1
  unfolding write_with
  write_with-StoresValid role client s merged valid h =
      let opting : Bool = opts_in role existing in
      ends_after (λ (u : Unit) s'. IsServed role s'.log × Stores s') Stores
        (check_cluster host client role s) _ (check_cluster-EndsWith role client s h)
        λ u s1 (served, h1).
          ends_after (λ (u' : Unit) s'. WasServed opting role s'.log × Stores s') Stores
            (check_build host client opting s1) _
            (check_build-EndsWith role opting client s1 served h1)
            λ u' s2 (was, h2). store_role-StoresValid role s2 merged valid was h2

  write_role-StoresValid :
      (role : Role) (s : State)
      → IsMerge fields existing role
      → Stores s
      → Stores (write_role host name role (opts_in role existing) s).1
  unfolding write_role
  write_role-StoresValid role s merged h =
      ends_after (λ (u : Unit) s'. IsValidRole name role × Stores s') Stores
        (check_role name role s) _ (check_role-EndsWith Stores name role s h)
        λ u s1 (valid, h1).
          ends_after (λ (c : Config) s'. Stores s') Stores (role_client host s1) _
            (role_client-EndsWith s1 h1)
            λ client s2 h2. write_with-StoresValid role client s2 merged valid h2

  get_role-StoresValid : (s : State) → Stores s → Stores (get_role host name s).1
  unfolding get_role
  get_role-StoresValid s h = ground arith

-- From an empty log, and where the stored role can be read: a write of a role stores nothing but,
-- under its name, a role whose every field is that of the request, else that of the stored role,
-- else the default (which also stands for an empty prefix, realm or mode). That role is valid, and
-- right before PVE has shown its group and both privileges, and also the verified build where the
-- role has the mode "password" and the stored one has not.
pub role_write-StoresValid :
    (host : Host) (name : Bytes) (fields : RoleFields) (existing : Option Role) (s : State)
    → s.log ≡ []
    → (get_role host name s).0 ≡ ok existing
    → StoresValid host name fields existing (role_write host name fields s).1.log
unfolding role_write
role_write-StoresValid host name fields existing s fresh e = rw e (
    write_role-StoresValid host name fields existing
      (with_defaults (requested_role fields existing)) (get_role host name s).1
      (requested_role-IsMerge fields existing)
      (get_role-StoresValid host name fields existing s (rw fresh tt)))
