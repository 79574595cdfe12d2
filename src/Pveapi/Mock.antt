-- ===== src/Pveapi/Mock.antt =====
-- internal/pveapi/mock.go: the client that the tests put in the place of the HTTP client.
pub mod Directory
pub mod Plain
pub mod Refine
use Prim.Native.String.{String}
use vault_custom_secrets_eng.Base.{
  ℕ, Bool, true, false, ◌&&◌, Option, none, some, List, [], ◌∷◌, ◌++◌, Bytes, codes, is_empty,
  lookup, insert, text_eq, ℤ, pos, if◌then◌else◌,
}
use vault_custom_secrets_eng.Unicode.{trim_space}
use vault_custom_secrets_eng.Pveapi.Errors.{
  Error, sentinel, wrap, Result, ok, err, user_not_found, group_not_found,
}
use vault_custom_secrets_eng.Pveapi.Types.{
  CreateUserRequest, UpdateUserRequest, UserInfo, VersionInfo, validate,
}
use vault_custom_secrets_eng.Pveapi.Permissions.{PermissionTree}
use vault_custom_secrets_eng.Pveapi.Groups.{split_on, split_group_csv}
use vault_custom_secrets_eng.Creds.Trace.{without}

pub data Argument : Type 0 where
  text : Bytes → Argument
  create : CreateUserRequest → Argument
  update : UpdateUserRequest → Argument

-- `Call`
pub record MockCall : Type 0 where
  pub method : Bytes
  pub args : List Argument

-- `MockClient`: `none` stands for a nil map, function, error or pointer. An override answers by its
-- arguments alone.
pub record MockClient : Type 0 where
  pub call_log : List MockCall
  pub groups : Option (List (Bytes × Bool))
  pub users : Option (List (Bytes × UserInfo))
  pub get_version_fn : Option (Result Bytes)
  pub get_version_info_fn : Option (Result VersionInfo)
  pub get_permissions_fn : Option (Result PermissionTree)
  pub get_group_fn : Option (Bytes → Option Error)
  pub create_user_fn : Option (CreateUserRequest → Option Error)
  pub get_user_fn : Option (Bytes → Result UserInfo)
  pub create_token_fn : Option (Bytes → Bytes → Result Bytes)
  pub update_user_fn : Option (UpdateUserRequest → Option Error)
  pub delete_user_fn : Option (Bytes → Option Error)
  pub delete_token_fn : Option (Bytes → Bytes → Option Error)
  pub token_exists_fn : Option (Bytes → Bytes → Result Bool)
  pub create_user_error : Option Error
  pub get_user_error : Option Error
  pub create_token_error : Option Error
  pub delete_user_error : Option Error
  pub delete_token_error : Option Error
  pub token_exists_result : Option Bool
  pub get_permissions_result : Option PermissionTree
  pub create_token_result : Bytes

-- A method: its answer, and the client after it.
abbrev pub Method : Type 0 → Type 0
Method A = MockClient → A × MockClient

-- `log`
unfoldable pub log : Bytes → List Argument → MockClient → MockClient
log method args m = record m {
  call_log = m.call_log ++ record { method = method; args = args } ∷ [];
}

-- The loop of `HasCall`.
unfoldable pub has_call_in : List MockCall → Bytes → Bool
has_call_in [] method = false
has_call_in (c ∷ calls) method =
    let rest = has_call_in calls method in if text_eq c.method method then true else rest

-- `HasCall`
unfoldable pub has_call : MockClient → Bytes → Bool
unfolding has_call_in
has_call m method = has_call_in m.call_log method

-- The loop of `CallsFor`.
unfoldable pub calls_in : List MockCall → Bytes → List MockCall
calls_in [] method = []
calls_in (c ∷ calls) method =
    let rest = calls_in calls method in if text_eq c.method method then c ∷ rest else rest

-- `CallsFor`
unfoldable pub calls_for : MockClient → Bytes → List MockCall
unfolding calls_in
calls_for m method = calls_in m.call_log method

-- The first argument, where it is a string.
unfoldable pub userid_of : List Argument → List Bytes
userid_of (text userid ∷ args) = userid ∷ []
userid_of _ = []

-- The loop of `DeleteUserCalls`.
unfoldable pub deleted_in : List MockCall → List Bytes
unfolding userid_of
deleted_in [] = []
deleted_in (c ∷ calls) =
    let rest = deleted_in calls in
    if text_eq c.method (codes "DeleteUser") then userid_of c.args ++ rest else rest

-- `DeleteUserCalls`
unfoldable pub delete_user_calls : MockClient → List Bytes
unfolding deleted_in
delete_user_calls m = deleted_in m.call_log

abbrev default_version : VersionInfo
default_version = record { version = codes "9.2.10"; repo_id = codes "43df2e01f27a1a19" }

abbrev default_permissions : PermissionTree
default_permissions =
    (codes "/access/groups", (codes "User.Modify", pos 1) ∷ (codes "Sys.Audit", pos 1) ∷ []) ∷ []

abbrev version_of : Result VersionInfo → Result Bytes
version_of (ok info) = ok info.version
version_of (err e) = err e

-- `GetVersionInfo`
unfoldable pub get_version_info : Method (Result VersionInfo)
unfolding log
get_version_info m = (
  elim m.get_version_info_fn [ some answer ↦ answer | none ↦ ok default_version ],
  log (codes "GetVersionInfo") [] m,
)

-- `GetVersion`
unfoldable pub get_version : Method (Result Bytes)
unfolding log get_version_info
get_version m =
    let m1 = log (codes "GetVersion") [] m in
    elim m.get_version_fn [
      | some answer ↦ (answer, m1)
      | none ↦ let (info, m2) = get_version_info m1 in (version_of info, m2)
    ]

-- `GetPermissions`
unfoldable pub get_permissions : Method (Result PermissionTree)
unfolding log
get_permissions m = (
  elim m.get_permissions_fn [
    | some answer ↦ answer
    | none ↦ elim m.get_permissions_result [ some tree ↦ ok tree | none ↦ ok default_permissions ]
  ],
  log (codes "GetPermissions") [] m,
)

-- `m.Groups[group]`
unfoldable pub is_known : List (Bytes × Bool) → Bytes → Bool
unfolding lookup
is_known groups group = elim (lookup group groups) [ some b ↦ b | none ↦ false ]

-- Whether a group may be used: any, where there is no map of groups.
unfoldable pub is_allowed : Option (List (Bytes × Bool)) → Bytes → Bool
unfolding is_known
is_allowed none group = true
is_allowed (some groups) group = is_known groups group

-- `GetGroup`
unfoldable pub get_group : Bytes → Method (Option Error)
unfolding log is_allowed
get_group group m = (
  elim m.get_group_fn [
    | some answer ↦ answer group
    | none ↦
        if is_allowed m.groups group
        then none
        else some (wrap "pveapi: GetGroup" (sentinel group_not_found))
  ],
  log (codes "GetGroup") (text group ∷ []) m,
)

abbrev add_group : Bytes → Result (List Bytes) → Result (List Bytes)
add_group g (ok groups) = ok (g ∷ groups)
add_group g (err e) = err e

-- The loop over the parts of the CSV in `CreateUser`.
unfoldable pub known_groups : Option (List (Bytes × Bool)) → List Bytes → Result (List Bytes)
unfolding is_allowed
known_groups allowed [] = ok []
known_groups allowed (g ∷ parts) =
    let rest = known_groups allowed parts in
    if is_empty (trim_space g)
    then rest
    else if is_allowed allowed (trim_space g)
    then add_group (trim_space g) rest
    else err (wrap "pveapi: CreateUser: group" (sentinel group_not_found))

-- The groups of a new user; none for the empty CSV.
unfoldable pub requested_groups : Option (List (Bytes × Bool)) → Bytes → Result (List Bytes)
unfolding known_groups
requested_groups allowed [] = ok []
requested_groups allowed (b ∷ s) = known_groups allowed (split_on b',' (b ∷ s))

-- The map of users, made where it is nil.
unfoldable pub users_of : MockClient → List (Bytes × UserInfo)
users_of m = elim m.users [ some users ↦ users | none ↦ [] ]

-- The default of `CreateUser`, with the groups.
unfoldable pub add_user : CreateUserRequest → Result (List Bytes) → Method (Option Error)
unfolding users_of insert
add_user req (err e) m = (some e, record m { users = some (users_of m) })
add_user req (ok groups) m = (
  none,
  record m {
    users = some (
        insert req.user_id
          (record {
            groups = groups;
            enable = req.enable;
            expire = req.expire;
            comment = req.comment;
          })
          (users_of m));
  },
)

-- `CreateUser`
unfoldable pub create_user : CreateUserRequest → Method (Option Error)
unfolding log add_user requested_groups
create_user req m =
    let m1 = log (codes "CreateUser") (create req ∷ []) m in
    elim m.create_user_fn [
      | some answer ↦ (answer req, m1)
      | none ↦ elim m.create_user_error [
        | some e ↦ (some e, m1)
        | none ↦ add_user req (requested_groups m.groups req.groups) m1
      ]
    ]

-- The look-up in the map of users.
unfoldable pub find_user : String → Option (List (Bytes × UserInfo)) → Bytes → Result UserInfo
unfolding lookup
find_user context none userid = err (wrap context (sentinel user_not_found))
find_user context (some users) userid = elim (lookup userid users) [
  | some info ↦ ok info
  | none ↦ err (wrap context (sentinel user_not_found))
]

-- `GetUser`
unfoldable pub get_user : Bytes → Method (Result UserInfo)
unfolding log find_user
get_user userid m = (
  elim m.get_user_fn [
    | some answer ↦ answer userid
    | none ↦ elim m.get_user_error [
      | some e ↦ err e
      | none ↦ find_user "pveapi: GetUser" m.users userid
    ]
  ],
  log (codes "GetUser") (text userid ∷ []) m,
)

abbrev secret_or_default : Bytes → Bytes
secret_or_default [] = codes "mock-token-secret"
secret_or_default (b ∷ s) = b ∷ s

-- `CreateToken`
unfoldable pub create_token : Bytes → Bytes → Method (Result Bytes)
unfolding log
create_token userid tokenid m = (
  elim m.create_token_fn [
    | some answer ↦ answer userid tokenid
    | none ↦ elim m.create_token_error [
      | some e ↦ err e
      | none ↦ ok (secret_or_default m.create_token_result)
    ]
  ],
  log (codes "CreateToken") (text userid ∷ text tokenid ∷ []) m,
)

-- The user after an update: its groups are replaced.
unfoldable pub updated_user : UpdateUserRequest → UserInfo → UserInfo
unfolding split_group_csv
updated_user req info = record info {
  expire = req.expire;
  enable = req.enable;
  groups = split_group_csv req.groups;
}

-- The default of `UpdateUser`, with the user as it was found.
unfoldable pub store_update : UpdateUserRequest → Result UserInfo → Method (Option Error)
unfolding updated_user users_of insert
store_update req (err e) m = (some e, m)
store_update req (ok info) m =
    (none, record m { users = some (insert req.user_id (updated_user req info) (users_of m)) })

-- What follows the validation in `UpdateUser`.
unfoldable pub update_valid : UpdateUserRequest → Option Error → Method (Option Error)
unfolding log store_update find_user
update_valid req (some e) m = (some e, m)
update_valid req none m =
    let m1 = log (codes "UpdateUser") (update req ∷ []) m in
    elim m.update_user_fn [
      | some answer ↦ (answer req, m1)
      | none ↦ store_update req (find_user "pveapi: UpdateUser" m.users req.user_id) m1
    ]

-- `UpdateUser`
unfoldable pub update_user : UpdateUserRequest → Method (Option Error)
unfolding update_valid
update_user req = update_valid req (validate req)

-- The default of `DeleteUser`, with the map of users.
unfoldable pub remove_user : Bytes → Option (List (Bytes × UserInfo)) → Method (Option Error)
unfolding lookup without
remove_user userid none m = (none, m)
remove_user userid (some users) m = elim (lookup userid users) [
  | none ↦ (some (wrap "pveapi: DeleteUser" (sentinel user_not_found)), m)
  | some info ↦ (none, record m { users = some (without userid users) })
]

-- `DeleteUser`
unfoldable pub delete_user : Bytes → Method (Option Error)
unfolding log remove_user
delete_user userid m =
    let m1 = log (codes "DeleteUser") (text userid ∷ []) m in
    elim m.delete_user_fn [
      | some answer ↦ (answer userid, m1)
      | none ↦ elim m.delete_user_error [
        | some e ↦ (some e, m1)
        | none ↦ remove_user userid m.users m1
      ]
    ]

-- `DeleteToken`
unfoldable pub delete_token : Bytes → Bytes → Method (Option Error)
unfolding log
delete_token userid tokenid m = (
  elim m.delete_token_fn [ some answer ↦ answer userid tokenid | none ↦ m.delete_token_error ],
  log (codes "DeleteToken") (text userid ∷ text tokenid ∷ []) m,
)

-- `TokenExists`
unfoldable pub token_exists : Bytes → Bytes → Method (Result Bool)
unfolding log
token_exists userid tokenid m = (
  elim m.token_exists_fn [
    | some answer ↦ answer userid tokenid
    | none ↦ elim m.token_exists_result [ none ↦ ok true | some b ↦ ok b ]
  ],
  log (codes "TokenExists") (text userid ∷ text tokenid ∷ []) m,
)
