-- ===== src/Pveapi/Mock/Plain.antt =====
-- internal/pveapi/mock.go: the map of users of a mock that overrides no call on users.
use mathlib.Core.Path.{fun_ext}
use Prim.Native.String.{String}
use vault_custom_secrets_eng.Base.{
  ◌≡◌, refl, Bool, Option, none, some, List, [], ◌∷◌, Bytes, lookup, insert, lookup-insert, text_eq,
  text_eq_iff, if◌then◌else◌, arith,
}
use vault_custom_secrets_eng.Pveapi.Errors.{
  sentinel, wrap, Result, ok, err, user_not_found, group_not_found,
}
use vault_custom_secrets_eng.Pveapi.Types.{UserInfo}
use vault_custom_secrets_eng.Pveapi.Groups.{split_on, split_group_csv, normalize_groups}
use vault_custom_secrets_eng.Creds.Trace.{without}
use vault_custom_secrets_eng.Pveapi.Mock.{
  MockClient, Argument, log, is_allowed, known_groups, requested_groups, users_of, find_user,
}
use vault_custom_secrets_eng.Pveapi.Mock.Directory.{Users, Known, put, remove, all_known}

lookup-without :
    {V : Type 0} (k j : Bytes) (m : List (Bytes × V))
    → lookup j (without k m) ≡ (if text_eq k j then none else lookup j m)
unfolding lookup without
lookup-without k j [] = ground arith
lookup-without k j ((i, v) ∷ m) =
    ground (arith, text_eq_iff k j, text_eq_iff i k, text_eq_iff i j, lookup-without k j m)

-- The groups of a creation are those of the CSV, where all of them exist.
unfoldable pub checked : Option (List (Bytes × Bool)) → List Bytes → Result (List Bytes)
checked allowed groups =
    if all_known (is_allowed allowed) groups
    then ok groups
    else err (wrap "pveapi: CreateUser: group" (sentinel group_not_found))

known_groups_lem :
    (allowed : Option (List (Bytes × Bool))) (parts : List Bytes)
    → known_groups allowed parts ≡ checked allowed (normalize_groups parts)
unfolding known_groups normalize_groups all_known checked
known_groups_lem allowed [] = refl
known_groups_lem allowed (g ∷ parts) = ground (arith, known_groups_lem allowed parts)

pub requested_groups_lem :
    (allowed : Option (List (Bytes × Bool))) (csv : Bytes)
    → requested_groups allowed csv ≡ checked allowed (split_group_csv csv)
unfolding requested_groups split_group_csv all_known checked
requested_groups_lem allowed [] = refl
requested_groups_lem allowed (b ∷ csv) = known_groups_lem allowed (split_on b',' (b ∷ csv))

-- The mock has a map of users, and no override or injected error for the calls on users.
pub record IsPlain (m : MockClient) : Type 0 where
  pub users : List (Bytes × UserInfo)
  pub stocked : m.users ≡ some users
  pub plain_create : m.create_user_fn ≡ none
  pub plain_get : m.get_user_fn ≡ none
  pub plain_update : m.update_user_fn ≡ none
  pub plain_delete : m.delete_user_fn ≡ none
  pub creates_well : m.create_user_error ≡ none
  pub gets_well : m.get_user_error ≡ none
  pub deletes_well : m.delete_user_error ≡ none

-- The directory that the mock stands for, and the groups that it knows.
abbrev pub contents : MockClient → Users
contents m userid = lookup userid (users_of m)

abbrev pub groups_of : MockClient → Known
groups_of m = is_allowed m.groups

pub log-IsPlain :
    (method : Bytes) (args : List Argument) (m : MockClient)
    → IsPlain m
    → IsPlain (log method args m)
unfolding log
log-IsPlain method args m p = record {
  users = p.users;
  stocked = p.stocked;
  plain_create = p.plain_create;
  plain_get = p.plain_get;
  plain_update = p.plain_update;
  plain_delete = p.plain_delete;
  creates_well = p.creates_well;
  gets_well = p.gets_well;
  deletes_well = p.deletes_well;
}

abbrev pub with_users : List (Bytes × UserInfo) → MockClient → MockClient
with_users users m = record m { users = some users }

pub with_users-IsPlain :
    (users : List (Bytes × UserInfo)) (m : MockClient) → IsPlain m → IsPlain (with_users users m)
with_users-IsPlain users m p = record {
  users = users;
  stocked = refl;
  plain_create = p.plain_create;
  plain_get = p.plain_get;
  plain_update = p.plain_update;
  plain_delete = p.plain_delete;
  creates_well = p.creates_well;
  gets_well = p.gets_well;
  deletes_well = p.deletes_well;
}

pub contents-insert :
    (k : Bytes) (v : UserInfo) (m : MockClient)
    → contents (with_users (insert k v (users_of m)) m) ≡ put k v (contents m)
unfolding put users_of
contents-insert k v m = fun_ext (λ j. lookup-insert k j v (users_of m))

pub contents-without :
    (k : Bytes) (m : MockClient)
    → contents (with_users (without k (users_of m)) m) ≡ remove k (contents m)
unfolding remove users_of
contents-without k m = fun_ext (λ j. lookup-without k j (users_of m))

abbrev pub found_as : String → Option UserInfo → Result UserInfo
found_as context none = err (wrap context (sentinel user_not_found))
found_as context (some info) = ok info

pub find_default :
    (context : String) (m : MockClient) (userid : Bytes)
    → IsPlain m
    → find_user context m.users userid ≡ found_as context (contents m userid)
unfolding find_user users_of
find_default context m userid p = ground (arith, p.stocked)
