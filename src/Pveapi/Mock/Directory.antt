-- ===== src/Pveapi/Mock/Directory.antt =====
-- What the mock of internal/pveapi/mock.go stands for: the directory of users of a PVE host, as a
-- function from userids, with the calls that read and change it.
use vault_custom_secrets_eng.Base.{
  Bool, true, ◌&&◌, Option, none, some, List, [], ◌∷◌, Bytes, text_eq, if◌then◌else◌,
}
use vault_custom_secrets_eng.Pveapi.Errors.{
  Error, sentinel, wrap, Result, ok, err, user_not_found, group_not_found,
}
use vault_custom_secrets_eng.Pveapi.Types.{CreateUserRequest, UpdateUserRequest, UserInfo, validate}
use vault_custom_secrets_eng.Pveapi.Groups.{split_group_csv}

-- The users of a host.
abbrev pub Users : Type 0
Users = Bytes → Option UserInfo

-- Which groups exist.
abbrev pub Known : Type 0
Known = Bytes → Bool

pub data Op : Type 0 where
  creates : CreateUserRequest → Op
  reads : Bytes → Op
  updates : UpdateUserRequest → Op
  deletes : Bytes → Op

pub data Answer : Type 0 where
  done : Option Error → Answer
  found : Result UserInfo → Answer

unfoldable pub put : Bytes → UserInfo → Users → Users
put userid info users j = if text_eq userid j then some info else users j

unfoldable pub remove : Bytes → Users → Users
remove userid users j = if text_eq userid j then none else users j

unfoldable pub all_known : Known → List Bytes → Bool
all_known known [] = true
all_known known (g ∷ groups) = known g && all_known known groups

unfoldable pub new_user : CreateUserRequest → UserInfo
new_user req = record {
  groups = split_group_csv req.groups;
  enable = req.enable;
  expire = req.expire;
  comment = req.comment;
}

unfoldable pub changed_user : UpdateUserRequest → UserInfo → UserInfo
changed_user req info = record {
  groups = split_group_csv req.groups;
  enable = req.enable;
  expire = req.expire;
  comment = info.comment;
}

-- A creation with groups that all exist sets the user, whether or not there was one.
unfoldable pub creation : Known → CreateUserRequest → Users → Answer × Users
unfolding put all_known new_user
creation known req users =
    if all_known known (split_group_csv req.groups)
    then (done none, put req.user_id (new_user req) users)
    else (done (some (wrap "pveapi: CreateUser: group" (sentinel group_not_found))), users)

unfoldable pub reading : Option UserInfo → Answer
reading (some info) = found (ok info)
reading none = found (err (wrap "pveapi: GetUser" (sentinel user_not_found)))

unfoldable pub change : UpdateUserRequest → Option UserInfo → Users → Answer × Users
unfolding put changed_user
change req (some info) users = (done none, put req.user_id (changed_user req info) users)
change req none users = (done (some (wrap "pveapi: UpdateUser" (sentinel user_not_found))), users)

unfoldable pub deletion : Bytes → Option UserInfo → Users → Answer × Users
unfolding remove
deletion userid (some info) users = (done none, remove userid users)
deletion userid none users =
    (done (some (wrap "pveapi: DeleteUser" (sentinel user_not_found))), users)

-- A request that fails its validation changes nothing.
unfoldable pub vetted_change : UpdateUserRequest → Option Error → Users → Answer × Users
unfolding change
vetted_change req (some e) users = (done (some e), users)
vetted_change req none users = change req (users req.user_id) users

unfoldable pub step : Known → Op → Users → Answer × Users
unfolding creation reading vetted_change deletion
step known (creates req) users = creation known req users
step known (reads userid) users = (reading (users userid), users)
step known (updates req) users = vetted_change req (validate req) users
step known (deletes userid) users = deletion userid (users userid) users

-- The answers to a sequence of calls.
unfoldable pub run : Known → List Op → Users → List Answer
unfolding step
run known [] users = []
run known (op ∷ ops) users =
    let (answer, after) = step known op users in answer ∷ run known ops after
