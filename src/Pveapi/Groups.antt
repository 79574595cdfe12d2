-- ===== src/Pveapi/Groups.antt =====
-- internal/pveapi/types.go: the decoding of a user's groups.
pub mod Split
use vault_custom_secrets_eng.Base.{ℕ, List, [], ◌∷◌, Bytes, is_empty, ◌==◌, if◌then◌else◌}
use vault_custom_secrets_eng.Unicode.{trim_space}
use vault_custom_secrets_eng.Pveapi.Errors.{Result, ok, err, failure}

-- The JSON of the field `groups`, as `encoding/json` reads it: absent or null, an array that fits
-- `[]string`, a string, or anything else.
pub data RawGroups : Type 0 where
  absent null other : RawGroups
  array : List Bytes → RawGroups
  text : Bytes → RawGroups

-- A byte in front of a text that has been split.
unfoldable pub split_step : ℕ → ℕ → List Bytes → List Bytes
split_step c x [] = (x ∷ []) ∷ []
split_step c x (part ∷ parts) = if x == c then [] ∷ part ∷ parts else (x ∷ part) ∷ parts

-- `strings.Split(s, c)` for one byte.
unfoldable pub split_on : ℕ → Bytes → List Bytes
unfolding split_step
split_on c [] = [] ∷ []
split_on c (x ∷ xs) = split_step c x (split_on c xs)

-- `normalizeGroups`
unfoldable pub normalize_groups : List Bytes → List Bytes
normalize_groups [] = []
normalize_groups (group ∷ groups) =
    let rest = normalize_groups groups in
    if is_empty (trim_space group) then rest else trim_space group ∷ rest

-- `splitGroupCSV`
unfoldable pub split_group_csv : Bytes → List Bytes
unfolding normalize_groups split_on
split_group_csv [] = []
split_group_csv (b ∷ s) = normalize_groups (split_on b',' (b ∷ s))

-- `userGroups.UnmarshalJSON`
unfoldable pub decode_user_groups : RawGroups → Result (List Bytes)
unfolding split_group_csv normalize_groups
decode_user_groups RawGroups.absent = ok []
decode_user_groups RawGroups.null = ok []
decode_user_groups (RawGroups.array groups) = ok (normalize_groups groups)
decode_user_groups (RawGroups.text groups) = ok (split_group_csv groups)
decode_user_groups RawGroups.other =
    err (failure "groups must be a JSON array, CSV string, or null")
