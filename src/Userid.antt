-- ===== src/Userid.antt =====
-- userid.go: the parts of a synthetic userid, their validation and the random suffix.
pub mod Component
pub mod Realm
pub mod Suffix
pub mod Budget
use Prim.Native.String.{String}
use vault_custom_secrets_eng.Base.{
  ℕ, zero, suc, ◌+◌, Bool, ◌||◌, ◌&&◌, not, Option, none, some, List, [], ◌∷◌, ◌++◌, Bytes, codes,
  length, ◌==◌, ltb, leb, if◌then◌else◌,
}
use vault_custom_secrets_eng.Pveapi.Errors.{Error, failure}
use vault_custom_secrets_eng.Unicode.{runes, is_space}

-- `buildUserID`
unfoldable pub build_user_id : Bytes → Bytes → Bytes → Bytes → Bytes
build_user_id user_prefix role suffix realm =
    user_prefix ++ (codes "-" ++ (role ++ (codes "-" ++ (suffix ++ (codes "@" ++ realm)))))

-- The switch in the loop of `validateUserComponent`.
unfoldable pub check_rune : ℕ → Option Error
check_rune r =
    if r == b':'
    then some (failure "proxmox: user component contains forbidden character ':'")
    else if r == b'/'
    then some (failure "proxmox: user component contains forbidden character '/'")
    else if r == b'@'
    then some (failure "proxmox: user component contains forbidden character '@'")
    else if r == b'!'
    then some (failure "proxmox: user component contains forbidden character '!'")
    else if r == b'='
    then some (failure "proxmox: user component contains forbidden character '='")
    else if is_space r
    then some (failure "proxmox: user component contains whitespace")
    else none

unfoldable pub check_runes : List ℕ → Option Error
check_runes [] = none
check_runes (r ∷ rs) = elim (check_rune r) [ some e ↦ some e | none ↦ check_runes rs ]

unfoldable pub validate_user_component : Bytes → Option Error
validate_user_component [] = some (failure "proxmox: user component must not be empty")
validate_user_component (b ∷ s) = check_runes (runes (b ∷ s))

unfoldable pub is_ascii_letter : ℕ → Bool
is_ascii_letter r = (leb b'A' r && leb r b'Z') || (leb b'a' r && leb r b'z')

unfoldable pub is_ascii_digit : ℕ → Bool
is_ascii_digit r = leb b'0' r && leb r b'9'

-- The loop of `validateRealmComponent`, over the runes behind the first byte.
unfoldable pub check_realm_runes : List ℕ → Option Error
unfolding is_ascii_letter is_ascii_digit
check_realm_runes [] = none
check_realm_runes (r ∷ rs) =
    let rest = check_realm_runes rs in
    if not (is_ascii_letter r)
      && (not (is_ascii_digit r) && (not (r == b'.') && (not (r == b'-') && not (r == b'_'))))
    then some (failure "proxmox: realm contains invalid character")
    else rest

unfoldable pub validate_realm_component : Bytes → Option Error
unfolding is_ascii_letter
validate_realm_component [] = some (failure "proxmox: realm must not be empty")
validate_realm_component (b ∷ []) = some (failure "proxmox: realm is too short")
validate_realm_component (b ∷ c ∷ s) =
    if not (is_ascii_letter b)
    then some (failure "proxmox: realm must start with a letter")
    else check_realm_runes (runes (c ∷ s))

unfoldable pub validate_length_budget : Bytes → Bytes → Bytes → Option Error
validate_length_budget user_prefix role realm =
    let total = length user_prefix + 1 + length role + 1 + 8 + 1 + length realm in
    if ltb 64 total then some (failure "proxmox: userid would be too long") else none
