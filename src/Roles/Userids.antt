-- ===== src/Roles/Userids.antt =====
-- The userids that path_creds.go builds from a role which path_roles.go has accepted.
use vault_custom_secrets_eng.Base.{
  ℕ, ◌≡◌, ◌≢◌, ◌≤◌, [], ◌∷◌, ◌++◌, append_assoc, Bytes, codes, All, All-append, All-map, Lacks,
  length, arith,
}
use vault_custom_secrets_eng.Host.Data.{Role}
use vault_custom_secrets_eng.Userid.{build_user_id}
use vault_custom_secrets_eng.Userid.Component.{IsUserByte}
use vault_custom_secrets_eng.Userid.Realm.{IsRealm, IsRealmByte}
use vault_custom_secrets_eng.Userid.Suffix.{IsSuffixByte, suffix_of, suffix_of_shape}
use vault_custom_secrets_eng.Roles.Valid.{IsValidRole}

-- A byte with no meaning in paths, in ACL entries, in token IDs and in the authorization header.
pub record IsPlainByte (b : ℕ) : Type 0 where
  pub no_colon : b ≢ b':'
  pub no_slash : b ≢ b'/'
  pub no_bang : b ≢ b'!'
  pub no_equals : b ≢ b'='

-- The same, and no '@'.
pub record IsLocalByte (b : ℕ) : Type 0 where
  pub plain : IsPlainByte b
  pub no_at : b ≢ b'@'

user_byte-IsLocalByte : (b : ℕ) → IsUserByte b → IsLocalByte b
user_byte-IsLocalByte b h = ground arith

suffix_byte-IsLocalByte : (b : ℕ) → IsSuffixByte b → IsLocalByte b
suffix_byte-IsLocalByte b h = ground arith

realm_byte-IsLocalByte : (b : ℕ) → IsRealmByte b → IsLocalByte b
realm_byte-IsLocalByte b h = ground arith

IsRealm-All : (s : Bytes) → IsRealm s → All IsLocalByte s
IsRealm-All [] h = absurd h
IsRealm-All (c ∷ []) h = absurd h
IsRealm-All (c ∷ d ∷ s) h =
    (realm_byte-IsLocalByte c (ground arith), All-map realm_byte-IsLocalByte (d ∷ s) h.1)

dash-IsLocalByte : All IsLocalByte (codes "-")
dash-IsLocalByte = (ground arith, tt)

at-IsPlainByte : IsPlainByte b'@'
at-IsPlainByte = ground arith

-- What stands before the '@'.
abbrev pub local_part : Bytes → Bytes → Bytes → Bytes
local_part prefix name suffix = prefix ++ (codes "-" ++ (name ++ (codes "-" ++ suffix)))

build_user_id-local_part :
    (p n x realm : Bytes) → build_user_id p n x realm ≡ local_part p n x ++ b'@' ∷ realm
unfolding build_user_id
build_user_id-local_part p n x realm = simp append_assoc

local_part-All :
    (p n x : Bytes)
    → All IsLocalByte p
    → All IsLocalByte n
    → All IsLocalByte x
    → All IsLocalByte (local_part p n x)
local_part-All p n x hp hn hx = All-append IsLocalByte p _ hp (
    All-append IsLocalByte (codes "-") _ dash-IsLocalByte
      (All-append IsLocalByte n _ hn (All-append IsLocalByte (codes "-") _ dash-IsLocalByte hx)))

-- A userid splits at its '@' in one way only, and no other byte of it is a separator.
pub record IsUserId (userid user realm : Bytes) : Type 0 where
  pub joined : userid ≡ user ++ b'@' ∷ realm
  pub user_lacks_at : Lacks b'@' user
  pub realm_lacks_at : Lacks b'@' realm
  pub plain : All IsPlainByte userid
  pub fits : length userid ≤ 64

-- Every userid that is built from a valid role and a random suffix has one '@', before the role's
-- realm, no ':', '/', '!' or '=', and at most 64 bytes.
pub build_user_id-IsUserId :
    (name : Bytes) (role : Role) (random : Bytes)
    → IsValidRole name role
    → let suffix = suffix_of random in
      IsUserId
        (build_user_id role.user_prefix name suffix role.realm)
        (local_part role.user_prefix name suffix)
        role.realm
build_user_id-IsUserId name role random v =
    let (size, shape) = suffix_of_shape random in
    let local : All IsLocalByte (local_part role.user_prefix name (suffix_of random)) =
      local_part-All role.user_prefix name (suffix_of random)
        (All-map user_byte-IsLocalByte _ v.prefix_clean)
        (All-map user_byte-IsLocalByte _ v.name_clean) (All-map suffix_byte-IsLocalByte _ shape) in
    let realm : All IsLocalByte role.realm = IsRealm-All role.realm v.realm_valid in
    let whole = build_user_id-local_part role.user_prefix name (suffix_of random) role.realm in
    record {
      joined = whole;
      user_lacks_at = All-map (λ (b : ℕ) (h : IsLocalByte b). h.no_at) _ local;
      realm_lacks_at = All-map (λ (b : ℕ) (h : IsLocalByte b). h.no_at) _ realm;
      plain = rw whole (
          All-append IsPlainByte _ _ (All-map (λ (b : ℕ) (h : IsLocalByte b). h.plain) _ local)
            (at-IsPlainByte, All-map (λ (b : ℕ) (h : IsLocalByte b). h.plain) _ realm));
      fits = v.fits (suffix_of random) size;
    }
