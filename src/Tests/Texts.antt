-- ===== src/Tests/Texts.antt =====
-- The theorems on userids, suffixes and permissions, on small texts.
use vault_custom_secrets_eng.Base.{
  some, trim_right, ◌≡◌, ◌≢◌, ◌<◌, ◌↔◌, refl, true, none, [], ◌∷◌, Bytes, codes, pos, All, arith,
}
use vault_custom_secrets_eng.Unicode.{runes}
use vault_custom_secrets_eng.Userid.{validate_user_component, validate_realm_component}
use vault_custom_secrets_eng.Userid.Component.{IsUserRune, validate_user_component_iff}
use vault_custom_secrets_eng.Userid.Realm.{IsRealm, validate_realm_component_iff}
use vault_custom_secrets_eng.Userid.Suffix.{suffix_of_injective}
use vault_custom_secrets_eng.Password.{generate_password}
use vault_custom_secrets_eng.Password.Shape.{IsFair, IsPassword, generate_password-IsPassword}
use vault_custom_secrets_eng.Tests.{test_host, start}
use vault_custom_secrets_eng.Pveapi.Permissions.{
  PermissionTree, has_privilege, has_privilege_loop, normalise,
}
use vault_custom_secrets_eng.Pveapi.Permissions.Ancestors.{IsGrantedAt, has_privilege_iff}
use vault_custom_secrets_eng.Pveapi.Permissions.Fuel.{has_privilege_fuel}

validate_user_component_iff_example :
    (validate_user_component (codes "a:b") ≡ none)
    ↔ ((codes "a:b" ≢ []) × All IsUserRune (runes (codes "a:b")))
validate_user_component_iff_example = validate_user_component_iff (codes "a:b")

validate_realm_component_iff_example :
    (validate_realm_component (codes "ldap-1") ≡ none) ↔ IsRealm (codes "ldap-1")
validate_realm_component_iff_example = validate_realm_component_iff (codes "ldap-1")

hello_bytes : All (λ b. b < 256) (codes "hello")
hello_bytes = (omega arith, (omega arith, (omega arith, (omega arith, (omega arith, tt)))))

suffix_of_injective_example : codes "hello" ≡ codes "hello"
suffix_of_injective_example =
    suffix_of_injective (codes "hello") (codes "hello") refl refl hello_bytes hello_bytes refl

abbrev test_tree : PermissionTree
test_tree = (codes "/access", (codes "User.Modify", pos 1) ∷ []) ∷ []

has_privilege_iff_example :
    (has_privilege test_tree (codes "/access/groups/") (codes "User.Modify") ≡ true) ↔ (
      (q : Bytes) × IsGrantedAt test_tree
        (normalise (codes "/access/groups/"))
        (codes "User.Modify")
        q)
has_privilege_iff_example =
    has_privilege_iff test_tree (codes "/access/groups/") (codes "User.Modify")

has_privilege_fuel_example :
    let p = normalise (codes "/access/groups/") in
    has_privilege_loop 40 test_tree p (codes "User.Modify") p
    ≡ some (has_privilege test_tree (codes "/access/groups/") (codes "User.Modify"))
unfolding normalise trim_right
has_privilege_fuel_example =
    has_privilege_fuel test_tree (codes "/access/groups/") (codes "User.Modify") 40 (omega arith)

test_host-IsFair : IsFair test_host
test_host-IsFair = record {
  draw = λ l n. 0;
  below = λ l n positive. positive;
  draws = λ l n positive. refl;
}

generate_password-IsPassword_example : IsPassword 32 (generate_password test_host start).0
generate_password-IsPassword_example = generate_password-IsPassword test_host start test_host-IsFair
