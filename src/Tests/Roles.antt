-- ===== src/Tests/Roles.antt =====
-- The theorems on roles and their userids, at the test host and a PVE that grants the privileges.
use vault_custom_secrets_eng.Base.{refl, inl, text_eq, arith, none, some, [], ◌∷◌, codes}
use vault_custom_secrets_eng.Userid.{
  build_user_id, validate_user_component, validate_realm_component, validate_length_budget,
  check_realm_runes, check_runes, check_rune,
}
use vault_custom_secrets_eng.Unicode.{runes, decode_rune, is_space}
use vault_custom_secrets_eng.Userid.Suffix.{suffix_of}
use vault_custom_secrets_eng.Roles.{get_role}
use vault_custom_secrets_eng.Roles.Write.{RoleFields, role_write}
use vault_custom_secrets_eng.Roles.Valid.{IsValidRole, IsValidRole-of_checks}
use vault_custom_secrets_eng.Roles.Vetted.{StoresValid, role_write-StoresValid}
use vault_custom_secrets_eng.Roles.Userids.{IsUserId, local_part, build_user_id-IsUserId}
use vault_custom_secrets_eng.Tests.{granting_host, test_role, start}

-- The request changes the group of the stored role only.
abbrev test_fields : RoleFields
test_fields = record {
  group = some (codes "dev-team");
  user_prefix = none;
  realm = none;
  ttl = none;
  max_ttl = none;
  mode = none;
}

role_write-StoresValid_example :
    StoresValid granting_host
      (codes "dev")
      test_fields
      (some test_role)
      (role_write granting_host (codes "dev") test_fields start).1.log
unfolding get_role text_eq
role_write-StoresValid_example =
    role_write-StoresValid granting_host (codes "dev") test_fields (some test_role) start refl refl

test_role-IsValidRole : IsValidRole (codes "dev") test_role
unfolding text_eq validate_user_component validate_realm_component validate_length_budget
    check_realm_runes runes decode_rune check_runes check_rune is_space
test_role-IsValidRole =
    IsValidRole-of_checks (codes "dev") test_role
      (record {
        has_group = refl;
        ttl_natural = ground arith;
        max_ttl_natural = ground arith;
        ordered = ground arith;
      })
      (record { known_mode = inl refl; realm_valid = refl })
      (record { prefix_valid = refl; name_valid = refl; budget_valid = refl })

build_user_id-IsUserId_example :
    let suffix = suffix_of (1 ∷ 2 ∷ 3 ∷ 4 ∷ 5 ∷ []) in
    IsUserId
      (build_user_id (codes "vault") (codes "dev") suffix (codes "pve"))
      (local_part (codes "vault") (codes "dev") suffix)
      (codes "pve")
build_user_id-IsUserId_example =
    build_user_id-IsUserId (codes "dev") test_role (1 ∷ 2 ∷ 3 ∷ 4 ∷ 5 ∷ []) test_role-IsValidRole
