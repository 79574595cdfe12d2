-- ===== src/Paths/Total.antt =====
-- The requests of the tables' schemas are read without a panic.
use vault_custom_secrets_eng.Base.{
  ◌≡◌, ◌⊎◌, inl, inr, Bool, Option, none, some, List, [], ◌∷◌, Bytes, All, codes, lookup, text_eq,
  refl, sym, subst,
}
use vault_custom_secrets_eng.Pveapi.Errors.{Result}
use vault_custom_secrets_eng.Pveapi.Wire.{Wire}
use vault_custom_secrets_eng.Host.{Host}
use vault_custom_secrets_eng.Host.Act.{Op}
use vault_custom_secrets_eng.Paths.Fields.{FieldData, Conforms, as_string, as_bool, as_int, given}
use vault_custom_secrets_eng.Paths.Defined.{
  IsDefined, bind-IsDefined, map-IsDefined, get_string-IsDefined, get_bool-IsDefined,
  get_int-IsDefined, given-IsDefined, as_bool-IsDefined, given_string-IsDefined,
  given_int-IsDefined, requested_name-IsDefined,
}
use vault_custom_secrets_eng.Paths.Requests.{
  get_string, get_bool, get_int, requested_config, requested_force, given_role, requested_rotation,
  requested_name,
}
use vault_custom_secrets_eng.Paths.Tables.{
  Operation, create_operation, update_operation, read_operation, delete_operation, list_operation,
  PathOperation, MountPath, write_role_request, config_schema, role_schema, creds_schema,
  rotation_schema, config_operations, role_operations, roles_operations, creds_operations,
  rotation_operations, path_config, path_roles, path_creds, path_rotate_root,
}
use vault_custom_secrets_eng.Paths.Registration.{new_backend}

module _ {d : FieldData} where
  requested_config-IsDefined : Conforms config_schema d → IsDefined (requested_config d)
  unfolding requested_config lookup text_eq
  requested_config-IsDefined c =
      bind-IsDefined (get_string d (codes "address")) _
        (get_string-IsDefined c (codes "address") refl tt)
        λ address.
          bind-IsDefined (get_string d (codes "token_id")) _
            (get_string-IsDefined c (codes "token_id") refl tt)
            λ token_id.
              bind-IsDefined (get_string d (codes "token_secret")) _
                (get_string-IsDefined c (codes "token_secret") refl tt)
                λ token_secret.
                  bind-IsDefined (get_bool d (codes "tls_skip_verify")) _
                    (get_bool-IsDefined c (codes "tls_skip_verify") refl tt)
                    λ tls_skip_verify.
                      bind-IsDefined (get_string d (codes "ca_cert")) _
                        (get_string-IsDefined c (codes "ca_cert") refl tt)
                        λ ca_cert.
                          bind-IsDefined (get_int d (codes "default_ttl")) _
                            (get_int-IsDefined c (codes "default_ttl") refl tt)
                            λ default_ttl.
                              map-IsDefined (get_int d (codes "default_max_ttl")) _
                                (get_int-IsDefined c (codes "default_max_ttl") refl tt)

  requested_force-IsDefined : Conforms config_schema d → IsDefined (requested_force d)
  unfolding requested_force lookup text_eq
  requested_force-IsDefined c =
      map-IsDefined (given as_bool (d.get_ok (codes "force"))) _
        (given-IsDefined c (codes "force") as_bool refl as_bool-IsDefined)

  given_role-IsDefined : Conforms role_schema d → IsDefined (given_role d)
  unfolding given_role lookup text_eq
  given_role-IsDefined c =
      bind-IsDefined (given as_string (d.get_ok (codes "group"))) _
        (given_string-IsDefined c (codes "group") refl)
        λ group.
          bind-IsDefined (given as_string (d.get_ok (codes "user_prefix"))) _
            (given_string-IsDefined c (codes "user_prefix") refl)
            λ user_prefix.
              bind-IsDefined (given as_string (d.get_ok (codes "realm"))) _
                (given_string-IsDefined c (codes "realm") refl)
                λ realm.
                  bind-IsDefined (given as_int (d.get_ok (codes "ttl"))) _
                    (given_int-IsDefined c (codes "ttl") refl)
                    λ ttl.
                      bind-IsDefined (given as_int (d.get_ok (codes "max_ttl"))) _
                        (given_int-IsDefined c (codes "max_ttl") refl)
                        λ max_ttl.
                          map-IsDefined (given as_string (d.get_ok (codes "mode"))) _
                            (given_string-IsDefined c (codes "mode") refl)

  requested_rotation-IsDefined : Conforms rotation_schema d → IsDefined (requested_rotation d)
  unfolding requested_rotation lookup text_eq
  requested_rotation-IsDefined c =
      bind-IsDefined (get_bool d (codes "confirm_exclusive")) _
        (get_bool-IsDefined c (codes "confirm_exclusive") refl tt)
        λ confirm_exclusive.
          bind-IsDefined (given as_string (d.get_ok (codes "recovery_token_id"))) _
            (given_string-IsDefined c (codes "recovery_token_id") refl)
            λ recovery_token_id.
              map-IsDefined (get_string d (codes "expected_token_id")) _
                (get_string-IsDefined c (codes "expected_token_id") refl tt)

-- An operation that the path has, and its existence check if it has one, do not panic.
Runs : FieldData → Option PathOperation → Type 0
Runs d none = Unit
Runs d (some po) = IsDefined (po.callback d)

Checks : FieldData → Option (FieldData → Option (Op (Result Bool))) → Type 0
Checks d none = Unit
Checks d (some check) = IsDefined (check d)

pub IsTotal : FieldData → MountPath → Type 0
IsTotal d path = ((op : Operation) → Runs d (path.operations op)) × Checks d path.existence_check

roles_operations-Runs :
    (host : Host) (d : FieldData) (op : Operation) → Runs d (roles_operations host op)
unfolding roles_operations Runs
roles_operations-Runs host d list_operation = tt
roles_operations-Runs host d _ = tt

module _ (host : Host) {d : FieldData} where
  config_operations-Runs :
      Conforms config_schema d → (op : Operation) → Runs d (config_operations host op)
  unfolding config_operations Runs
  config_operations-Runs c create_operation =
      map-IsDefined (requested_config d) _ (requested_config-IsDefined c)
  config_operations-Runs c update_operation =
      map-IsDefined (requested_config d) _ (requested_config-IsDefined c)
  config_operations-Runs c read_operation = tt
  config_operations-Runs c delete_operation =
      map-IsDefined (requested_force d) _ (requested_force-IsDefined c)
  config_operations-Runs c list_operation = tt

  write_role_request-IsDefined : Conforms role_schema d → IsDefined (write_role_request host d)
  unfolding lookup text_eq
  write_role_request-IsDefined c =
      bind-IsDefined (requested_name d) _ (requested_name-IsDefined c refl)
        λ name. map-IsDefined (given_role d) _ (given_role-IsDefined c)

  role_operations-Runs :
      Conforms role_schema d → (op : Operation) → Runs d (role_operations host op)
  unfolding role_operations Runs lookup text_eq
  role_operations-Runs c create_operation = write_role_request-IsDefined c
  role_operations-Runs c update_operation = write_role_request-IsDefined c
  role_operations-Runs c read_operation =
      map-IsDefined (requested_name d) _ (requested_name-IsDefined c refl)
  role_operations-Runs c delete_operation =
      map-IsDefined (requested_name d) _ (requested_name-IsDefined c refl)
  role_operations-Runs c list_operation = tt

  creds_operations-Runs :
      Conforms creds_schema d → (op : Operation) → Runs d (creds_operations host op)
  unfolding creds_operations Runs lookup text_eq
  creds_operations-Runs c read_operation =
      map-IsDefined (requested_name d) _ (requested_name-IsDefined c refl)
  creds_operations-Runs c _ = tt

  rotation_operations-Runs :
      Conforms rotation_schema d → (op : Operation) → Runs d (rotation_operations host op)
  unfolding rotation_operations Runs
  rotation_operations-Runs c read_operation = tt
  rotation_operations-Runs c create_operation =
      map-IsDefined (requested_rotation d) _ (requested_rotation-IsDefined c)
  rotation_operations-Runs c update_operation =
      map-IsDefined (requested_rotation d) _ (requested_rotation-IsDefined c)
  rotation_operations-Runs c _ = tt

-- The paths of the mount, one by one.
all_paths-IsTotal :
    (host : Host) (wire : Wire) (regex : Bytes → Bytes) (d : FieldData)
    → All (λ path. Conforms path.fields d → IsTotal d path) (new_backend host wire regex).paths
unfolding new_backend path_config path_roles path_creds path_rotate_root IsTotal Checks lookup
    text_eq
all_paths-IsTotal host wire regex d = (
  λ c. (config_operations-Runs host c, tt),
  (
    λ c. (
      role_operations-Runs host c,
      map-IsDefined (requested_name d) _ (requested_name-IsDefined c refl),
    ),
    (
      λ c. (roles_operations-Runs host d, tt),
      (λ c. (creds_operations-Runs host c, tt), (λ c. (rotation_operations-Runs host c, tt), tt)),
    ),
  ),
)

abbrev pub IsAmong : {A : Type 0} → A → List A → Type 0
IsAmong x [] = ⊥
IsAmong x (y ∷ ys) = (x ≡ y) ⊎ IsAmong x ys

pub All-IsAmong :
    {A : Type 0} (P : A → Type 0) (x : A) (xs : List A) → All P xs → IsAmong x xs → P x
All-IsAmong P x [] a h = absurd h
All-IsAmong P x (y ∷ ys) a (inl e) = subst P (sym e) a.0
All-IsAmong P x (y ∷ ys) a (inr h) = All-IsAmong P x ys a.1 h

-- For every path that newBackend registers: on a request that conforms to the path's schema, no
-- operation of the path and not its existence check panics before the handler's first call, by
-- `Get` of a field that the schema lacks or by a type assertion.
pub paths-IsTotal :
    (host : Host) (wire : Wire) (regex : Bytes → Bytes) (d : FieldData) (path : MountPath)
    → IsAmong path (new_backend host wire regex).paths
    → Conforms path.fields d
    → IsTotal d path
paths-IsTotal host wire regex d path among conforms =
    All-IsAmong (λ p. Conforms p.fields d → IsTotal d p) path (new_backend host wire regex).paths
      (all_paths-IsTotal host wire regex d) among conforms
