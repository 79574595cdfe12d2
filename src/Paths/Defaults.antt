-- ===== src/Paths/Defaults.antt =====
-- The role that `roleWrite` of path_roles.go reads, against the one that Roles/Write.antt makes of the
-- given fields.
use vault_custom_secrets_eng.Base.{
  ◌≡◌, refl, sym, ap, subst, ◌∙◌, Option, none, some, [], Bytes, codes, pos, lookup, text_eq,
}
use vault_custom_secrets_eng.Host.Data.{Role}
use vault_custom_secrets_eng.Host.Response.{Value}
use vault_custom_secrets_eng.Roles.{mode_token}
use vault_custom_secrets_eng.Roles.Write.{RoleFields, resolve, requested_role}
use vault_custom_secrets_eng.Paths.Fields.{
  FieldSchema, FieldData, fallback, Conforms, as_string, as_int, ◌>>=◌, given,
}
use vault_custom_secrets_eng.Paths.Requests.{pick, role_field, role_of, given_role}
use vault_custom_secrets_eng.Paths.Tables.{role_schema}

module _ {A : Type 0} (k : A → Option Role) (k' : Option A → Option RoleFields)
    (g : RoleFields → Option Role) where
  -- Both sides go on alike after a value that the request gives.
  bind-some :
      (m : Option A)
      → ((a : A) → k a ≡ k' (some a) >>= g)
      → m >>= k ≡ ((m >>= λ a. some (some a)) >>= k') >>= g
  bind-some none h = refl
  bind-some (some a) h = h a

  pick-bind :
      (cast : Value → Option A) (field : Role → A) (default : A) (got_ok : Option Value)
      (existing : Option Role) (got : Option Value)
      → (got_ok ≡ none → got >>= cast ≡ some default)
      → ((o : Option A) → k (resolve o field existing default) ≡ k' o >>= g)
      → pick cast field got_ok existing got >>= k ≡ (given cast got_ok >>= k') >>= g
  unfolding pick given resolve
  pick-bind cast field default (some v) existing got e h = bind-some (cast v) (λ a. h (some a))
  pick-bind cast field default none (some role) got e h = h none
  pick-bind cast field default none none got e h =
      subst (λ o. o >>= k ≡ k' none >>= g) (sym (e refl)) (h none)

module _ {d : FieldData} (conforms : Conforms role_schema d) (existing : Option Role) where
  -- A field: what `Get` gives for a field that the request leaves out is the schema's default.
  role_field-bind :
      {A : Type 0} {f : FieldSchema} (k : A → Option Role) (k' : Option A → Option RoleFields)
      (g : RoleFields → Option Role) (key : Bytes) (cast : Value → Option A) (field : Role → A)
      (default : A)
      → lookup key role_schema ≡ some f
      → cast (fallback f) ≡ some default
      → ((o : Option A) → k (resolve o field existing default) ≡ k' o >>= g)
      → role_field cast field key d existing >>= k ≡ (given cast (d.get_ok key) >>= k') >>= g
  role_field-bind {f = f} k k' g key cast field default listed e h =
      pick-bind k k' g cast field default (d.get_ok key) existing (d.get key)
        (λ left_out. ap (λ o. o >>= cast) (conforms.absent key f listed left_out) ∙ e) h

  -- On a request that conforms to the schema, roleWrite reads the role that `requested_role` makes
  -- of the fields which the request has; it panics on no field more than reading those does.
  pub role_of_lem :
      role_of d existing ≡ given_role d >>= λ fields. some (requested_role fields existing)
  unfolding role_of given_role requested_role lookup text_eq
  role_of_lem =
      role_field-bind _ _ _ (codes "group") as_string (λ r. r.group) [] refl refl
        λ group.
          role_field-bind _ _ _ (codes "user_prefix") as_string (λ r. r.user_prefix) (codes "vault")
            refl refl
            λ user_prefix.
              role_field-bind _ _ _ (codes "realm") as_string (λ r. r.realm) (codes "pve") refl refl
                λ realm.
                  role_field-bind _ _ _ (codes "ttl") as_int (λ r. r.ttl) (pos 0) refl refl
                    λ ttl.
                      role_field-bind _ _ _ (codes "max_ttl") as_int (λ r. r.max_ttl) (pos 0) refl
                        refl
                        λ max_ttl.
                          role_field-bind _ _ _ (codes "mode") as_string (λ r. r.mode) mode_token
                            refl refl λ mode. refl
