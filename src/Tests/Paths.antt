-- ===== src/Tests/Paths.antt =====
-- The theorems on paths and on what they read, at requests with some of the fields.
use vault_custom_secrets_eng.Base.{
  ◌≡◌, ◌↔◌, All, text_eq_iff, ◌++◌, refl, sym, subst, inl, inr, Option, none, some, [], ◌∷◌, Bytes,
  codes, lookup, text_eq, pos, ◌*◌, arith,
}
use vault_custom_secrets_eng.Host.Response.{Value, Values, str, int}
use vault_custom_secrets_eng.Roles.Ttls.{nanoseconds, ttls, capped_max_ttl}
use vault_custom_secrets_eng.Roles.Limits.{Within, limits_iff}
use vault_custom_secrets_eng.ConfigPath.{config_read, config_existence_check}
use vault_custom_secrets_eng.ConfigPath.Secret.{reseal, config_read-reseal}
use vault_custom_secrets_eng.Paths.Fields.{
  FieldSchema, Schema, fallback, HasType, FieldData, Conforms, ◌>>=◌,
}
use vault_custom_secrets_eng.Roles.Write.{requested_role}
use vault_custom_secrets_eng.Roles.Handlers.{role_existence_check}
use vault_custom_secrets_eng.Paths.Requests.{role_of, given_role, requested_name}
use vault_custom_secrets_eng.Paths.Tables.{role_schema, role_operations, path_roles}
use vault_custom_secrets_eng.Paths.Registration.{new_backend}
use vault_custom_secrets_eng.Paths.Total.{IsTotal, paths-IsTotal}
use vault_custom_secrets_eng.Paths.Defaults.{role_of_lem}
use vault_custom_secrets_eng.Tests.Client.{wire_of, gone_reply}
use vault_custom_secrets_eng.Tests.{test_host, test_config, test_role, start}

config_read-reseal_example :
    (config_read (reseal (λ value. codes "other") test_host) start ≡ config_read test_host start)
    × (config_existence_check (reseal (λ value. codes "other") test_host) start
        ≡ config_existence_check test_host start)
config_read-reseal_example = config_read-reseal (λ value. codes "other") test_host start

limits_iff_example :
    ((ttls test_role test_config).0 ≡ pos (600 * nanoseconds))
    × (Within (pos 5) (capped_max_ttl (ttls test_role test_config).1 (pos 0))
        ↔ (Within (pos 5) (pos (7200 * nanoseconds)) × Within (pos 5) (pos 0)))
limits_iff_example =
    limits_iff test_role test_config (refl, ground arith) (refl, ground arith) (refl, ground arith)
      (refl, ground arith) (pos 5) (pos 0)

-- The framework's request: the fields given, and for the others what the schema says.
module _ (schema : Schema) (fields : Values) where
  or_default : Option Value → Option FieldSchema → Option Value
  or_default (some v) f = some v
  or_default none none = none
  or_default none (some f) = some (fallback f)

  unfoldable pub request_of : FieldData
  unfolding or_default lookup
  request_of = record {
    get = λ key. or_default (lookup key fields) (lookup key schema);
    get_ok = λ key. lookup key fields;
  }

  Fits : Option FieldSchema → Value → Type 0
  Fits none v = Unit
  Fits (some f) v = HasType f.type v

  lookup-Fits :
      (key : Bytes) (v : Value) (fields' : Values)
      → All (λ field. Fits (lookup field.0 schema) field.1) fields'
      → lookup key fields' ≡ some v
      → Fits (lookup key schema) v
  unfolding lookup
  lookup-Fits key v [] fits e = cc
  lookup-Fits key v ((k, w) ∷ rest) fits e =
      ground (arith, fits.0, text_eq_iff k key, lookup-Fits key v rest fits.1)

  request_of-Conforms :
      All (λ field. Fits (lookup field.0 schema) field.1) fields → Conforms schema request_of
  unfolding request_of or_default Fits
  request_of-Conforms fits = record {
    typed = λ key f v listed e. subst (λ o. Fits o v) listed (lookup-Fits key v fields fits e);
    present =
        λ key f v listed e. subst (λ o. or_default o (lookup key schema) ≡ some v) (sym e) refl;
    absent = λ key f listed e. ground (arith, listed, e);
  }

-- A write of a role's TTL.
abbrev ttl_request : FieldData
ttl_request =
    request_of role_schema ((codes "name", str (codes "dev")) ∷ (codes "ttl", int (pos 60)) ∷ [])

ttl_request-Conforms : Conforms role_schema ttl_request
unfolding lookup text_eq Fits
ttl_request-Conforms =
    request_of-Conforms role_schema
      ((codes "name", str (codes "dev")) ∷ (codes "ttl", int (pos 60)) ∷ []) (tt, (tt, tt))

role_of_lem_example :
    role_of ttl_request (some test_role)
    ≡ given_role ttl_request >>= λ fields. some (requested_role fields (some test_role))
role_of_lem_example = role_of_lem ttl_request-Conforms (some test_role)

paths-IsTotal_example : IsTotal ttl_request (record {
  pattern = codes "roles/" ++ codes "name";
  fields = role_schema;
  operations = role_operations test_host;
  existence_check =
      some (λ d. requested_name d >>= λ name. some (role_existence_check test_host name));
})
unfolding new_backend path_roles
paths-IsTotal_example =
    paths-IsTotal test_host (wire_of gone_reply) (λ name. name) ttl_request _ (inr (inl refl))
      ttl_request-Conforms
