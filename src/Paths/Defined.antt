-- ===== src/Paths/Defined.antt =====
-- `Get`, `GetOk` and the type assertions do not panic on a request of the schema.
use vault_custom_secrets_eng.Base.{
  ◌≡◌, inl, inr, Bool, Option, none, some, Bytes, codes, lookup, sym, subst, Option-cases,
}
use vault_custom_secrets_eng.Host.Response.{Value, str, bool, int}
use vault_custom_secrets_eng.Paths.Fields.{
  string_field, bool_field, duration_field, FieldSchema, Schema, FieldData, HasType, fallback,
  Conforms, as_string, as_bool, as_int, ◌>>=◌, given,
}
use vault_custom_secrets_eng.Paths.Requests.{get_string, get_bool, get_int, requested_name}
use vault_custom_secrets_eng.Paths.Tables.{field}

-- There is no panic.
abbrev pub IsDefined : {A : Type 0} → Option A → Type 0
IsDefined none = ⊥
IsDefined (some a) = Unit

module _ {A B : Type 0} where
  pub bind-IsDefined :
      (m : Option A) (f : A → Option B)
      → IsDefined m
      → ((a : A) → IsDefined (f a))
      → IsDefined (m >>= f)
  bind-IsDefined none f h k = h
  bind-IsDefined (some a) f h k = k a

  pub map-IsDefined : (m : Option A) (f : A → B) → IsDefined m → IsDefined (m >>= λ a. some (f a))
  map-IsDefined m f h = bind-IsDefined m (λ a. some (f a)) h (λ a. tt)

-- A cast succeeds at the values of its type.
pub as_string-IsDefined : (v : Value) → HasType string_field v → IsDefined (as_string v)
as_string-IsDefined (str s) h = tt
as_string-IsDefined _ h = h

pub as_bool-IsDefined : (v : Value) → HasType bool_field v → IsDefined (as_bool v)
as_bool-IsDefined (bool b) h = tt
as_bool-IsDefined _ h = h

pub as_int-IsDefined : (v : Value) → HasType duration_field v → IsDefined (as_int v)
as_int-IsDefined (int n) h = tt
as_int-IsDefined _ h = h

module _ {schema : Schema} {d : FieldData} (conforms : Conforms schema d) where
  -- `Get` of a field of the schema, with its assertion.
  pub get-IsDefined :
      {A : Type 0} {f : FieldSchema} (key : Bytes) (cast : Value → Option A)
      → lookup key schema ≡ some f
      → HasType f.type (fallback f)
      → ((v : Value) → HasType f.type v → IsDefined (cast v))
      → IsDefined (d.get key >>= cast)
  get-IsDefined {f = f} key cast listed typed casts = elim (Option-cases (d.get_ok key)) [
    | inl e ↦
        subst (λ o. IsDefined (o >>= cast)) (sym (conforms.absent key f listed e))
          (casts (fallback f) typed)
    | inr (v, e) ↦
        subst (λ o. IsDefined (o >>= cast)) (sym (conforms.present key f v listed e))
          (casts v (conforms.typed key f v listed e))
  ]

  -- The same for `GetOk`.
  pub given-IsDefined :
      {A : Type 0} {f : FieldSchema} (key : Bytes) (cast : Value → Option A)
      → lookup key schema ≡ some f
      → ((v : Value) → HasType f.type v → IsDefined (cast v))
      → IsDefined (given cast (d.get_ok key))
  unfolding given
  given-IsDefined {f = f} key cast listed casts = elim (Option-cases (d.get_ok key)) [
    | inl e ↦ subst (λ o. IsDefined (given cast o)) (sym e) tt
    | inr (v, e) ↦
        subst (λ o. IsDefined (given cast o)) (sym e)
          (map-IsDefined (cast v) some (casts v (conforms.typed key f v listed e)))
  ]

  -- Each type's accessor.
  pub get_string-IsDefined :
      {required : Bool} {default : Option Value} (key : Bytes)
      → lookup key schema ≡ some (field string_field required default)
      → HasType string_field (fallback (field string_field required default))
      → IsDefined (get_string d key)
  get_string-IsDefined key listed typed =
      get-IsDefined key as_string listed typed as_string-IsDefined

  pub get_bool-IsDefined :
      {required : Bool} {default : Option Value} (key : Bytes)
      → lookup key schema ≡ some (field bool_field required default)
      → HasType bool_field (fallback (field bool_field required default))
      → IsDefined (get_bool d key)
  get_bool-IsDefined key listed typed = get-IsDefined key as_bool listed typed as_bool-IsDefined

  pub get_int-IsDefined :
      {required : Bool} {default : Option Value} (key : Bytes)
      → lookup key schema ≡ some (field duration_field required default)
      → HasType duration_field (fallback (field duration_field required default))
      → IsDefined (get_int d key)
  get_int-IsDefined key listed typed = get-IsDefined key as_int listed typed as_int-IsDefined

  pub given_string-IsDefined :
      {required : Bool} {default : Option Value} (key : Bytes)
      → lookup key schema ≡ some (field string_field required default)
      → IsDefined (given as_string (d.get_ok key))
  given_string-IsDefined key listed = given-IsDefined key as_string listed as_string-IsDefined

  pub given_int-IsDefined :
      {required : Bool} {default : Option Value} (key : Bytes)
      → lookup key schema ≡ some (field duration_field required default)
      → IsDefined (given as_int (d.get_ok key))
  given_int-IsDefined key listed = given-IsDefined key as_int listed as_int-IsDefined

  pub requested_name-IsDefined :
      {required : Bool}
      → lookup (codes "name") schema ≡ some (field string_field required none)
      → IsDefined (requested_name d)
  unfolding requested_name
  requested_name-IsDefined listed = get_string-IsDefined (codes "name") listed tt
