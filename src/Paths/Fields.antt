-- ===== src/Paths/Fields.antt =====
-- The schema of a request's fields, and the request that the framework makes from it.
use vault_custom_secrets_eng.Base.{
  ◌≡◌, Bool, false, Option, none, some, List, [], Bytes, ℤ, pos, lookup,
}
use vault_custom_secrets_eng.Host.Response.{Value, str, bool, int}

-- `framework.TypeString`, `TypeBool` and `TypeDurationSecond`
pub data FieldType : Type 0 where
  string_field bool_field duration_field : FieldType

-- `framework.FieldSchema`; the default is `none` for nil.
pub record FieldSchema : Type 0 where
  pub type : FieldType
  pub required : Bool
  pub default : Option Value

abbrev pub Schema : Type 0
Schema = List (Bytes × FieldSchema)

-- `framework.FieldData`: `Get`, with `none` for a panic, and `GetOk`, with `none` for a field that
-- the request does not have.
pub record FieldData : Type 0 where
  pub get : Bytes → Option Value
  pub get_ok : Bytes → Option Value

-- A value is of the Go type that the framework gives to fields of the type.
abbrev pub HasType : FieldType → Value → Type 0
HasType string_field (str s) = Unit
HasType bool_field (bool b) = Unit
HasType duration_field (int n) = Unit
HasType _ _ = ⊥

-- The zero value of a type, which a field without a default falls back to.
abbrev pub zero_of : FieldType → Value
zero_of string_field = str []
zero_of bool_field = bool false
zero_of duration_field = int (pos 0)

abbrev pub fallback : FieldSchema → Value
fallback f = elim f.default [ some v ↦ v | none ↦ zero_of f.type ]

-- What the framework documents of a request to a path with the schema: the value of a field that the
-- request has is converted to the field's type, and `Get` gives it; for another field of the schema
-- `Get` gives the default, or the zero value.
pub record Conforms (schema : Schema) (d : FieldData) : Type 0 where
  pub typed :
      (key : Bytes) (f : FieldSchema) (v : Value)
      → lookup key schema ≡ some f
      → d.get_ok key ≡ some v
      → HasType f.type v
  pub present :
      (key : Bytes) (f : FieldSchema) (v : Value)
      → lookup key schema ≡ some f
      → d.get_ok key ≡ some v
      → d.get key ≡ some v
  pub absent :
      (key : Bytes) (f : FieldSchema)
      → lookup key schema ≡ some f
      → d.get_ok key ≡ none
      → d.get key ≡ some (fallback f)

-- `v.(string)`, `v.(bool)` and `v.(int)`, with `none` for a panic.
abbrev pub as_string : Value → Option Bytes
as_string (str s) = some s
as_string _ = none

abbrev pub as_bool : Value → Option Bool
as_bool (bool b) = some b
as_bool _ = none

abbrev pub as_int : Value → Option ℤ
as_int (int n) = some n
as_int _ = none

module _ {A B : Type 0} where
  infixl 5 ◌>>=◌
  abbrev pub ◌>>=◌ : Option A → (A → Option B) → Option B
  none >>= f = none
  (some a) >>= f = f a

-- `if v, ok := d.GetOk(key); ok { x = v.(T) }`
unfoldable pub given : {A : Type 0} → (Value → Option A) → Option Value → Option (Option A)
given cast none = some none
given cast (some v) = cast v >>= λ a. some (some a)
