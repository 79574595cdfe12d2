-- ===== src/Paths/Requests.antt =====
-- How the handlers read the fields of a request: the first lines of `configWrite`, `configDelete`,
-- `roleWrite`, `rotateRoot` and `handleCredsRead`. `none` stands for a panic: of `Get` for a field
-- that the schema lacks, or of a type assertion. All fields are read at once, also where the source
-- returns before it reads the last of them.
use vault_custom_secrets_eng.Base.{Bool, false, Option, none, some, [], Bytes, codes, ℤ}
use vault_custom_secrets_eng.Host.Data.{Config, Role}
use vault_custom_secrets_eng.Host.Response.{Value}
use vault_custom_secrets_eng.Roles.Write.{RoleFields}
use vault_custom_secrets_eng.Rotation.Rotate.{RotateFields}
use vault_custom_secrets_eng.Paths.Fields.{FieldData, as_string, as_bool, as_int, ◌>>=◌, given}

-- `d.Get(key).(string)`, and the same for the other types.
abbrev pub get_string : FieldData → Bytes → Option Bytes
get_string d key = d.get key >>= as_string

abbrev pub get_bool : FieldData → Bytes → Option Bool
get_bool d key = d.get key >>= as_bool

abbrev pub get_int : FieldData → Bytes → Option ℤ
get_int d key = d.get key >>= as_int

-- `configWrite`
unfoldable pub requested_config : FieldData → Option Config
requested_config d = do
  address ← get_string d (codes "address")
  token_id ← get_string d (codes "token_id")
  token_secret ← get_string d (codes "token_secret")
  tls_skip_verify ← get_bool d (codes "tls_skip_verify")
  ca_cert ← get_string d (codes "ca_cert")
  default_ttl ← get_int d (codes "default_ttl")
  default_max_ttl ← get_int d (codes "default_max_ttl")
  some (record {
    address = address;
    token_id = token_id;
    token_secret = token_secret;
    tls_skip_verify = tls_skip_verify;
    ca_cert = ca_cert;
    default_ttl = default_ttl;
    default_max_ttl = default_max_ttl;
  })

abbrev or_false : Option Bool → Bool
or_false none = false
or_false (some b) = b

-- `configDelete`: `force`, and false where the request has none.
unfoldable pub requested_force : FieldData → Option Bool
unfolding given
requested_force d = do force ← given as_bool (d.get_ok (codes "force")); some (or_false force)

-- A field of `roleWrite`: the request's, else the stored role's, else what `Get` gives.
unfoldable pub pick :
    {A : Type 0}
    → (Value → Option A)
    → (Role → A)
    → Option Value
    → Option Role
    → Option Value
    → Option A
pick cast field (some v) existing got = cast v
pick cast field none (some role) got = some (field role)
pick cast field none none got = got >>= cast

abbrev pub role_field :
    {A : Type 0} → (Value → Option A) → (Role → A) → Bytes → FieldData → Option Role → Option A
role_field cast field key d existing = pick cast field (d.get_ok key) existing (d.get key)

-- The fields of `roleWrite`, in its order.
unfoldable pub role_of : FieldData → Option Role → Option Role
unfolding pick
role_of d existing = do
  group ← role_field as_string (λ r. r.group) (codes "group") d existing
  user_prefix ← role_field as_string (λ r. r.user_prefix) (codes "user_prefix") d existing
  realm ← role_field as_string (λ r. r.realm) (codes "realm") d existing
  ttl ← role_field as_int (λ r. r.ttl) (codes "ttl") d existing
  max_ttl ← role_field as_int (λ r. r.max_ttl) (codes "max_ttl") d existing
  mode ← role_field as_string (λ r. r.mode) (codes "mode") d existing
  some (record {
    group = group;
    user_prefix = user_prefix;
    realm = realm;
    ttl = ttl;
    max_ttl = max_ttl;
    mode = mode;
  })

-- What of these the request has.
unfoldable pub given_role : FieldData → Option RoleFields
unfolding given
given_role d = do
  group ← given as_string (d.get_ok (codes "group"))
  user_prefix ← given as_string (d.get_ok (codes "user_prefix"))
  realm ← given as_string (d.get_ok (codes "realm"))
  ttl ← given as_int (d.get_ok (codes "ttl"))
  max_ttl ← given as_int (d.get_ok (codes "max_ttl"))
  mode ← given as_string (d.get_ok (codes "mode"))
  some (record {
    group = group;
    user_prefix = user_prefix;
    realm = realm;
    ttl = ttl;
    max_ttl = max_ttl;
    mode = mode;
  })

abbrev or_empty : Option Bytes → Bytes
or_empty none = []
or_empty (some s) = s

-- `rotateRoot`
unfoldable pub requested_rotation : FieldData → Option RotateFields
unfolding given
requested_rotation d = do
  confirm_exclusive ← get_bool d (codes "confirm_exclusive")
  recovery_token_id ← given as_string (d.get_ok (codes "recovery_token_id"))
  expected_token_id ← get_string d (codes "expected_token_id")
  some (record {
    confirm_exclusive = confirm_exclusive;
    expected_token_id = expected_token_id;
    recovery_token_id = or_empty recovery_token_id;
  })

-- The name in the path.
unfoldable pub requested_name : FieldData → Option Bytes
requested_name d = get_string d (codes "name")
