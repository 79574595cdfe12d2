-- ===== src/Host/Response.antt =====
-- What a handler returns: Vault's `logical.Response`, its lease (`logical.Secret`) and the values of
-- a `map[string]interface{}`.
use Prim.Native.String.{String}
use vault_custom_secrets_eng.Base.{Bool, Option, List, Bytes, ℤ}
use vault_custom_secrets_eng.Pveapi.Errors.{Result}

-- A dynamic value with its Go type. A `float64` is given by `int64(v)`, all that the code reads.
pub data Value : Type 0 where
  str : Bytes → Value
  bool : Bool → Value
  int int64 float64 : ℤ → Value
  other : Value

abbrev pub Values : Type 0
Values = List (Bytes × Value)

pub record Lease : Type 0 where
  pub secret_type : Bytes
  pub internal_data : Values
  pub ttl : ℤ
  pub max_ttl : ℤ
  pub increment : ℤ
  pub issue_time : ℤ

pub data Response : Type 0 where
  -- `logical.ErrorResponse`
  refusal : String → Response
  -- data and warnings
  reply : Values → List String → Response
  -- a lease with its data and warnings
  leased : Lease → Values → List String → Response
  -- `logical.ListResponse`
  keys : List Bytes → Response

-- `(*logical.Response, error)`, with `none` for a nil response.
abbrev pub Outcome : Type 0
Outcome = Result (Option Response)
