-- ===== src/Pveapi/Client.antt =====
-- internal/pveapi/client.go: the HTTP client. `doRequest` also returns the status, which no caller
-- reads.
pub mod Discreet
pub mod Answers
pub mod Forms
use Prim.Native.String.{String}
use vault_custom_secrets_eng.Base.{
  ℕ, Bool, true, false, not, ◌||◌, Option, none, some, List, [], ◌∷◌, ◌++◌, Bytes, codes, is_empty,
  length, text_eq, trim_right, ℤ, pos, eqb_ℤ, ltb, leb, if◌then◌else◌, ◌^◌,
}
use vault_custom_secrets_eng.Pveapi.Errors.{
  Error, Sentinel, sentinel, failure, quoting, wrap, response_too_large, Result, ok, err,
}
use vault_custom_secrets_eng.Pveapi.Types.{
  CreateUserRequest, UpdateUserRequest, UserInfo, VersionInfo, validate,
}
use vault_custom_secrets_eng.Pveapi.Permissions.{PermissionTree}
use vault_custom_secrets_eng.Pveapi.Groups.{decode_user_groups}
use vault_custom_secrets_eng.Pveapi.Classify.{classify_pve_error, classify_token_pve_error}
use vault_custom_secrets_eng.Pveapi.Wire.{
  Form, Request, Reply, UserData, Trace, Wire, Call, proceed, ◌>>=◌, lift, in_context, named,
}
use vault_custom_secrets_eng.Pveapi.Decimal.{decimal}

abbrev pub max_response_body_bytes : ℕ
max_response_body_bytes = 2 ^ 20

pub data EndpointKind : Type 0 where
  standard token : EndpointKind

-- `ClientConfig`
pub record ClientConfig : Type 0 where
  pub address : Bytes
  pub token_id : Bytes
  pub token_secret : Bytes
  pub tls_skip_verify : Bool
  pub ca_cert : Bytes

-- `httpClient`, with what of the configuration its transport keeps.
pub record HttpClient : Type 0 where
  pub base_url : Bytes
  pub token_id : Bytes
  pub token_sec : Bytes
  pub insecure : Bool
  pub root_cas : Bytes

-- `authHeader`
unfoldable pub auth_header : HttpClient → Bytes
auth_header c = codes "PVEAPIToken=" ++ (c.token_id ++ (codes "=" ++ c.token_sec))

-- `readResponseBody`: one byte more than the limit is read at most, so an error behind that is not
-- met.
unfoldable pub read_response_body : Reply → Result Bytes
read_response_body reply =
    if ltb max_response_body_bytes (length reply.body)
    then err (wrap "exceeds the limit" (sentinel response_too_large))
    else elim reply.broken [ some e ↦ err e | none ↦ ok reply.body ]

-- The error of a status that is not 2xx: a sentinel where there is one.
unfoldable pub refused : Bool → Bytes → Option Sentinel → Error
refused redact body (some s) = sentinel s
refused true body none = failure "pveapi: returned HTTP (body redacted)"
refused false body none = quoting "pveapi: returned HTTP" body

-- The classification for the kind of endpoint.
unfoldable pub classify_for : EndpointKind → ℕ → Bytes → Option Sentinel → Option Sentinel
classify_for EndpointKind.standard status body classified = classified
classify_for EndpointKind.token status body classified =
    classify_token_pve_error status body classified

abbrev flag : Bool → Bytes
flag true = codes "1"
flag false = codes "0"

-- A field that is set only where it has a value.
abbrev set_text : Bytes → Bytes → Form
set_text key [] = []
set_text key (b ∷ s) = (key, b ∷ s) ∷ []

-- The form of `CreateUser`.
unfoldable pub create_user_form : CreateUserRequest → Form
create_user_form req =
    (codes "userid", req.user_id)
    ∷ (codes "groups", req.groups)
    ∷ (codes "expire", decimal req.expire)
    ∷ (codes "enable", flag req.enable)
    ∷ (set_text (codes "comment") req.comment ++ set_text (codes "password") req.password)

-- The form of `UpdateUser`.
unfoldable pub update_user_form : UpdateUserRequest → Form
update_user_form req =
    (codes "expire", decimal req.expire)
    ∷ (codes "groups", req.groups)
    ∷ (codes "enable", flag req.enable)
    ∷ (if req.append then (codes "append", codes "1") ∷ [] else [])

-- The loop of `TokenExists`.
unfoldable pub has_token : List Bytes → Bytes → Bool
has_token [] tokenid = false
has_token (t ∷ tokens) tokenid = text_eq t tokenid || has_token tokens tokenid

-- The user that `GetUser` returns.
unfoldable pub user_info : UserData → List Bytes → UserInfo
user_info user groups = record {
  groups = groups;
  enable = not (eqb_ℤ user.enable (pos 0));
  expire = user.expire;
  comment = user.comment;
}

-- `resp.Data.Value`, which must not be empty.
unfoldable pub token_value : Bytes → Result Bytes
token_value [] = err (failure "pveapi: CreateToken: empty token secret in response")
token_value (b ∷ s) = ok (b ∷ s)

module _ (wire : Wire) where
  -- `NewClient`
  unfoldable pub new_client : ClientConfig → Result HttpClient
  new_client cfg = elim (wire.scheme cfg.address) [
    | err e ↦ err (wrap "pveapi: invalid address" e)
    | ok scheme ↦
        if not (text_eq scheme (codes "https"))
        then err (failure "pveapi: address must use https:// scheme")
        else if not (is_empty cfg.ca_cert || wire.has_certs cfg.ca_cert)
        then err (failure "pveapi: failed to parse ca_cert PEM")
        else ok (record {
          base_url = trim_right b'/' cfg.address ++ codes "/api2/json";
          token_id = cfg.token_id;
          token_sec = cfg.token_secret;
          insecure = cfg.tls_skip_verify;
          root_cas = cfg.ca_cert;
        })
  ]

  -- What follows the reading of the body.
  unfoldable pub judge : Bool → EndpointKind → ℕ → Result Bytes → Result Bytes
  unfolding refused classify_for
  judge redact kind status (err e) = err (wrap "pveapi: read response body" e)
  judge redact kind status (ok body) =
      if ltb status 200 || leb 300 status
      then err (
          refused redact body (
            classify_for kind status body (classify_pve_error status body (wire.parse_error body))))
      else ok body

  -- What follows the answer of `http.Client.Do`.
  unfoldable pub receive : Bool → EndpointKind → Result Reply → Result Bytes
  unfolding judge read_response_body
  receive redact kind (err e) = err (wrap "pveapi: request" e)
  receive redact kind (ok reply) = judge redact kind reply.status (read_response_body reply)

  unfoldable pub request_to : HttpClient → Bytes → Bytes → Option Form → Request
  unfolding auth_header
  request_to c method path form = record {
    method = method;
    url = c.base_url ++ path;
    authorization = auth_header c;
    form = form;
  }

  -- What follows `http.NewRequestWithContext`.
  unfoldable pub exchange : Request → Bool → EndpointKind → Option Error → Call Bytes
  unfolding receive
  exchange req redact kind (some e) t = (err (wrap "pveapi: build request" e), t)
  exchange req redact kind none t =
      let answer = wire.send t req in (receive redact kind answer, (req, answer) ∷ t)

  -- `doRequest`
  unfoldable pub do_request :
      HttpClient → Bytes → Bytes → Option Form → Bool → EndpointKind → Call Bytes
  unfolding exchange request_to
  do_request c method path form redact kind =
      exchange (request_to c method path form) redact kind
        (wire.new_request method (c.base_url ++ path))

  unfoldable pub user_path : Bytes → Bytes
  user_path userid = codes "/access/users/" ++ wire.path_escape userid

  unfoldable pub token_path : Bytes → Bytes → Bytes
  unfolding user_path
  token_path userid tokenid = user_path userid ++ (codes "/token/" ++ wire.path_escape tokenid)

  module _ (c : HttpClient) where
    -- `GetVersionInfo`
    unfoldable pub get_version_info : Call VersionInfo
    unfolding do_request
    get_version_info = do
      body ← do_request c (codes "GET") (codes "/version") none false EndpointKind.standard
      named "pveapi: parse GET /version response" (lift (wire.parse_version body))

    -- `GetVersion`
    unfoldable pub get_version : Call Bytes
    unfolding get_version_info
    get_version = do info ← get_version_info; lift (ok info.version)

    -- `GetPermissions`
    unfoldable pub get_permissions : Call PermissionTree
    unfolding do_request
    get_permissions = do
      body ← named "pveapi: GetPermissions" (
          do_request c (codes "GET") (codes "/access/permissions") none false EndpointKind.standard)
      named "pveapi: GetPermissions: parse response" (lift (wire.parse_permissions body))

    -- `GetGroup`
    unfoldable pub get_group : Bytes → Call Bytes
    unfolding do_request
    get_group group = named "pveapi: GetGroup" (
        do_request c (codes "GET") (codes "/access/groups/" ++ wire.path_escape group) none false
          EndpointKind.standard)

    -- `CreateUser`; a body is not quoted where there is a password.
    unfoldable pub create_user : CreateUserRequest → Call Bytes
    unfolding do_request create_user_form
    create_user req = named "pveapi: CreateUser" (
        do_request c (codes "POST") (codes "/access/users") (some (create_user_form req))
          (not (is_empty req.password)) EndpointKind.standard)

    -- `GetUser`; the groups are decoded within `json.Unmarshal`.
    unfoldable pub get_user : Bytes → Call UserInfo
    unfolding do_request user_info user_path
    get_user userid = do
      body ←
          named "pveapi: GetUser"
            (do_request c (codes "GET") (user_path userid) none false EndpointKind.standard)
      user ← named "pveapi: GetUser: parse response" (lift (wire.parse_user body))
      groups ← named "pveapi: GetUser: parse response" (lift (decode_user_groups user.groups))
      lift (ok (user_info user groups))

    -- `CreateToken`
    unfoldable pub create_token : Bytes → Bytes → Call Bytes
    unfolding do_request token_value token_path
    create_token userid tokenid = do
      body ← named "pveapi: CreateToken" (
          do_request c (codes "POST") (token_path userid tokenid)
            (some ((codes "privsep", codes "0") ∷ [])) true EndpointKind.standard)
      value ← named "pveapi: CreateToken: parse response" (lift (wire.parse_token body))
      lift (token_value value)

    -- What follows the validation.
    unfoldable pub send_update : UpdateUserRequest → Option Error → Call Bytes
    unfolding do_request update_user_form user_path
    send_update req (some e) = lift (err e)
    send_update req none = named "pveapi: UpdateUser" (
        do_request c (codes "PUT") (user_path req.user_id) (some (update_user_form req)) false
          EndpointKind.standard)

    -- `UpdateUser`
    unfoldable pub update_user : UpdateUserRequest → Call Bytes
    unfolding send_update
    update_user req = send_update req (validate req)

    -- `DeleteUser`
    unfoldable pub delete_user : Bytes → Call Bytes
    unfolding do_request user_path
    delete_user userid =
        named "pveapi: DeleteUser"
          (do_request c (codes "DELETE") (user_path userid) none false EndpointKind.standard)

    -- `DeleteToken`
    unfoldable pub delete_token : Bytes → Bytes → Call Bytes
    unfolding do_request token_path
    delete_token userid tokenid =
        named "pveapi: DeleteToken"
          (do_request c (codes "DELETE") (token_path userid tokenid) none true EndpointKind.token)

    -- `TokenExists`
    unfoldable pub token_exists : Bytes → Bytes → Call Bool
    unfolding do_request has_token user_path
    token_exists userid tokenid = do
      body ← named "pveapi: TokenExists" (
          do_request c (codes "GET") (user_path userid ++ codes "/token") none true
            EndpointKind.token)
      tokens ← named "pveapi: TokenExists: parse response" (lift (wire.parse_tokens body))
      lift (ok (has_token tokens tokenid))
