-- ===== src/Pveapi/Interface.antt =====
-- The interface `Client` of internal/pveapi/client.go, with what its comments promise of `UpdateUser`,
-- and its two implementations.
use vault_custom_secrets_eng.Base.{◌≡◌, ap, Bool, Option, some, Bytes}
use vault_custom_secrets_eng.Pveapi.Errors.{Error, Result}
use vault_custom_secrets_eng.Pveapi.Types.{
  CreateUserRequest, UpdateUserRequest, UserInfo, VersionInfo, validate,
}
use vault_custom_secrets_eng.Pveapi.Permissions.{PermissionTree}
use vault_custom_secrets_eng.Pveapi.Wire.{Trace, Wire, failure_of}
use vault_custom_secrets_eng.Pveapi.Client.{HttpClient}
use vault_custom_secrets_eng.Pveapi.Client
use vault_custom_secrets_eng.Pveapi.Mock.{MockClient}
use vault_custom_secrets_eng.Pveapi.Mock

-- A method: its answer, and the state after it.
abbrev pub Method : Type 0 → Type 0 → Type 0
Method S A = S → A × S

-- `Client`, on a state that its calls change.
pub record PveClient (S : Type 0) : Type 0 where
  pub get_version : Method S (Result Bytes)
  pub get_version_info : Method S (Result VersionInfo)
  pub get_permissions : Method S (Result PermissionTree)
  pub get_group : Bytes → Method S (Option Error)
  pub create_user : CreateUserRequest → Method S (Option Error)
  pub get_user : Bytes → Method S (Result UserInfo)
  pub create_token : Bytes → Bytes → Method S (Result Bytes)
  pub update_user : UpdateUserRequest → Method S (Option Error)
  pub delete_user : Bytes → Method S (Option Error)
  pub delete_token : Bytes → Bytes → Method S (Option Error)
  pub token_exists : Bytes → Bytes → Method S (Result Bool)
  -- an update that would take the expiry, the groups or the enabled state away is refused, and
  -- nothing is sent
  pub refuses_update :
      (req : UpdateUserRequest) (e : Error) (s : S)
      → validate req ≡ some e
      → update_user req s ≡ (some e, s)

abbrev told : {A : Type 0} → (Trace → Result A × Trace) → Method Trace (Option Error)
told m t = let (r, t') = m t in (failure_of r, t')

-- `httpClient`, on the exchanges with its server.
unfoldable pub http : Wire → HttpClient → PveClient Trace
unfolding Client.update_user Client.send_update
http wire c = record {
  get_version = Client.get_version wire c;
  get_version_info = Client.get_version_info wire c;
  get_permissions = Client.get_permissions wire c;
  get_group = λ group. told (Client.get_group wire c group);
  create_user = λ req. told (Client.create_user wire c req);
  get_user = Client.get_user wire c;
  create_token = Client.create_token wire c;
  update_user = λ req. told (Client.update_user wire c req);
  delete_user = λ userid. told (Client.delete_user wire c userid);
  delete_token = λ userid tokenid. told (Client.delete_token wire c userid tokenid);
  token_exists = Client.token_exists wire c;
  refuses_update = λ req e t h. ap (λ r. told (Client.send_update wire c req r) t) h;
}

-- `MockClient`, on itself.
unfoldable pub mock : PveClient MockClient
unfolding Mock.update_user Mock.update_valid
mock = record {
  get_version = Mock.get_version;
  get_version_info = Mock.get_version_info;
  get_permissions = Mock.get_permissions;
  get_group = Mock.get_group;
  create_user = Mock.create_user;
  get_user = Mock.get_user;
  create_token = Mock.create_token;
  update_user = Mock.update_user;
  delete_user = Mock.delete_user;
  delete_token = Mock.delete_token;
  token_exists = Mock.token_exists;
  refuses_update = λ req e m h. ap (λ r. Mock.update_valid req r m) h;
}
