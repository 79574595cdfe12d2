-- ===== src/Tests.antt =====
-- A small concrete Vault and PVE, on which the theorems are tried.
mod Credentials
mod Client
mod Engine
mod Leases
mod Mock
mod Paths
mod Roles
mod Rotations
mod RotationThreads
mod Texts
mod Threads
use Prim.Native.String.{String}
use vault_custom_secrets_eng.Base.{
  Bool, true, false, Option, none, some, List, [], ◌∷◌, ◌++◌, Bytes, codes, text_eq, ℤ, pos,
  if◌then◌else◌,
}
use vault_custom_secrets_eng.Pveapi.Errors.{Result, ok, err, failure}
use vault_custom_secrets_eng.Host.{Host}
use vault_custom_secrets_eng.Host.Data.{Config, Role, WalUser}
use vault_custom_secrets_eng.Host.Response.{Lease}
use vault_custom_secrets_eng.Host.Act.{State}
use vault_custom_secrets_eng.Creds.Handler.{lease_internal_data}

abbrev pub test_config : Config
test_config = record {
  address = codes "https://pve:8006";
  token_id = codes "root@pam!vault";
  token_secret = codes "s3cret";
  tls_skip_verify = false;
  ca_cert = [];
  default_ttl = pos 3600;
  default_max_ttl = pos 86400;
}

abbrev pub test_role : Role
test_role = record {
  group = codes "ops";
  user_prefix = codes "vault";
  realm = codes "pve";
  ttl = pos 600;
  max_ttl = pos 7200;
  mode = codes "token";
}

-- The text that the prefix and a suffix of zero bytes make.
abbrev pub test_nonce : Bytes
test_nonce = codes "vault-wal:00000000"

abbrev pub test_userid : Bytes
test_userid = codes "vault-dev-00000000@pve"

-- A configuration and the role `dev` are stored, every random byte is 0, it is 1000 s past 1970,
-- and PVE accepts everything.
abbrev pub test_host : Host
test_host = record {
  get = λ l key. if text_eq key (codes "config") then ok (some (1 ∷ [])) else ok (some (2 ∷ []));
  put = λ l key value. none;
  delete = λ l key. none;
  list = λ l prefix. ok [];
  put_wal = λ l entry. ok (codes "w1");
  delete_wal = λ l id. none;
  decode_config = λ value. ok test_config;
  encode_config = λ cfg. ok (1 ∷ []);
  decode_role = λ value. ok test_role;
  encode_role = λ role. ok (2 ∷ []);
  decode_rotation = λ value. err (failure "no rotation");
  encode_rotation = λ state. ok (3 ∷ []);
  now = λ l. 1_000_000_000_000;
  read_random = λ l n. ok (0 ∷ 0 ∷ 0 ∷ 0 ∷ 0 ∷ []);
  random_below = λ l n. ok 0;
  calculate_ttl = λ l increment ttl max start. ok (ttl, []);
  max_lease_ttl = λ l. pos 0;
  new_client = λ l cfg. none;
  get_version_info = λ l c. ok (record { version = codes "9.2.14"; repo_id = codes "a1" });
  get_permissions = λ l c. ok [];
  get_group = λ l c group. none;
  create_user = λ l c req. none;
  get_user = λ l c userid. ok (record {
    groups = codes "ops" ∷ [];
    enable = true;
    expire = pos 1660;
    comment = test_nonce;
  });
  create_token = λ l c userid tokenid. ok (codes "token secret");
  update_user = λ l c req. none;
  delete_user = λ l c userid. none;
  delete_token = λ l c userid tokenid. none;
  token_exists = λ l c userid tokenid. ok true;
}

-- A PVE that grants the engine's privileges.
abbrev pub granting_host : Host
granting_host = record test_host {
  get_permissions = λ l c. ok (
      (codes "/access/realm/pve", (codes "Realm.AllocateUser", pos 1) ∷ [])
      ∷ (codes "/access/groups", (codes "User.Modify", pos 1) ∷ (codes "Sys.Audit", pos 1) ∷ [])
      ∷ []);
}

abbrev pub start : State
start = record { client = none; log = [] }

-- The state of an engine that has used its client before.
abbrev pub warm : State
warm = record { client = some test_config; log = [] }

abbrev pub test_lease : Lease
test_lease = record {
  secret_type = codes "token";
  internal_data =
      lease_internal_data test_userid (codes "ops") (pos 7_200_000_000_000) (codes "dev")
        (pos 1660);
  ttl = pos 600_000_000_000;
  max_ttl = pos 7_200_000_000_000;
  increment = pos 0;
  issue_time = pos 0;
}

abbrev pub test_entry : WalUser
test_entry = record { user_id = test_userid; nonce = test_nonce }
