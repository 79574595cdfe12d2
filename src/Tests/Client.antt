-- ===== src/Tests/Client.antt =====
-- The theorems on the HTTP client, at a server that refuses every request with the status 500.
use vault_custom_secrets_eng.Base.{
  ◌≡◌, ◌↔◌, refl, true, false, none, [], ◌∷◌, ◌++◌, codes, pos, arith,
}
use vault_custom_secrets_eng.Unicode.{trim_space, is_space, decode_rune, all_space, runes_from}
use vault_custom_secrets_eng.Pveapi.Errors.{ok, err, failure}
use vault_custom_secrets_eng.Pveapi.Types.{CreateUserRequest, UpdateUserRequest}
use vault_custom_secrets_eng.Pveapi.Groups.{RawGroups, decode_user_groups}
use vault_custom_secrets_eng.Pveapi.Groups.Split.{NamesRaw, decode_user_groups_iff}
use vault_custom_secrets_eng.Pveapi.Wire.{Reply, Wire, failure_of}
use vault_custom_secrets_eng.Pveapi.Client.{
  HttpClient, create_user, create_token, delete_token, token_exists, update_user, delete_user,
  request_to, user_path,
}
use vault_custom_secrets_eng.Pveapi.Client.Discreet.{Discreet, IsDiscreetWire, secrets-Discreet}
use vault_custom_secrets_eng.Pveapi.Client.Answers.{
  SaysGone, Among, delete_user_iff, token_exists_iff,
}
use vault_custom_secrets_eng.Pveapi.Client.Forms.{SentUpdate, update_user-IsSafeForm}
use vault_custom_secrets_eng.Creds.{is_gone, contains_group}

-- PVE's answer to the deletion of a user that it does not have.
abbrev pub gone_reply : Reply
gone_reply = record { status = 500; body = codes "no such user"; broken = none }

abbrev list_reply : Reply
list_reply = record { status = 200; body = codes "tokens"; broken = none }

abbrev pub wire_of : Reply → Wire
wire_of reply = record {
  scheme = λ address. ok (codes "https");
  has_certs = λ pem. true;
  path_escape = λ s. s;
  new_request = λ method url. none;
  send = λ t req. ok reply;
  parse_error = λ body. none;
  parse_version = λ body. err (failure "no version");
  parse_permissions = λ body. err (failure "no permissions");
  parse_user = λ body. err (failure "no user");
  parse_token = λ body. err (failure "no token");
  parse_tokens = λ body. ok (codes "vault" ∷ codes "spare" ∷ []);
}

abbrev pub test_client : HttpClient
test_client = record {
  base_url = codes "https://pve:8006";
  token_id = codes "root@pam!vault";
  token_sec = codes "s3cret";
  insecure = false;
  root_cas = [];
}

abbrev test_user : CreateUserRequest
test_user = record {
  user_id = codes "vault-dev-00000000@pve";
  groups = codes "ops";
  expire = pos 1660;
  enable = true;
  comment = codes "vault-wal:00000000";
  password = codes "hunter2";
}

abbrev test_update : UpdateUserRequest
test_update = record {
  user_id = codes "vault-dev-00000000@pve";
  expire = pos 1660;
  groups = codes "ops";
  enable = true;
  append = true;
}

wire_of-IsDiscreetWire : IsDiscreetWire (wire_of gone_reply)
wire_of-IsDiscreetWire = record {
  new_request = λ method url e h. cc;
  send = λ t req e h. cc;
  broken = λ t req reply e h k. ground arith;
  parse_token = λ body e h. ground arith;
  parse_tokens = λ body e h. cc;
}

secrets-Discreet_example :
    Discreet (create_token (wire_of gone_reply) test_client (codes "u@pve") (codes "t") []).0
    × Discreet (delete_token (wire_of gone_reply) test_client (codes "u@pve") (codes "t") []).0
    × Discreet (token_exists (wire_of gone_reply) test_client (codes "u@pve") (codes "t") []).0
    × Discreet (create_user (wire_of gone_reply) test_client test_user []).0
secrets-Discreet_example =
    secrets-Discreet (wire_of gone_reply) test_client (codes "u@pve") (codes "t") test_user []
      wire_of-IsDiscreetWire (λ e. cc)

delete_user_iff_example :
    let req =
      request_to
        (wire_of gone_reply)
        test_client
        (codes "DELETE")
        (user_path (wire_of gone_reply) (codes "u@pve"))
        none in
    let (r, t') = delete_user (wire_of gone_reply) test_client (codes "u@pve") [] in
    (t' ≡ (req, ok gone_reply) ∷ [])
    × ((is_gone (failure_of r) ≡ true) ↔ SaysGone (wire_of gone_reply) gone_reply)
delete_user_iff_example =
    delete_user_iff (wire_of gone_reply) test_client (codes "u@pve") [] gone_reply
      (record { built = refl; sent = refl; whole = refl; short = omega arith })

token_exists_iff_example :
    let req =
      request_to
        (wire_of list_reply)
        test_client
        (codes "GET")
        (user_path (wire_of list_reply) (codes "u@pve") ++ codes "/token")
        none in
    let (r, t') =
      token_exists (wire_of list_reply) test_client (codes "u@pve") (codes "spare") [] in
    (t' ≡ (req, ok list_reply) ∷ [])
    × ((r ≡ ok true) ↔ Among (codes "spare") (codes "vault" ∷ codes "spare" ∷ []))
    × ((r ≡ ok false) ↔ (¬ Among (codes "spare") (codes "vault" ∷ codes "spare" ∷ [])))
token_exists_iff_example =
    token_exists_iff (wire_of list_reply) test_client (codes "u@pve") (codes "spare") [] list_reply
      (codes "vault" ∷ codes "spare" ∷ [])
      (record { built = refl; sent = refl; whole = refl; short = omega arith })
      (omega arith, omega arith) refl

update_user-IsSafeForm_example :
    SentUpdate
      (wire_of list_reply)
      test_client
      test_update
      []
      (update_user (wire_of list_reply) test_client test_update []).1
update_user-IsSafeForm_example =
    update_user-IsSafeForm (wire_of list_reply) test_client test_update []

decode_user_groups_iff_example :
    (contains_group (codes "ops" ∷ codes "dev" ∷ []) (codes "dev") ≡ true)
    ↔ NamesRaw (codes "dev") (RawGroups.text (codes "ops, dev"))
unfolding decode_user_groups trim_space is_space decode_rune all_space runes_from
decode_user_groups_iff_example =
    decode_user_groups_iff (RawGroups.text (codes "ops, dev")) (codes "ops" ∷ codes "dev" ∷ [])
      (codes "dev") refl
