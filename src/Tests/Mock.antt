-- ===== src/Tests/Mock.antt =====
-- The refinement of the mock, at a mock with one user.
use vault_custom_secrets_eng.Base.{◌≡◌, refl, true, none, some, [], ◌∷◌, codes, pos}
use vault_custom_secrets_eng.Pveapi.Types.{UserInfo}
use vault_custom_secrets_eng.Pveapi.Mock.{MockClient}
use vault_custom_secrets_eng.Pveapi.Mock.Directory.{reads, deletes, run}
use vault_custom_secrets_eng.Pveapi.Mock.Plain.{IsPlain, contents, groups_of}
use vault_custom_secrets_eng.Pveapi.Mock.Refine.{answers, answers_refine}

abbrev stored_user : UserInfo
stored_user = record {
  groups = codes "ops" ∷ [];
  enable = true;
  expire = pos 1660;
  comment = codes "";
}

abbrev test_mock : MockClient
test_mock = record {
  call_log = [];
  groups = some ((codes "ops", true) ∷ []);
  users = some ((codes "u@pve", stored_user) ∷ []);
  get_version_fn = none;
  get_version_info_fn = none;
  get_permissions_fn = none;
  get_group_fn = none;
  create_user_fn = none;
  get_user_fn = none;
  create_token_fn = none;
  update_user_fn = none;
  delete_user_fn = none;
  delete_token_fn = none;
  token_exists_fn = none;
  create_user_error = none;
  get_user_error = none;
  create_token_error = none;
  delete_user_error = none;
  delete_token_error = none;
  token_exists_result = none;
  get_permissions_result = none;
  create_token_result = [];
}

test_mock-IsPlain : IsPlain test_mock
test_mock-IsPlain = record {
  users = (codes "u@pve", stored_user) ∷ [];
  stocked = refl;
  plain_create = refl;
  plain_get = refl;
  plain_update = refl;
  plain_delete = refl;
  creates_well = refl;
  gets_well = refl;
  deletes_well = refl;
}

answers_refine_example :
    let ops = reads (codes "u@pve") ∷ deletes (codes "u@pve") ∷ reads (codes "u@pve") ∷ [] in
    answers ops test_mock ≡ run (groups_of test_mock) ops (contents test_mock)
answers_refine_example =
    answers_refine (reads (codes "u@pve") ∷ deletes (codes "u@pve") ∷ reads (codes "u@pve") ∷ [])
      test_mock test_mock-IsPlain
