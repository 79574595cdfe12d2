-- ===== src/Pveapi/Mock/Refine.antt =====
-- internal/pveapi/mock.go: the mock without overrides is a directory of users.
use mathlib.Core.Path.{ap₂}
use vault_custom_secrets_eng.Base.{
  ◌≡◌, refl, sym, ◌∙◌, ap, subst, Bool, true, false, Option, none, some, List, [], ◌∷◌, Bytes,
  codes, insert, if◌then◌else◌, arith,
}
use vault_custom_secrets_eng.Pveapi.Errors.{
  Error, sentinel, wrap, ok, err, user_not_found, group_not_found,
}
use vault_custom_secrets_eng.Pveapi.Types.{CreateUserRequest, UpdateUserRequest, UserInfo, validate}
use vault_custom_secrets_eng.Pveapi.Groups.{split_group_csv}
use vault_custom_secrets_eng.Creds.Trace.{without}
use vault_custom_secrets_eng.Pveapi.Mock.{
  MockClient, Method, Argument, log, is_allowed, users_of, add_user, create_user, find_user,
  get_user, updated_user, store_update, update_valid, update_user, remove_user, delete_user,
}
use vault_custom_secrets_eng.Pveapi.Mock.Directory.{
  Op, creates, reads, updates, deletes, Answer, done, found, all_known, new_user, changed_user,
  creation, reading, change, deletion, vetted_change, step, run,
}
use vault_custom_secrets_eng.Pveapi.Mock.Plain.{
  checked, requested_groups_lem, IsPlain, contents, groups_of, log-IsPlain, with_users,
  with_users-IsPlain, contents-insert, contents-without, found_as, find_default,
}

abbrev finish : Option Error × MockClient → Answer × MockClient
finish (e, m) = (done e, m)

-- A call on the mock.
unfoldable pub call : Op → MockClient → Answer × MockClient
call (creates req) m = finish (create_user req m)
call (reads userid) m = let (r, m1) = get_user userid m in (found r, m1)
call (updates req) m = finish (update_user req m)
call (deletes userid) m = finish (delete_user userid m)

-- The answers of the mock to a sequence of calls.
unfoldable pub answers : List Op → MockClient → List Answer
unfolding call
answers [] m = []
answers (op ∷ ops) m = let (answer, after) = call op m in answer ∷ answers ops after

-- What a call on the mock has to agree with.
record Simulates (op : Op) (m : MockClient) (r : Answer × MockClient) : Type 0 where
  answered : r.0 ≡ (step (groups_of m) op (contents m)).0
  holds : contents r.1 ≡ (step (groups_of m) op (contents m)).1
  keeps : r.1.groups ≡ m.groups
  plain : IsPlain r.1

-- The default of a creation, after the check of the groups.
added-Simulates :
    (req : CreateUserRequest) (m : MockClient) (known : Bool)
    → IsPlain m
    → all_known (groups_of m) (split_group_csv req.groups) ≡ known
    → Simulates (creates req) m (
        finish (
          add_user req
            (if known
              then ok (split_group_csv req.groups)
              else err (wrap "pveapi: CreateUser: group" (sentinel group_not_found)))
            (log (codes "CreateUser") (Argument.create req ∷ []) m)))
unfolding log step creation add_user new_user users_of
added-Simulates req m true p h =
    let m1 : MockClient = log (codes "CreateUser") (Argument.create req ∷ []) m in
    record {
      answered = rw h refl;
      holds = rw h (contents-insert req.user_id (new_user req) m);
      keeps = refl;
      plain =
          with_users-IsPlain (insert req.user_id (new_user req) (users_of m)) m1
            (log-IsPlain (codes "CreateUser") (Argument.create req ∷ []) m p);
    }
added-Simulates req m false p h =
    let m1 : MockClient = log (codes "CreateUser") (Argument.create req ∷ []) m in
    record {
      answered = rw h refl;
      holds = rw h refl;
      keeps = refl;
      plain =
          with_users-IsPlain (users_of m) m1
            (log-IsPlain (codes "CreateUser") (Argument.create req ∷ []) m p);
    }

create_default :
    (req : CreateUserRequest) (m : MockClient)
    → IsPlain m
    → create_user req m
      ≡ add_user req
          (checked m.groups (split_group_csv req.groups))
          (log (codes "CreateUser") (Argument.create req ∷ []) m)
unfolding create_user
create_default req m p =
    ground (arith, p.plain_create, p.creates_well, requested_groups_lem m.groups req.groups)

create-Simulates :
    (req : CreateUserRequest) (m : MockClient)
    → IsPlain m
    → Simulates (creates req) m (call (creates req) m)
unfolding call checked
create-Simulates req m p =
    subst (λ x. Simulates (creates req) m (finish x)) (sym (create_default req m p))
      (added-Simulates req m (all_known (groups_of m) (split_group_csv req.groups)) p refl)

get-Simulates :
    (userid : Bytes) (m : MockClient)
    → IsPlain m
    → Simulates (reads userid) m (call (reads userid) m)
unfolding call get_user log step find_user reading users_of
get-Simulates userid m p = record {
  answered = ground (arith, p.stocked, p.plain_get, p.gets_well);
  holds = refl;
  keeps = refl;
  plain = log-IsPlain _ _ m p;
}

-- The default of an update that is valid, with the result of the look-up.
stored-Simulates :
    (req : UpdateUserRequest) (m : MockClient) (o : Option UserInfo)
    → IsPlain m
    → validate req ≡ none
    → contents m req.user_id ≡ o
    → Simulates (updates req) m (
        finish (
          store_update req
            (found_as "pveapi: UpdateUser" o)
            (log (codes "UpdateUser") (Argument.update req ∷ []) m)))
unfolding log step vetted_change change store_update updated_user changed_user users_of
stored-Simulates req m none p v h = record {
  answered = rw (v, h) refl;
  holds = rw (v, h) refl;
  keeps = refl;
  plain = log-IsPlain (codes "UpdateUser") (Argument.update req ∷ []) m p;
}
stored-Simulates req m (some info) p v h =
    let m1 : MockClient = log (codes "UpdateUser") (Argument.update req ∷ []) m in
    record {
      answered = rw (v, h) refl;
      holds = rw (v, h) (contents-insert req.user_id (changed_user req info) m);
      keeps = refl;
      plain =
          with_users-IsPlain (insert req.user_id (changed_user req info) (users_of m)) m1
            (log-IsPlain (codes "UpdateUser") (Argument.update req ∷ []) m p);
    }

update_default :
    (req : UpdateUserRequest) (m : MockClient)
    → IsPlain m
    → update_valid req none m
      ≡ store_update req
          (found_as "pveapi: UpdateUser" (contents m req.user_id))
          (log (codes "UpdateUser") (Argument.update req ∷ []) m)
unfolding update_valid
update_default req m p =
    ground (arith, p.plain_update, find_default "pveapi: UpdateUser" m req.user_id p)

validated-Simulates :
    (req : UpdateUserRequest) (m : MockClient) (o : Option Error)
    → IsPlain m
    → validate req ≡ o
    → Simulates (updates req) m (finish (update_valid req o m))
unfolding update_valid step vetted_change
validated-Simulates req m (some e) p v = record {
  answered = rw v refl;
  holds = rw v refl;
  keeps = refl;
  plain = p;
}
validated-Simulates req m none p v =
    subst (λ x. Simulates (updates req) m (finish x)) (sym (update_default req m p))
      (stored-Simulates req m (contents m req.user_id) p v refl)

update-Simulates :
    (req : UpdateUserRequest) (m : MockClient)
    → IsPlain m
    → Simulates (updates req) m (call (updates req) m)
unfolding call update_user
update-Simulates req m p = validated-Simulates req m (validate req) p refl

-- The default of a deletion, with the result of the look-up.
removed : Bytes → Option UserInfo → Method (Option Error)
removed userid none m = (some (wrap "pveapi: DeleteUser" (sentinel user_not_found)), m)
removed userid (some info) m = (none, with_users (without userid (users_of m)) m)

removed-Simulates :
    (userid : Bytes) (m : MockClient) (o : Option UserInfo)
    → IsPlain m
    → contents m userid ≡ o
    → Simulates
        (deletes userid)
        m
        (finish (removed userid o (log (codes "DeleteUser") (Argument.text userid ∷ []) m)))
unfolding log step deletion removed users_of
removed-Simulates userid m none p h = record {
  answered = rw h refl;
  holds = rw h refl;
  keeps = refl;
  plain = log-IsPlain (codes "DeleteUser") (Argument.text userid ∷ []) m p;
}
removed-Simulates userid m (some info) p h =
    let m1 : MockClient = log (codes "DeleteUser") (Argument.text userid ∷ []) m in
    record {
      answered = rw h refl;
      holds = rw h (contents-without userid m);
      keeps = refl;
      plain =
          with_users-IsPlain (without userid (users_of m)) m1
            (log-IsPlain (codes "DeleteUser") (Argument.text userid ∷ []) m p);
    }

delete_default :
    (userid : Bytes) (m : MockClient)
    → IsPlain m
    → delete_user userid m
      ≡ removed userid (contents m userid) (log (codes "DeleteUser") (Argument.text userid ∷ []) m)
unfolding delete_user remove_user removed log users_of
delete_default userid m p = ground (arith, p.stocked, p.plain_delete, p.deletes_well)

delete-Simulates :
    (userid : Bytes) (m : MockClient)
    → IsPlain m
    → Simulates (deletes userid) m (call (deletes userid) m)
unfolding call
delete-Simulates userid m p =
    subst (λ x. Simulates (deletes userid) m (finish x)) (sym (delete_default userid m p))
      (removed-Simulates userid m (contents m userid) p refl)

call-Simulates : (op : Op) (m : MockClient) → IsPlain m → Simulates op m (call op m)
call-Simulates (creates req) m p = create-Simulates req m p
call-Simulates (reads userid) m p = get-Simulates userid m p
call-Simulates (updates req) m p = update-Simulates req m p
call-Simulates (deletes userid) m p = delete-Simulates userid m p

-- A mock with a map of users, and with no override and no injected error for the calls on users,
-- gives to every sequence of these calls the answers of the directory that the map stands for.
pub answers_refine :
    (ops : List Op) (m : MockClient)
    → IsPlain m
    → answers ops m ≡ run (groups_of m) ops (contents m)
unfolding answers run
answers_refine [] m p = refl
answers_refine (op ∷ ops) m p =
    let s : Simulates op m (call op m) = call-Simulates op m p in
    ap₂ ◌∷◌ s.answered (
      answers_refine ops (call op m).1 s.plain
      ∙ ap₂ (λ groups users. run groups ops users) (ap is_allowed s.keeps) s.holds)
