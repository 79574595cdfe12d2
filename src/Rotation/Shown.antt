-- ===== src/Rotation/Shown.antt =====
-- `validateReplacement` of path_rotate_root.go: it accepts a replacement only after all calls that show
-- its rights.
use vault_custom_secrets_eng.Base.{
  ◌≡◌, inl, inr, refl, sym, subst, Bool-cases, true, false, Bool, Option, none, some, not, List, [],
  ◌∷◌, ◌++◌, Bytes, codes, arith,
}
use vault_custom_secrets_eng.Pveapi.Errors.{Error, failure, wrap, Result, ok, err, Result-cases}
use vault_custom_secrets_eng.Pveapi.Types.{VersionInfo}
use vault_custom_secrets_eng.Pveapi.Permissions.{PermissionTree, has_privilege}
use vault_custom_secrets_eng.Host.{Host}
use vault_custom_secrets_eng.Host.Data.{Config, Role}
use vault_custom_secrets_eng.Host.Event.{Event, Log}
use vault_custom_secrets_eng.Host.Act.{
  State, Flow, next, stop, continue, or_return, return_if, ◌>>◌, ◌>>=◌, pure, result, Act, try,
  get_version_info, token_exists, get_permissions, storage_list,
}
use vault_custom_secrets_eng.Roles.{get_role, normalise_mode}
use vault_custom_secrets_eng.Rotation.{split_token_id}
use vault_custom_secrets_eng.Rotation.Replacement.{
  realm_allowed, check_realms, validate_replacement,
}
use vault_custom_secrets_eng.Rotation.Validated.{RealmsAllowed, HasShown, Shows}

-- The loop goes on with a state as described, or stops with an error.
abbrev Passes : (State → Type 0) → Flow (Option Error) Unit × State → Type 0
Passes P (next u, s) = P s
Passes P (stop none, s) = ⊥
Passes P (stop (some e), s) = Unit

-- What the reading of a role leaves.
abbrev IsRead : Host → Bytes → Log → Result (Option Role) × State → Type 0
IsRead host name l (ok none, s) = s.log ≡ Event.got (codes "roles/" ++ name) (ok none) ∷ l
IsRead host name l (ok (some role), s) =
    (value : Bytes) × (stored : Role) × ((host.decode_role value ≡ ok stored)
      × (role.realm ≡ stored.realm)
      × (s.log ≡ Event.got (codes "roles/" ++ name) (ok (some value)) ∷ l))
IsRead host name l (err e, s) = Unit

normalise_mode-realm : (role : Role) → (normalise_mode role).realm ≡ role.realm
unfolding normalise_mode
normalise_mode-realm role = ground arith

Passes-map :
    (P P' : State → Type 0) (x : Flow (Option Error) Unit × State)
    → ((s : State) → P s → P' s)
    → Passes P x
    → Passes P' x
Passes-map P P' (next u, s) f h = f s h
Passes-map P P' (stop none, s) f h = absurd h
Passes-map P P' (stop (some e), s) f h = tt

-- A statement goes on as described, or stops with an error.
abbrev Goes : {A : Type 0} → (A → State → Type 0) → Flow (Option Error) A × State → Type 0
Goes P (next v, s) = P v s
Goes P (stop none, s) = ⊥
Goes P (stop (some e), s) = Unit

Shows-after :
    {A : Type 0} (Q : A → State → Type 0) (P : Log → Type 0) (x : Flow (Option Error) A × State)
    (k : A → Act (Option Error) (Option Error))
    → Goes Q x
    → ((v : A) (s : State) → Q v s → Shows P (result (k v s).0, (k v s).1))
    → let y = continue x.0 k x.1 in Shows P (result y.0, y.1)
Shows-after Q P (next v, s) k h rest = rest v s h
Shows-after Q P (stop none, s) k h rest = absurd h
Shows-after Q P (stop (some e), s) k h rest = tt

unless-Goes :
    (b : Bool) (e : Error) (s : State)
    → Goes (λ u s'. (b ≡ false) × (s'.log ≡ s.log)) (return_if b (some e) s)
unless-Goes true e s = tt
unless-Goes false e s = (refl, refl)

true_of_not : (b : Bool) → not b ≡ false → b ≡ true
true_of_not true e = refl
true_of_not false e = cc

module _ (host : Host) where
  -- The rest of `validateReplacement`, from the permissions on.
  abbrev check_tree : PermissionTree → Act (Option Error) (Option Error)
  check_tree tree = do
    return_if (not (has_privilege tree (codes "/access/groups") (codes "User.Modify")))
        (some (failure "replacement token lacks User.Modify at /access/groups"))
    return_if (not (has_privilege tree (codes "/access/groups") (codes "Sys.Audit")))
        (some (failure "replacement token lacks Sys.Audit at /access/groups"))
    names ←
        try (storage_list host (codes "roles/"))
          (λ e. some (wrap "list roles for replacement validation" e))
    check_realms host tree names
    pure none

  get_role-IsRead : (name : Bytes) (s : State) → IsRead host name s.log (get_role host name s)
  unfolding get_role
  get_role-IsRead name s = elim (Result-cases (host.get s.log (codes "roles/" ++ name))) [
    | inl (none, missing) ↦ rw missing refl
    | inl (some value, found) ↦ elim (Result-cases (host.decode_role value)) [
      | inl (role, decoded) ↦
          rw (found, decoded) (value, role, (decoded, normalise_mode-realm role, refl))
      | inr (e, broken) ↦ rw (found, broken) tt
    ]
    | inr (e, failed) ↦ rw failed tt
  ]

  realm_allowed-Passes :
      (tree : PermissionTree) (name : Bytes) (names : List Bytes) (x : Result (Option Role) × State)
      (l : Log)
      → IsRead host name l x
      → Passes
          (λ s'. RealmsAllowed host tree names x.1.log s'.log)
          (check_realms host tree names x.1)
      → let y = or_return x.0 some x.1 in
        Passes
          (λ s'. RealmsAllowed host tree (name ∷ names) l s'.log)
          (continue y.0
            (λ role.
              return_if
                (not (realm_allowed tree role))
                (some (failure "replacement token lacks Realm.AllocateUser"))
              >> check_realms host tree names)
            y.1)
  unfolding realm_allowed
  realm_allowed-Passes tree name names (ok none, s) l read rest =
      Passes-map _ _ (check_realms host tree names s)
        (λ s' h. (none, tt, subst (λ l'. RealmsAllowed host tree names l' s'.log) read h)) rest
  realm_allowed-Passes tree name names (ok (some role), s) l
        (value, stored, (decoded, same, logged)) rest =
      elim (Bool-cases
        (has_privilege tree (codes "/access/realm/" ++ role.realm) (codes "Realm.AllocateUser"))) [
          | inl allowed ↦ rw (allowed) (
              Passes-map _ _ (check_realms host tree names s)
                (λ s' h. (
                  some value,
                  (stored, decoded, rw (sym same) allowed),
                  subst (λ l'. RealmsAllowed host tree names l' s'.log) logged h,
                ))
                rest)
          | inr refused ↦ rw refused tt
        ]
  realm_allowed-Passes tree name names (err e, s) l read rest = tt

  check_realms-Passes :
      (tree : PermissionTree) (names : List Bytes) (s : State)
      → Passes (λ s'. RealmsAllowed host tree names s.log s'.log) (check_realms host tree names s)
  unfolding check_realms
  check_realms-Passes tree [] s = refl
  check_realms-Passes tree (name ∷ names) s =
      realm_allowed-Passes tree name names (get_role host name s) s.log (get_role-IsRead name s)
        (check_realms-Passes tree names (get_role host name s).1)

  version-Goes :
      (cfg : Config) (f : Error → Error) (s : State)
      → Goes
          (λ v s'. s'.log ≡ Event.version_read cfg (ok v) ∷ s.log)
          (try (get_version_info host cfg) (λ e. some (f e)) s)
  unfolding get_version_info
  version-Goes cfg f s = ground arith

  exists-Goes :
      (cfg : Config) (user token : Bytes) (f : Error → Error) (s : State)
      → Goes
          (λ v s'. s'.log ≡ Event.token_sought cfg user token (ok v) ∷ s.log)
          (try (token_exists host cfg user token) (λ e. some (f e)) s)
  unfolding token_exists
  exists-Goes cfg user token f s = ground arith

  permissions-Goes :
      (cfg : Config) (f : Error → Error) (s : State)
      → Goes
          (λ v s'. s'.log ≡ Event.permissions_read cfg (ok v) ∷ s.log)
          (try (get_permissions host cfg) (λ e. some (f e)) s)
  unfolding get_permissions
  permissions-Goes cfg f s = ground arith

  list-Goes :
      (key : Bytes) (f : Error → Error) (s : State)
      → Goes
          (λ v s'. s'.log ≡ Event.listed key (ok v) ∷ s.log)
          (try (storage_list host key) (λ e. some (f e)) s)
  unfolding storage_list
  list-Goes key f s = ground arith

  realms-Goes :
      (tree : PermissionTree) (names : List Bytes) (s : State)
      → Goes (λ u s'. RealmsAllowed host tree names s.log s'.log) (check_realms host tree names s)
  realms-Goes tree names s = check_realms-Passes tree names s

  shown_by_tree :
      (cfg : Config) (user token : Bytes) (version : VersionInfo) (tree : PermissionTree) (l : Log)
      (s : State)
      → s.log
        ≡ Event.permissions_read cfg (ok tree)
          ∷ Event.token_sought cfg user token (ok true)
          ∷ Event.version_read cfg (ok version)
          ∷ l
      → let y = check_tree tree s in Shows (HasShown host cfg user token l) (result y.0, y.1)
  shown_by_tree cfg user token version tree l s e =
      Shows-after _ _
        (return_if (not (has_privilege tree (codes "/access/groups") (codes "User.Modify"))) _ s) _
        (unless-Goes _ _ s)
        λ u s1 (modifies, h1).
          Shows-after _ _
            (return_if (not (has_privilege tree (codes "/access/groups") (codes "Sys.Audit"))) _ s1)
            _ (unless-Goes _ _ s1)
            λ u' s2 (audits, h2).
              Shows-after _ _ (try (storage_list host (codes "roles/")) _ s2) _
                (list-Goes (codes "roles/") _ s2)
                λ names s3 h3.
                  Shows-after _ _ (check_realms host tree names s3) _ (realms-Goes tree names s3)
                    λ u'' s4 h4. record {
                      version = version;
                      tree = tree;
                      names = names;
                      modifies = true_of_not _ modifies;
                      audits = true_of_not _ audits;
                      realms =
                          subst (λ l'. RealmsAllowed host tree names l' s4.log)
                            (rw (h3, h2, h1, e) refl) h4;
                    }

  pub validate_replacement-Shows :
      (cfg : Config) (old user token : Bytes) (s : State)
      → split_token_id old ≡ ok (user, token)
      → Shows (HasShown host cfg user token s.log) (validate_replacement host cfg old s)
  unfolding validate_replacement
  validate_replacement-Shows cfg old user token s split = rw split (
      Shows-after _ _ (try (get_version_info host cfg) _ s) _ (version-Goes cfg _ s)
        λ version s1 h1.
          Shows-after _ _ (try (token_exists host cfg user token) _ s1) _
            (exists-Goes cfg user token _ s1)
            λ exists s2 h2.
              Shows-after _ _ (return_if (not exists) _ s2) _ (unless-Goes (not exists) _ s2)
                λ u s3 (there, h3).
                  Shows-after _ _ (try (get_permissions host cfg) _ s3) _
                    (permissions-Goes cfg _ s3)
                    λ tree s4 h4.
                      shown_by_tree cfg user token version tree s.log s4
                        (rw (h4, h3, h2, h1, true_of_not exists there) refl))
