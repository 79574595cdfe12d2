-- ===== src/Roles/Valid.antt =====
-- What `roleWrite` of path_roles.go accepts as a role.
use vault_custom_secrets_eng.Base.{
  ◌≡◌, ◌≢◌, ◌≤◌, ◌⊎◌, inl, inr, true, false, none, [], ◌∷◌, Bytes, codes, All, length, is_empty,
  text_eq, text_eq→eq, pos, ◌≤ℤ◌, arith,
}
use vault_custom_secrets_eng.Host.Data.{Role}
use vault_custom_secrets_eng.Host.Response.{Outcome}
use vault_custom_secrets_eng.Host.Act.{State, Flow, next, stop}
use vault_custom_secrets_eng.Host.Chain.{EndsWith, EndsWith-after}
use vault_custom_secrets_eng.Userid.{
  build_user_id, validate_user_component, validate_realm_component, validate_length_budget,
}
use vault_custom_secrets_eng.Userid.Component.{
  IsUserByte, validate_user_component_iff, validate_user_component-All,
}
use vault_custom_secrets_eng.Userid.Realm.{IsRealm, validate_realm_component_iff}
use vault_custom_secrets_eng.Userid.Budget.{validate_length_budget_iff}
use vault_custom_secrets_eng.Roles.{mode_token, mode_password}
use vault_custom_secrets_eng.Roles.Write.{check_role, check_limits, check_mode, check_names}

-- The role can be issued from: its mode is known, a password role is in the realm pve, the parts of
-- its userids hold none of the separators, and the userids fit.
pub record IsValidRole (name : Bytes) (role : Role) : Type 0 where
  pub has_group : role.group ≢ []
  pub ttl_natural : pos 0 ≤ℤ role.ttl
  pub max_ttl_natural : pos 0 ≤ℤ role.max_ttl
  pub ordered : (role.ttl ≤ℤ pos 0) ⊎ ((role.max_ttl ≤ℤ pos 0) ⊎ (role.ttl ≤ℤ role.max_ttl))
  pub known_mode :
      (role.mode ≡ codes "token") ⊎ ((role.mode ≡ codes "password") × (role.realm ≡ codes "pve"))
  pub realm_valid : IsRealm role.realm
  pub has_prefix : role.user_prefix ≢ []
  pub prefix_clean : All IsUserByte role.user_prefix
  pub has_name : name ≢ []
  pub name_clean : All IsUserByte name
  pub fits :
      (suffix : Bytes)
      → length suffix ≡ 8
      → length (build_user_id role.user_prefix name suffix role.realm) ≤ 64

-- The same, by the validators' answers, for each part of the checks.
pub record HasLimits (role : Role) : Type 0 where
  pub has_group : is_empty role.group ≡ false
  pub ttl_natural : pos 0 ≤ℤ role.ttl
  pub max_ttl_natural : pos 0 ≤ℤ role.max_ttl
  pub ordered : (role.ttl ≤ℤ pos 0) ⊎ ((role.max_ttl ≤ℤ pos 0) ⊎ (role.ttl ≤ℤ role.max_ttl))

pub record HasMode (role : Role) : Type 0 where
  pub known_mode :
      (text_eq role.mode mode_token ≡ true)
      ⊎ ((text_eq role.mode mode_password ≡ true) × (text_eq role.realm (codes "pve") ≡ true))
  pub realm_valid : validate_realm_component role.realm ≡ none

pub record HasNames (name : Bytes) (role : Role) : Type 0 where
  pub prefix_valid : validate_user_component role.user_prefix ≡ none
  pub name_valid : validate_user_component name ≡ none
  pub budget_valid : validate_length_budget role.user_prefix name role.realm ≡ none

modes_by_eq :
    (mode realm : Bytes)
    → (text_eq mode mode_token ≡ true)
      ⊎ ((text_eq mode mode_password ≡ true) × (text_eq realm (codes "pve") ≡ true))
    → (mode ≡ mode_token) ⊎ ((mode ≡ mode_password) × (realm ≡ codes "pve"))
modes_by_eq mode realm (inl h) = inl (text_eq→eq mode mode_token h)
modes_by_eq mode realm (inr (h, k)) =
    inr (text_eq→eq mode mode_password h, text_eq→eq realm (codes "pve") k)

not_empty : (s : Bytes) → is_empty s ≡ false → s ≢ []
not_empty [] h = cc
not_empty (x ∷ s) h = λ e. cc

pub IsValidRole-of_checks :
    (name : Bytes) (role : Role)
    → HasLimits role
    → HasMode role
    → HasNames name role
    → IsValidRole name role
IsValidRole-of_checks name role l m n = record {
  has_group = not_empty role.group l.has_group;
  ttl_natural = l.ttl_natural;
  max_ttl_natural = l.max_ttl_natural;
  ordered = l.ordered;
  known_mode = modes_by_eq role.mode role.realm m.known_mode;
  realm_valid = (validate_realm_component_iff role.realm).0 m.realm_valid;
  has_prefix = ((validate_user_component_iff role.user_prefix).0 n.prefix_valid).0;
  prefix_clean = validate_user_component-All role.user_prefix n.prefix_valid;
  has_name = ((validate_user_component_iff name).0 n.name_valid).0;
  name_clean = validate_user_component-All name n.name_valid;
  fits = λ suffix h.
      (validate_length_budget_iff role.user_prefix name suffix role.realm h).0 n.budget_valid;
}

EndsWith-map :
    {A B : Type 0} (Q : State → Type 0) (f : A → B) (x : Flow Outcome Unit × State)
    → EndsWith (λ (u : Unit) s. A × Q s) Q x
    → EndsWith (λ (u : Unit) s. B × Q s) Q x
EndsWith-map Q f (next u, s) h = (f h.0, h.1)
EndsWith-map Q f (stop r, s) h = h

module _ (Q : State → Type 0) where
  check_limits-EndsWith :
      (role : Role) (s : State)
      → Q s
      → EndsWith (λ (u : Unit) s'. HasLimits role × Q s') Q (check_limits role s)
  unfolding check_limits
  check_limits-EndsWith role s q = ground arith

  check_mode-EndsWith :
      (role : Role) (s : State)
      → Q s
      → EndsWith (λ (u : Unit) s'. HasMode role × Q s') Q (check_mode role s)
  unfolding check_mode
  check_mode-EndsWith role s q = ground arith

  check_names-EndsWith :
      (name : Bytes) (role : Role) (s : State)
      → Q s
      → EndsWith (λ (u : Unit) s'. HasNames name role × Q s') Q (check_names name role s)
  unfolding check_names
  check_names-EndsWith name role s q = ground arith

  pub check_role-EndsWith :
      (name : Bytes) (role : Role) (s : State)
      → Q s
      → EndsWith (λ (u : Unit) s'. IsValidRole name role × Q s') Q (check_role name role s)
  unfolding check_role
  check_role-EndsWith name role s q =
      EndsWith-after (λ (u : Unit) s'. HasLimits role × Q s') _ Q (check_limits role s) _
        (check_limits-EndsWith role s q)
        λ u s1 (l, q1).
          EndsWith-after (λ (u : Unit) s'. HasMode role × Q s') _ Q (check_mode role s1) _
            (check_mode-EndsWith role s1 q1)
            λ u' s2 (m, q2).
              EndsWith-map Q (IsValidRole-of_checks name role l m) (check_names name role s2)
                (check_names-EndsWith name role s2 q2)
