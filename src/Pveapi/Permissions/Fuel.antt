-- ===== src/Pveapi/Permissions/Fuel.antt =====
-- internal/pveapi/types.go: the loop of `HasPrivilege` ends.
use vault_custom_secrets_eng.Base.{
  ℕ, zero, suc, ◌<◌, ◌≡◌, ◌≢◌, some, inl, inr, Bool-cases, [], Bytes, codes, length, text_eq,
  text_eq_iff, arith,
}
use vault_custom_secrets_eng.Pveapi.Permissions.{
  PermissionTree, parent, normalise, has_privilege_loop, has_privilege, or_denied,
}
use vault_custom_secrets_eng.Pveapi.Permissions.Ancestors.{
  IsEnough, IsEnough-parent, normalise-ne-nil,
}

module _ (t : PermissionTree) (path priv : Bytes) where
  -- Where enough rounds are left, the loop has ended, and more rounds do not change its answer.
  loop_ends :
      (f g : ℕ) (c : Bytes)
      → c ≢ []
      → IsEnough t path priv f c
      → IsEnough t path priv g c
      → has_privilege_loop f t path priv c ≡ some (or_denied (has_privilege_loop g t path priv c))
  unfolding has_privilege_loop
  loop_ends zero g c ne few enough = absurd (unfold IsEnough in omega arith)
  loop_ends (suc f) zero c ne enough few = absurd (unfold IsEnough in omega arith)
  loop_ends (suc f) (suc g) c ne f_enough g_enough = elim (Bool-cases (text_eq c (codes "/"))) [
    | inl root ↦ ground arith
    | inr deeper ↦
        let nr : c ≢ codes "/" = ground (arith, text_eq_iff c (codes "/")) in
        let (pne, f_left) = IsEnough-parent t path priv f c ne nr f_enough in
        let (_, g_left) = IsEnough-parent t path priv g c ne nr g_enough in
        ground (arith, loop_ends f g (parent c) pne f_left g_left)
  ]

-- With any number of rounds above the length of the path, the loop of `HasPrivilege` ends by its own
-- conditions, at a grant or at the root, before the rounds are used up, and its answer is that of
-- `has_privilege`.
pub has_privilege_fuel :
    (t : PermissionTree) (path priv : Bytes) (rounds : ℕ)
    → length (normalise path) < rounds
    → has_privilege_loop rounds t (normalise path) priv (normalise path)
      ≡ some (has_privilege t path priv)
unfolding has_privilege
has_privilege_fuel t path priv rounds h =
    loop_ends t (normalise path) priv rounds (suc (length (normalise path))) (normalise path)
      (normalise-ne-nil path) (unfold IsEnough in inl h) (unfold IsEnough in inl (omega arith))
