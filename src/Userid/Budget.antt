-- ===== src/Userid/Budget.antt =====
-- `validateLengthBudget` against `buildUserID` of userid.go.
use vault_custom_secrets_eng.Base.{
  ◌+◌, ◌≤◌, ◌≡◌, ◌↔◌, none, ◌++◌, Bytes, codes, length, length-append, arith,
}
use vault_custom_secrets_eng.Userid.{build_user_id, validate_length_budget}

length-build_user_id :
    (p r x realm : Bytes)
    → length (build_user_id p r x realm) ≡ length p + length r + length x + length realm + 3
unfolding build_user_id
length-build_user_id p r x realm = omega (
  arith,
  length-append p (codes "-" ++ (r ++ (codes "-" ++ (x ++ (codes "@" ++ realm))))),
  length-append r (codes "-" ++ (x ++ (codes "@" ++ realm))),
  length-append x (codes "@" ++ realm),
)

-- The budget accepts a prefix, a role name and a realm exactly when the userid that is built from
-- them with any suffix of eight bytes has at most 64 bytes.
pub validate_length_budget_iff :
    (p r x realm : Bytes)
    → length x ≡ 8
    → (validate_length_budget p r realm ≡ none) ↔ (length (build_user_id p r x realm) ≤ 64)
unfolding validate_length_budget
validate_length_budget_iff p r x realm h = (
  λ k. ground (arith, length-build_user_id p r x realm),
  λ k. ground (arith, length-build_user_id p r x realm),
)
