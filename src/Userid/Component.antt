-- ===== src/Userid/Component.antt =====
-- `validateUserComponent` of userid.go, on runes and on bytes.
use vault_custom_secrets_eng.Base.{
  ℕ, ◌≤◌, ◌<◌, ◌≡◌, ◌≢◌, ◌↔◌, ◌⊎◌, refl, false, none, List, [], ◌∷◌, Bytes, All, All-map, arith,
}
use vault_custom_secrets_eng.Userid.{check_rune, check_runes, validate_user_component}
use vault_custom_secrets_eng.Unicode.{is_space, runes}
use vault_custom_secrets_eng.Unicode.Ascii.{runes-All}

-- A character that PVE's user names and the PVEAPIToken header leave room for.
pub record IsUserRune (r : ℕ) : Type 0 where
  pub no_colon : r ≢ b':'
  pub no_slash : r ≢ b'/'
  pub no_at : r ≢ b'@'
  pub no_bang : r ≢ b'!'
  pub no_equals : r ≢ b'='
  pub no_space : is_space r ≡ false

-- The same of a byte.
pub record IsUserByte (b : ℕ) : Type 0 where
  pub no_colon : b ≢ b':'
  pub no_slash : b ≢ b'/'
  pub no_at : b ≢ b'@'
  pub no_bang : b ≢ b'!'
  pub no_equals : b ≢ b'='
  pub no_blank : b ≢ 0x20
  pub no_control_space : (b < 9) ⊎ (13 < b)

check_rune-IsUserRune : (r : ℕ) → check_rune r ≡ none → IsUserRune r
unfolding check_rune
check_rune-IsUserRune r h = ground arith

IsUserRune-check_rune : (r : ℕ) → IsUserRune r → check_rune r ≡ none
unfolding check_rune
IsUserRune-check_rune r h = ground arith

check_runes-All : (rs : List ℕ) → check_runes rs ≡ none → All IsUserRune rs
unfolding check_runes
check_runes-All [] h = tt
check_runes-All (r ∷ rs) h =
    (check_rune-IsUserRune r (ground arith), check_runes-All rs (ground arith))

All-check_runes : (rs : List ℕ) → All IsUserRune rs → check_runes rs ≡ none
unfolding check_runes
All-check_runes [] h = refl
All-check_runes (r ∷ rs) h = ground (arith, IsUserRune-check_rune r h.0, All-check_runes rs h.1)

-- A component is accepted exactly when it is not empty and each of its characters is none of
-- ':', '/', '@', '!', '=' and is no Unicode white space.
pub validate_user_component_iff :
    (s : Bytes) → (validate_user_component s ≡ none) ↔ ((s ≢ []) × All IsUserRune (runes s))
unfolding validate_user_component
validate_user_component_iff [] = (λ h. cc, λ h. absurd (h.0 refl))
validate_user_component_iff (b ∷ s) = (λ h. (cc, check_runes-All _ h), λ h. All-check_runes _ h.1)

IsUserByte-of_rune : (r : ℕ) → IsUserRune r → IsUserByte r
unfolding is_space
IsUserByte-of_rune r h = ground arith

IsUserByte-high : (b r : ℕ) → 128 ≤ b → 128 ≤ r → IsUserByte r → IsUserByte b
IsUserByte-high b r h k l = ground arith

-- No byte of an accepted component is one of the separators or an ASCII white space.
pub validate_user_component-All : (s : Bytes) → validate_user_component s ≡ none → All IsUserByte s
validate_user_component-All s h =
    runes-All IsUserByte IsUserByte-high s
      (All-map IsUserByte-of_rune _ ((validate_user_component_iff s).0 h).1)
