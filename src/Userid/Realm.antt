-- ===== src/Userid/Realm.antt =====
-- `validateRealmComponent` of userid.go against the expression ^[A-Za-z][A-Za-z0-9.\-_]+$.
use vault_custom_secrets_eng.Base.{
  ℕ, ◌≤◌, ◌<◌, ◌≡◌, ◌↔◌, ◌⊎◌, refl, none, List, [], ◌∷◌, Bytes, All, All-map, arith,
}
use vault_custom_secrets_eng.Userid.{check_realm_runes, validate_realm_component}
use vault_custom_secrets_eng.Unicode.Ascii.{runes-All, runes_ascii}

-- [A-Za-z]
abbrev pub IsLetter : ℕ → Type 0
IsLetter c = (b'A' ≤ c) × (c ≤ b'Z') ⊎ (b'a' ≤ c) × (c ≤ b'z')

-- [A-Za-z0-9.\-_]
abbrev pub IsRealmByte : ℕ → Type 0
IsRealmByte c = IsLetter c ⊎ ((b'0' ≤ c) × (c ≤ b'9') ⊎ ((c ≡ b'.') ⊎ ((c ≡ b'-') ⊎ (c ≡ b'_'))))

-- One letter, and one or more of the second class.
abbrev pub IsRealm : Bytes → Type 0
IsRealm [] = ⊥
IsRealm (c ∷ []) = ⊥
IsRealm (c ∷ d ∷ s) = IsLetter c × All IsRealmByte (d ∷ s)

check_realm_runes-All : (rs : List ℕ) → check_realm_runes rs ≡ none → All IsRealmByte rs
unfolding check_realm_runes
check_realm_runes-All [] h = tt
check_realm_runes-All (r ∷ rs) h = (ground arith, check_realm_runes-All rs (ground arith))

All-check_realm_runes : (rs : List ℕ) → All IsRealmByte rs → check_realm_runes rs ≡ none
unfolding check_realm_runes
All-check_realm_runes [] h = refl
All-check_realm_runes (r ∷ rs) h = ground (arith, All-check_realm_runes rs h.1)

IsRealmByte-high : (b r : ℕ) → 128 ≤ b → 128 ≤ r → IsRealmByte r → IsRealmByte b
IsRealmByte-high b r h k l = absurd (omega arith)

realm_byte_ascii : (b : ℕ) → IsRealmByte b → b < 128
realm_byte_ascii b h = omega arith

-- A realm is accepted exactly when the whole of it matches PVE's expression for realms.
pub validate_realm_component_iff : (s : Bytes) → (validate_realm_component s ≡ none) ↔ IsRealm s
unfolding validate_realm_component
validate_realm_component_iff [] = (λ h. cc, λ h. absurd h)
validate_realm_component_iff (c ∷ []) = (λ h. cc, λ h. absurd h)
validate_realm_component_iff (c ∷ d ∷ s) = (
  λ h. (
    ground arith,
    runes-All IsRealmByte IsRealmByte-high (d ∷ s) (check_realm_runes-All _ (ground arith)),
  ),
  λ h. ground (
    arith,
    All-check_realm_runes (d ∷ s) h.1,
    runes_ascii (d ∷ s) (All-map realm_byte_ascii (d ∷ s) h.1),
  ),
)
