-- ===== src/Pveapi/Permissions.antt =====
-- internal/pveapi/types.go: the permission tree and `HasPrivilege`. A Go map is an association
-- list whose first entry for a key counts.
pub mod Ancestors
pub mod Fuel
use vault_custom_secrets_eng.Base.{
  ℕ, zero, suc, ◌+◌, Bool, true, false, not, ◌||◌, Option, none, some, List, [], ◌∷◌, Bytes, codes,
  length, lookup, take, text_eq, last_index, trim_right, ℤ, pos, eqb_ℤ, if◌then◌else◌,
}

-- Paths to privileges, and each privilege to its propagate flag.
abbrev pub PermissionTree : Type 0
PermissionTree = List (Bytes × List (Bytes × ℤ))

-- The propagate flag of the privilege at exactly this path.
unfoldable pub grant : PermissionTree → Bytes → Bytes → Option ℤ
grant t path priv = elim (lookup path t) [ none ↦ none | some privs ↦ lookup priv privs ]

-- The test in the loop: at the path itself any flag will do, above it only one that is not zero.
unfoldable pub holds_at : PermissionTree → Bytes → Bytes → Bytes → Bool
holds_at t path priv current = elim (grant t current priv) [
  | none ↦ false
  | some flag ↦ text_eq current path || not (eqb_ℤ flag (pos 0))
]

-- `current[:idx]`, or the root where the last slash leads the text or there is none.
unfoldable pub parent : Bytes → Bytes
parent current = elim (last_index b'/' current) [
  | none ↦ codes "/"
  | some zero ↦ codes "/"
  | some (suc i) ↦ take (suc i) current
]

-- The loop of `HasPrivilege`, with `none` where the fuel has run out before the loop has ended.
unfoldable pub has_privilege_loop : ℕ → PermissionTree → Bytes → Bytes → Bytes → Option Bool
has_privilege_loop zero t path priv current = none
has_privilege_loop (suc fuel) t path priv current =
    let up = has_privilege_loop fuel t path priv (parent current) in
    if holds_at t path priv current
    then some true
    else if text_eq current (codes "/")
    then some false
    else up

-- The answer; the fuel below always gives one.
abbrev pub or_denied : Option Bool → Bool
or_denied none = false
or_denied (some b) = b

-- `strings.TrimRight(path, "/")`, and the root for what is left empty.
unfoldable pub normalise : Bytes → Bytes
normalise path = elim (trim_right b'/' path) [ [] ↦ codes "/" | x ∷ xs ↦ x ∷ xs ]

unfoldable pub has_privilege : PermissionTree → Bytes → Bytes → Bool
unfolding normalise has_privilege_loop
has_privilege t path priv =
    let p = normalise path in or_denied (has_privilege_loop (suc (length p)) t p priv p)
