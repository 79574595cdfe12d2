-- ===== src/Base/Search.antt =====
-- What the program uses of Go's package `strings`.
use Prim.Native.Nat.{ℕ, zero, suc, ◌<◌}
use mathlib.Core.Path.{◌≡◌, refl}
use mathlib.Core.Bool.{Bool, true, false, ◌&&◌, ◌||◌}
use mathlib.Core.Option.{Option, none, some}
use mathlib.Core.List.{[], ◌∷◌, ◌++◌}
use native.Mathlib.Omega.{arith}
use vault_custom_secrets_eng.Base.Tests.{◌==◌, if◌then◌else◌}
use vault_custom_secrets_eng.Base.Strings.{Bytes, length, take, drop, Lacks}

-- `strings.LastIndex(s, c)` for one byte; `none` is -1.
unfoldable pub last_index : ℕ → Bytes → Option ℕ
last_index c [] = none
last_index c (x ∷ xs) = elim (last_index c xs) [
  | some i ↦ some (suc i)
  | none ↦ if x == c then some 0 else none
]

pub last_index-none : (c : ℕ) (s : Bytes) → last_index c s ≡ none → Lacks c s
unfolding last_index
last_index-none c [] h = tt
last_index-none c (x ∷ s) h = ground (arith, last_index-none c s)

pub last_index-Lacks : (c : ℕ) (s : Bytes) → Lacks c s → last_index c s ≡ none
unfolding last_index
last_index-Lacks c [] h = refl
last_index-Lacks c (x ∷ s) h = ground (arith, last_index-Lacks c s h.1)

-- The byte stands at the index, and not behind it.
pub last_index-some :
    (c : ℕ) (s : Bytes) (i : ℕ)
    → last_index c s ≡ some i
    → (s ≡ take i s ++ c ∷ drop (suc i) s) × Lacks c (drop (suc i) s) × (i < length s)
unfolding last_index
last_index-some c [] i h = cc
last_index-some c (x ∷ s) zero h = ground (arith, last_index-none c s)
last_index-some c (x ∷ s) (suc i) h = ground (arith, last_index-some c s i)

pub last_index-append :
    (c : ℕ) (s t : Bytes) → Lacks c t → last_index c (s ++ c ∷ t) ≡ some (length s)
unfolding last_index
last_index-append c [] t h = ground (arith, last_index-Lacks c t h)
last_index-append c (x ∷ s) t h = ground (arith, last_index-append c s t h)

-- `strings.TrimRight(s, "c")`
unfoldable pub trim_right : ℕ → Bytes → Bytes
trim_right c [] = []
trim_right c (x ∷ xs) =
    let rest = trim_right c xs in
    elim rest [ [] ↦ if x == c then [] else x ∷ [] | y ∷ ys ↦ x ∷ y ∷ ys ]

-- `strings.HasPrefix`
unfoldable pub has_prefix : Bytes → Bytes → Bool
has_prefix s [] = true
has_prefix [] (c ∷ t) = false
has_prefix (x ∷ s) (c ∷ t) = x == c && has_prefix s t

-- `strings.Contains(s, t)`
unfoldable pub contains : Bytes → Bytes → Bool
unfolding has_prefix
contains [] t = has_prefix [] t
contains (x ∷ s) t = has_prefix (x ∷ s) t || contains s t
