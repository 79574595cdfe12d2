-- ===== src/Password/Shape.antt =====
-- `generatePassword` of password.go: what it gives, and that it gives something.
use vault_custom_secrets_eng.Base.{
  ℕ, zero, suc, ◌≤◌, ◌<◌, ◌≡◌, ◌⊎◌, refl, Bool, true, ◌&&◌, ◌||◌, none, some, List, [], ◌∷◌, Bytes,
  All, get_elem?, length, leb, arith,
}
use vault_custom_secrets_eng.Pveapi.Errors.{Result, ok, err}
use vault_custom_secrets_eng.Host.{Host}
use vault_custom_secrets_eng.Host.Event.{Event, Log}
use vault_custom_secrets_eng.Host.Act.{State, random_below}
use vault_custom_secrets_eng.Password.{
  password_charset, password_char, password_chars, generate_password,
}

-- A letter or digit of ASCII.
abbrev pub IsAlphanumeric : ℕ → Type 0
IsAlphanumeric b =
    ((b'a' ≤ b) × (b ≤ b'z')) ⊎ (((b'A' ≤ b) × (b ≤ b'Z')) ⊎ ((b'0' ≤ b) × (b ≤ b'9')))

abbrev is_alphanumeric : ℕ → Bool
is_alphanumeric b =
    (leb b'a' b && leb b b'z') || ((leb b'A' b && leb b b'Z') || (leb b'0' b && leb b b'9'))

is_alphanumeric-IsAlphanumeric : (b : ℕ) → is_alphanumeric b ≡ true → IsAlphanumeric b
is_alphanumeric-IsAlphanumeric b h = ground arith

abbrev every : List ℕ → Bool
every [] = true
every (b ∷ bs) = is_alphanumeric b && every bs

every-All : (bs : Bytes) → every bs ≡ true → All IsAlphanumeric bs
every-All [] h = tt
every-All (b ∷ bs) h =
    (is_alphanumeric-IsAlphanumeric b (ground arith), every-All bs (ground arith))

get_elem?-IsAlphanumeric :
    (xs : Bytes) (i : ℕ)
    → All IsAlphanumeric xs
    → i < length xs
    → IsAlphanumeric (elim (get_elem? xs i) [ some c ↦ c | none ↦ 0 ])
get_elem?-IsAlphanumeric [] i h lt = absurd (omega arith)
get_elem?-IsAlphanumeric (x ∷ xs) zero h lt = h.0
get_elem?-IsAlphanumeric (x ∷ xs) (suc i) h lt = get_elem?-IsAlphanumeric xs i h.1 (omega arith)

password_char-IsAlphanumeric :
    (i : ℕ) → i < length password_charset → IsAlphanumeric (password_char i)
unfolding password_char
password_char-IsAlphanumeric i lt =
    get_elem?-IsAlphanumeric password_charset i (every-All password_charset refl) lt

-- `rand.Int` of a working source: always a number below the bound.
pub record IsFair (host : Host) : Type 0 where
  pub draw : Log → ℕ → ℕ
  pub below : (l : Log) (n : ℕ) → 0 < n → draw l n < n
  pub draws : (l : Log) (n : ℕ) → 0 < n → host.random_below l n ≡ ok (draw l n)

-- A password of so many letters and digits.
abbrev pub IsPassword : ℕ → Result Bytes → Type 0
IsPassword n (ok password) = (length password ≡ n) × All IsAlphanumeric password
IsPassword n (err e) = ⊥

module _ (host : Host) (fair : IsFair host) where
  password_chars-IsPassword : (n : ℕ) (s : State) → IsPassword n (password_chars host n s).0
  unfolding password_chars random_below
  password_chars-IsPassword zero s = (refl, tt)
  password_chars-IsPassword (suc n) s =
      let i : ℕ = fair.draw s.log 62 in
      rw (fair.draws s.log 62 (omega arith)) (
        ground (
          arith,
          password_chars-IsPassword n (record s { log = Event.drew_below 62 (ok i) ∷ s.log }),
          password_char-IsAlphanumeric i (fair.below s.log 62 (omega arith)),
        ))

-- With a working random source, `generatePassword` returns no error but a password of 32 letters
-- and digits.
pub generate_password-IsPassword :
    (host : Host) (s : State) → IsFair host → IsPassword 32 (generate_password host s).0
unfolding generate_password
generate_password-IsPassword host s fair = ground (arith, password_chars-IsPassword host fair 32 s)
