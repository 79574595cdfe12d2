-- ===== src/Pveapi/Decimal.antt =====
-- `fmt.Sprintf("%d", n)`
use vault_custom_secrets_eng.Base.{
  ℕ, zero, suc, ◌+◌, ◌/◌, ◌%◌, [], ◌∷◌, ◌++◌, Bytes, ℤ, pos, negsuc, ltb, if◌then◌else◌,
}

-- The decimal digits of a number; the fuel bounds how many there are.
unfoldable pub digits : ℕ → ℕ → Bytes
digits zero n = []
digits (suc fuel) n =
    let front = digits fuel (n / 10) in
    if ltb n 10 then (b'0' + n) ∷ [] else front ++ (b'0' + n % 10) ∷ []

unfoldable pub decimal : ℤ → Bytes
unfolding digits
decimal (pos n) = digits (suc n) n
decimal (negsuc n) = b'-' ∷ digits (suc (suc n)) (suc n)
