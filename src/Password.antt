-- ===== src/Password.antt =====
-- password.go: the generated password.
pub mod Shape
use vault_custom_secrets_eng.Base.{
  ℕ, zero, suc, none, some, ◌||◌, [], ◌∷◌, Bytes, codes, get_elem?, length, ltb,
}
use vault_custom_secrets_eng.Pveapi.Errors.{failure, wrap, Result, ok, err}
use vault_custom_secrets_eng.Host.{Host}
use vault_custom_secrets_eng.Host.Act.{Op, ◌>>=◌, ◌>>◌, pure, return_if, try, run, random_below}

abbrev pub password_charset : Bytes
password_charset = codes "abcdefghijklmnopqrstuvwxyzABCDEFGHIJKLMNOPQRSTUVWXYZ0123456789"

abbrev pub password_length : ℕ
password_length = 32

abbrev pve_password_min_length : ℕ
pve_password_min_length = 8

abbrev pve_password_max_length : ℕ
pve_password_max_length = 64

-- `passwordCharset[n.Int64()]`; an index out of range would panic, and `rand.Int` gives none.
unfoldable pub password_char : ℕ → ℕ
password_char i = elim (get_elem? password_charset i) [ some c ↦ c | none ↦ 0 ]

module _ (host : Host) where
  -- The loop over the bytes of the buffer that are left.
  unfoldable pub password_chars : ℕ → Op (Result Bytes)
  unfolding random_below
  password_chars zero = run (pure (ok []))
  password_chars (suc n) = run do
    i ←
        try (random_below host (length password_charset))
          (λ e. err (wrap "proxmox: generate password" e))
    rest ← try (password_chars n) err
    pure (ok (password_char i ∷ rest))

  -- `generatePassword`
  unfoldable pub generate_password : Op (Result Bytes)
  generate_password = run do
    return_if
        (ltb password_length pve_password_min_length || ltb pve_password_max_length password_length)
        (err (failure "proxmox: passwordLength is outside the PVE-accepted range"))
    password ← try (password_chars password_length) err
    pure (ok password)
