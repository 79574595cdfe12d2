-- ===== src/Pveapi/Errors.antt =====
-- internal/pveapi/errors.go: the sentinel errors. A Go error is a value of `Error`: a sentinel, a
-- text made by `fmt.Errorf` with no %w, a text that quotes a response body, or a wrap of another
-- error with %w. Of a text only the fixed words are kept, and the quoted body; the other values that
-- %q and %d insert are left out.
use Prim.Native.String.{String}
use vault_custom_secrets_eng.Base.{
  ℕ, ◌≡◌, ◌⊎◌, inl, inr, refl, Bool, false, Option, none, some, Bytes, ◌==◌,
}

pub data Sentinel : Type 0 where
  user_not_found token_not_found group_not_found conflict : Sentinel
  forbidden unauthenticated response_too_large : Sentinel

pub data Error : Type 0 where
  sentinel : Sentinel → Error
  failure : String → Error
  quoting : String → Bytes → Error
  wrap : String → Error → Error

-- Each sentinel is a value of its own, made by `errors.New`.
abbrev pub rank : Sentinel → ℕ
rank user_not_found = 0
rank token_not_found = 1
rank group_not_found = 2
rank conflict = 3
rank forbidden = 4
rank unauthenticated = 5
rank response_too_large = 6

-- `errors.Is(err, target)` walks the chain of wraps.
unfoldable pub errors_is : Error → Sentinel → Bool
errors_is (sentinel s) target = rank s == rank target
errors_is (failure text) target = false
errors_is (quoting text body) target = false
errors_is (wrap text e) target = errors_is e target

-- A call that returns a value and an error.
pub data Result {ℓ} (A : Type ℓ) : Type ℓ where
  ok : A → Result A
  err : Error → Result A

pub Result-cases {ℓ} :
    {A : Type ℓ} (r : Result A) → ((v : A) × (r ≡ ok v)) ⊎ ((e : Error) × (r ≡ err e))
Result-cases (ok v) = inl (v, refl)
Result-cases (err e) = inr (e, refl)

-- Whether a call that returns only an error failed with the sentinel.
abbrev pub failed_with : Sentinel → Option Error → Bool
failed_with s none = false
failed_with s (some e) = errors_is e s
