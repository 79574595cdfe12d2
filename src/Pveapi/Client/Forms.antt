-- ===== src/Pveapi/Client/Forms.antt =====
-- internal/pveapi/client.go: what the forms of `CreateUser` and `UpdateUser` say.
use vault_custom_secrets_eng.Base.{
  ℕ, zero, suc, ◌+◌, ◌-◌, ◌*◌, ◌/◌, ◌%◌, ◌≤◌, ◌<◌, All, All-append, ◌≡◌, ◌≢◌, ◌⊎◌, inl, inr, refl,
  Bool, true, false, Option, none, some, [], ◌∷◌, ◌++◌, Bytes, codes, lookup, text_eq, ltb, ℤ, pos,
  ◌<ℤ◌, Bool-cases, arith,
}
use vault_custom_secrets_eng.Unicode.{trim_space}
use vault_custom_secrets_eng.Pveapi.Errors.{Error, Result}
use vault_custom_secrets_eng.Pveapi.Types.{UpdateUserRequest, validate}
use vault_custom_secrets_eng.Pveapi.Decimal.{digits, decimal}
use vault_custom_secrets_eng.Pveapi.Wire.{Form, Request, Reply, Trace, Wire}
use vault_custom_secrets_eng.Pveapi.Client.{
  HttpClient, exchange, request_to, do_request, update_user_form, update_user, user_path,
  EndpointKind, send_update,
}

-- The number that decimal digits stand for.
abbrev value : ℕ → Bytes → ℕ
value acc [] = acc
value acc (d ∷ ds) = value (acc * 10 + (d - b'0')) ds

value-append :
    (acc : ℕ) (xs : Bytes) (d : ℕ) → value acc (xs ++ d ∷ []) ≡ value acc xs * 10 + (d - b'0')
value-append acc [] d = refl
value-append acc (x ∷ xs) d = value-append (acc * 10 + (x - b'0')) xs d

-- The fuel is enough for every digit.
value-digits : (fuel n : ℕ) → n < fuel → value 0 (digits fuel n) ≡ n
unfolding digits
value-digits zero n h = absurd (omega arith)
value-digits (suc fuel) n h = elim (Bool-cases (ltb n 10)) [
  | inl small ↦ rw small (omega arith)
  | inr large ↦
      let less : n / 10 < fuel = ground arith in
      rw large (
        omega (
          arith,
          value-append 0 (digits fuel (n / 10)) (b'0' + n % 10),
          value-digits fuel (n / 10) less,
        ))
]

abbrev pub IsDigit : ℕ → Type 0
IsDigit d = (b'0' ≤ d) × (d ≤ b'9')

digits-All : (fuel n : ℕ) → All IsDigit (digits fuel n)
unfolding digits
digits-All zero n = tt
digits-All (suc fuel) n = elim (Bool-cases (ltb n 10)) [
  | inl small ↦ rw small ((omega arith, ground arith), tt)
  | inr large ↦ rw large (
      All-append IsDigit (digits fuel (n / 10)) ((b'0' + n % 10) ∷ []) (digits-All fuel (n / 10))
        ((omega arith, omega arith), tt))
]

-- The text is the number in decimal: digits, and nothing else.
abbrev pub IsDecimal : Option Bytes → ℤ → Type 0
IsDecimal (some s) (pos n) = All IsDigit s × (value 0 s ≡ n)
IsDecimal _ z = ⊥

decimal-IsDecimal : (z : ℤ) → pos 0 <ℤ z → IsDecimal (some (decimal z)) z
unfolding decimal
decimal-IsDecimal (pos n) h = (digits-All (suc n) n, value-digits (suc n) n (omega arith))
decimal-IsDecimal (ℤ.negsuc n) h = absurd (omega arith)

-- The form keeps the lease's backstop: a finite expiry, the groups, enabled, and append.
pub record IsSafeForm (form : Form) (req : UpdateUserRequest) : Type 0 where
  pub finite : pos 0 <ℤ req.expire
  pub expiry : IsDecimal (lookup (codes "expire") form) req.expire
  pub groups : lookup (codes "groups") form ≡ some req.groups
  pub not_blank : trim_space req.groups ≢ []
  pub enabled : lookup (codes "enable") form ≡ some (codes "1")
  pub appends : lookup (codes "append") form ≡ some (codes "1")

validate-ok :
    (r : UpdateUserRequest)
    → validate r ≡ none
    → (pos 0 <ℤ r.expire) × (trim_space r.groups ≢ []) × (r.enable ≡ true) × (r.append ≡ true)
unfolding validate
validate-ok r h = ground arith

update_user_form-IsSafeForm :
    (r : UpdateUserRequest) → validate r ≡ none → IsSafeForm (update_user_form r) r
unfolding update_user_form lookup text_eq
update_user_form-IsSafeForm r h =
    let (finite, not_blank, enabled, appends) = validate-ok r h in
    record {
      finite = finite;
      expiry = decimal-IsDecimal r.expire finite;
      groups = refl;
      not_blank = not_blank;
      enabled = rw enabled refl;
      appends = rw (enabled, appends) refl;
    }

exchange_trace :
    (wire : Wire) (req : Request) (redact : Bool) (kind : EndpointKind) (o : Option Error)
    (t : Trace)
    → ((exchange wire req redact kind o t).1 ≡ t)
      ⊎ ((answer : Result Reply) × ((exchange wire req redact kind o t).1 ≡ (req, answer) ∷ t))
unfolding exchange
exchange_trace wire req redact kind (some e) t = inl refl
exchange_trace wire req redact kind none t = inr (wire.send t req, refl)

-- What an update has sent.
abbrev pub SentUpdate : Wire → HttpClient → UpdateUserRequest → Trace → Trace → Type 0
SentUpdate wire c req t t' =
    (t' ≡ t)
    ⊎ ((answer : Result Reply) × (form : Form) × (t'
          ≡ (request_to wire c (codes "PUT") (user_path wire req.user_id) (some form), answer) ∷ t)
        × IsSafeForm form req)

send_update-IsSafeForm :
    (wire : Wire) (c : HttpClient) (req : UpdateUserRequest) (o : Option Error) (t : Trace)
    → validate req ≡ o
    → SentUpdate wire c req t (send_update wire c req o t).1
unfolding send_update do_request
send_update-IsSafeForm wire c req (some e) t h = inl refl
send_update-IsSafeForm wire c req none t h =
    let form : Form = update_user_form req in
    let put : Request = request_to wire c (codes "PUT") (user_path wire req.user_id) (some form) in
    elim (exchange_trace wire put false EndpointKind.standard
      (wire.new_request (codes "PUT") (c.base_url ++ user_path wire req.user_id)) t) [
        | inl silent ↦ inl silent
        | inr (answer, sent) ↦ inr (answer, form, sent, update_user_form-IsSafeForm req h)
      ]

-- An update either sends nothing, or sends one PUT for the escaped userid, whose form says the
-- request's expiry, above zero and in decimal, and its groups, which are not blank, and sets `enable`
-- and `append` to 1.
pub update_user-IsSafeForm :
    (wire : Wire) (c : HttpClient) (req : UpdateUserRequest) (t : Trace)
    → SentUpdate wire c req t (update_user wire c req t).1
unfolding update_user
update_user-IsSafeForm wire c req t = send_update-IsSafeForm wire c req (validate req) t refl
