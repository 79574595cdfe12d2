-- ===== src/Lease/Data.antt =====
-- secret_token.go reads back what path_creds.go put into a lease, also after Vault has stored the
-- lease as JSON.
use vault_custom_secrets_eng.Base.{
  ◌^◌, ◌≤◌, ◌≡◌, ◌≢◌, refl, [], ◌∷◌, map, Bytes, codes, ℤ, pos_part, neg_part, lookup, insert,
  text_eq,
}
use vault_custom_secrets_eng.Pveapi.Errors.{ok}
use vault_custom_secrets_eng.Host.Response.{Value, int, int64, float64, Values}
use vault_custom_secrets_eng.Creds.Handler.{lease_internal_data}
use vault_custom_secrets_eng.Lease.{LeaseData, extract_lease_internal_data}

-- What `encoding/json` makes of a value that it writes and reads into an `interface{}`: a number
-- becomes a `float64`, rounded from an integer; a float, a text and a truth value stay what they are.
abbrev pub through_json : (ℤ → ℤ) → Value → Value
through_json round (int n) = float64 (round n)
through_json round (int64 n) = float64 (round n)
through_json round v = v

abbrev pub stored : (ℤ → ℤ) → Values → Values
stored round values = map (λ field. (field.0, through_json round field.1)) values

-- An integer that a `float64` holds exactly.
abbrev pub IsExact : ℤ → Type 0
IsExact n = (pos_part n ≤ 2 ^ 53) × (neg_part n ≤ 2 ^ 53)

pub extract-lease_internal_data :
    (round : ℤ → ℤ) (userid group name : Bytes) (max_ttl expire expire' : ℤ)
    → ((n : ℤ) → IsExact n → round n ≡ n)
    → IsExact max_ttl
    → userid ≢ []
    → group ≢ []
    → let values = lease_internal_data userid group max_ttl name expire in
      let renewed = insert (codes "expire") (int64 expire') (stored round values) in
      let found : LeaseData = record {
        userid = userid;
        group = group;
        effective_max_ttl = max_ttl;
        role_name = name;
      } in
      (extract_lease_internal_data values ≡ ok found)
      × (extract_lease_internal_data (stored round values) ≡ ok found)
      × (extract_lease_internal_data (stored round renewed) ≡ ok found)
unfolding extract_lease_internal_data lease_internal_data lookup insert text_eq
extract-lease_internal_data round [] group name max_ttl expire expire' exact fits nu ng =
    absurd (nu refl)
extract-lease_internal_data round (u ∷ userid) [] name max_ttl expire expire' exact fits nu ng =
    absurd (ng refl)
extract-lease_internal_data round (u ∷ userid) (g ∷ group) name max_ttl expire expire' exact fits nu
      ng =
    (refl, rw (exact max_ttl fits) refl, rw (exact max_ttl fits) refl)
