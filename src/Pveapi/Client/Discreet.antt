-- ===== src/Pveapi/Client/Discreet.antt =====
-- internal/pveapi/client.go keeps the answers of the token endpoints, and of the creation of a user
-- with a password, out of its errors.
use Prim.Native.String.{String}
use vault_custom_secrets_eng.Base.{
  ℕ, ◌≡◌, ◌≢◌, refl, true, false, Option, none, some, [], ◌∷◌, Bytes, is_empty, arith, ◌++◌,
}
use vault_custom_secrets_eng.Pveapi.Errors.{
  Error, Sentinel, sentinel, failure, quoting, wrap, Result, ok, err,
}
use vault_custom_secrets_eng.Pveapi.Types.{CreateUserRequest}
use vault_custom_secrets_eng.Pveapi.Wire.{
  Form, Reply, Trace, Wire, proceed, in_context, Request, Call,
}
use vault_custom_secrets_eng.Pveapi.Client.{
  HttpClient, EndpointKind, refused, read_response_body, judge, receive, do_request, token_value,
  create_user, create_token, delete_token, token_exists, request_to, exchange, has_token,
}

-- The text of the error quotes no response body.
abbrev pub IsDiscreet : Error → Type 0
IsDiscreet (sentinel s) = Unit
IsDiscreet (failure text) = Unit
IsDiscreet (quoting text body) = ⊥
IsDiscreet (wrap text e) = IsDiscreet e

unfoldable pub Discreet : {A : Type 0} → Result A → Type 0
Discreet (ok a) = Unit
Discreet (err e) = IsDiscreet e

abbrev DiscreetOption : Option Error → Type 0
DiscreetOption none = Unit
DiscreetOption (some e) = IsDiscreet e

-- The errors of Go's own packages quote no body: those of the request, of the connection, of the
-- reading of an answer, and of `encoding/json`, which names offsets and types only.
pub record IsDiscreetWire (wire : Wire) : Type 0 where
  pub new_request :
      (method url : Bytes) (e : Error) → wire.new_request method url ≡ some e → IsDiscreet e
  pub send : (t : Trace) (req : Request) (e : Error) → wire.send t req ≡ err e → IsDiscreet e
  pub broken :
      (t : Trace) (req : Request) (reply : Reply) (e : Error)
      → wire.send t req ≡ ok reply
      → reply.broken ≡ some e
      → IsDiscreet e
  pub parse_token : (body : Bytes) (e : Error) → wire.parse_token body ≡ err e → IsDiscreet e
  pub parse_tokens : (body : Bytes) (e : Error) → wire.parse_tokens body ≡ err e → IsDiscreet e

refused-IsDiscreet : (body : Bytes) (s : Option Sentinel) → IsDiscreet (refused true body s)
unfolding refused
refused-IsDiscreet body none = tt
refused-IsDiscreet body (some s) = tt

judge-Discreet :
    (wire : Wire) (kind : EndpointKind) (status : ℕ) (r : Result Bytes)
    → Discreet r
    → Discreet (judge wire true kind status r)
unfolding judge Discreet
judge-Discreet wire kind status (err e) h = h
judge-Discreet wire kind status (ok body) h = ground (arith, refused-IsDiscreet body)

read_response_body-Discreet :
    (reply : Reply)
    → ((e : Error) → reply.broken ≡ some e → IsDiscreet e)
    → Discreet (read_response_body reply)
unfolding read_response_body Discreet
read_response_body-Discreet reply h = grind arith

of_option : (o : Option Error) → ((e : Error) → o ≡ some e → IsDiscreet e) → DiscreetOption o
of_option none h = tt
of_option (some e) h = h e refl

module _ (wire : Wire) (quiet : IsDiscreetWire wire) where
  receive-Discreet :
      (kind : EndpointKind) (t : Trace) (req : Request) (answer : Result Reply)
      → wire.send t req ≡ answer
      → Discreet (receive wire true kind answer)
  unfolding receive Discreet
  receive-Discreet kind t req (err e) h = quiet.send t req e h
  receive-Discreet kind t req (ok reply) h =
      judge-Discreet wire kind reply.status (read_response_body reply)
        (read_response_body-Discreet reply (λ e. quiet.broken t req reply e h))

  exchange-Discreet :
      (req : Request) (kind : EndpointKind) (o : Option Error) (t : Trace)
      → DiscreetOption o
      → Discreet (exchange wire req true kind o t).0
  unfolding exchange Discreet
  exchange-Discreet req kind (some e) t h = h
  exchange-Discreet req kind none t h = receive-Discreet kind t req _ refl

  pub after_request :
      (c : HttpClient) (method path : Bytes) (form : Option Form) (kind : EndpointKind) (t : Trace)
      → Discreet (do_request wire c method path form true kind t).0
  unfolding do_request
  after_request c method path form kind t =
      exchange-Discreet (request_to wire c method path form) kind _ t (
        of_option (wire.new_request method (c.base_url ++ path))
          (quiet.new_request method (c.base_url ++ path)))

in_context-Discreet :
    {A : Type 0} (text : String) (r : Result A) → Discreet r → Discreet (in_context text r)
unfolding Discreet
in_context-Discreet text (ok a) h = h
in_context-Discreet text (err e) h = h

proceed-Discreet :
    {A B : Type 0} (r : Result A) (f : A → Call B) (t : Trace)
    → Discreet r
    → ((a : A) → r ≡ ok a → Discreet (f a t).0)
    → Discreet (proceed r f t).0
unfolding Discreet
proceed-Discreet (ok a) f t h rest = rest a refl
proceed-Discreet (err e) f t h rest = h

of_parse : {A : Type 0} (r : Result A) → ((e : Error) → r ≡ err e → IsDiscreet e) → Discreet r
unfolding Discreet
of_parse (ok a) h = tt
of_parse (err e) h = h e refl

password_set : (s : Bytes) → s ≢ [] → is_empty s ≡ false
password_set [] h = absurd (h refl)
password_set (b ∷ s) h = refl

answered : {A : Type 0} (a : A) → Discreet (ok a)
unfolding Discreet
answered a = tt

token_value-Discreet : (value : Bytes) → Discreet (token_value value)
unfolding token_value Discreet
token_value-Discreet [] = tt
token_value-Discreet (b ∷ s) = tt

module _ (wire : Wire) (quiet : IsDiscreetWire wire) (c : HttpClient) where
  delete_token-Discreet :
      (userid tokenid : Bytes) (t : Trace) → Discreet (delete_token wire c userid tokenid t).0
  unfolding delete_token
  delete_token-Discreet userid tokenid t =
      in_context-Discreet _ _ (after_request wire quiet c _ _ none EndpointKind.token t)

  create_user-Discreet :
      (req : CreateUserRequest) (t : Trace)
      → req.password ≢ []
      → Discreet (create_user wire c req t).0
  unfolding create_user
  create_user-Discreet req t h =
      rw (password_set req.password h)
        (in_context-Discreet _ _ (after_request wire quiet c _ _ _ EndpointKind.standard t))

  create_token-Discreet :
      (userid tokenid : Bytes) (t : Trace) → Discreet (create_token wire c userid tokenid t).0
  unfolding create_token
  create_token-Discreet userid tokenid t =
      proceed-Discreet _ _ _
        (in_context-Discreet _ _ (after_request wire quiet c _ _ _ EndpointKind.standard t))
        λ body _.
          proceed-Discreet _ _ _
            (in_context-Discreet _ _ (of_parse (wire.parse_token body) (quiet.parse_token body)))
            λ value _. token_value-Discreet value

  token_exists-Discreet :
      (userid tokenid : Bytes) (t : Trace) → Discreet (token_exists wire c userid tokenid t).0
  unfolding token_exists
  token_exists-Discreet userid tokenid t =
      proceed-Discreet _ _ _
        (in_context-Discreet _ _ (after_request wire quiet c _ _ none EndpointKind.token t))
        λ body _.
          proceed-Discreet _ _ _
            (in_context-Discreet _ _ (of_parse (wire.parse_tokens body) (quiet.parse_tokens body)))
            λ tokens _. answered (has_token tokens tokenid)

-- Where Go's own packages quote no answer in their errors: the errors of `CreateToken`,
-- `DeleteToken` and `TokenExists`, and of a `CreateUser` with a password, quote none either.
pub secrets-Discreet :
    (wire : Wire) (c : HttpClient) (userid tokenid : Bytes) (req : CreateUserRequest) (t : Trace)
    → IsDiscreetWire wire
    → req.password ≢ []
    → Discreet (create_token wire c userid tokenid t).0
      × Discreet (delete_token wire c userid tokenid t).0
      × Discreet (token_exists wire c userid tokenid t).0
      × Discreet (create_user wire c req t).0
secrets-Discreet wire c userid tokenid req t quiet h = (
  create_token-Discreet wire quiet c userid tokenid t,
  delete_token-Discreet wire quiet c userid tokenid t,
  token_exists-Discreet wire quiet c userid tokenid t,
  create_user-Discreet wire quiet c req t h,
)
