-- ===== src/Pveapi/Client/Answers.antt =====
-- internal/pveapi/client.go: when the calls that the engine's cleanup rests on succeed.
use Prim.Native.String.{String}
use vault_custom_secrets_eng.Base.{
  ℕ, ◌<◌, ◌≤◌, ◌≡◌, ◌↔◌, ◌⊎◌, inl, inr, refl, Bool, true, false, Option, none, some, [], ◌∷◌, ◌++◌,
  Bytes, codes, length, text_eq_iff, arith, sym, subst, List,
}
use vault_custom_secrets_eng.Pveapi.Errors.{Sentinel, errors_is, user_not_found, Result, ok, err}
use vault_custom_secrets_eng.Pveapi.Wire.{Request, Reply, Trace, Wire, in_context, failure_of}
use vault_custom_secrets_eng.Pveapi.Classify.{classify_pve_error, lower, haystack}
use vault_custom_secrets_eng.Pveapi.Classify.Search.{Within, IsPveError, classify_pve_error_iff}
use vault_custom_secrets_eng.Pveapi.Client.{
  HttpClient, EndpointKind, max_response_body_bytes, refused, classify_for, read_response_body,
  judge, receive, exchange, request_to, do_request, user_path, delete_user, has_token, token_exists,
}
use vault_custom_secrets_eng.Creds.{is_gone}

-- A 2xx status.
abbrev pub IsSuccess : ℕ → Type 0
IsSuccess status = (200 ≤ status) × (status < 300)

-- The call reached the server, which gave this answer in full.
pub record IsAnswered (wire : Wire) (req : Request) (t : Trace) (reply : Reply) : Type 0 where
  pub built : wire.new_request req.method req.url ≡ none
  pub sent : wire.send t req ≡ ok reply
  pub whole : reply.broken ≡ none
  pub short : length reply.body ≤ max_response_body_bytes

read_whole :
    (reply : Reply)
    → reply.broken ≡ none
    → length reply.body ≤ max_response_body_bytes
    → read_response_body reply ≡ ok reply.body
unfolding read_response_body
read_whole reply whole short = ground arith

-- A refusal counts as "gone" exactly where its sentinel says so.
refused-gone :
    (redact : Bool) (body : Bytes) (s : Option Sentinel)
    → (errors_is (refused redact body s) user_not_found ≡ true) ↔ (s ≡ some user_not_found)
unfolding refused errors_is
refused-gone true body none = (λ h. cc, λ h. cc)
refused-gone false body none = (λ h. cc, λ h. cc)
refused-gone redact body (some s) = ground arith

judge-gone :
    (wire : Wire) (redact : Bool) (status : ℕ) (body : Bytes)
    → (is_gone (failure_of (judge wire redact EndpointKind.standard status (ok body))) ≡ true) ↔ (
        IsSuccess status
        ⊎ ((¬ IsSuccess status)
            × (classify_pve_error status body (wire.parse_error body) ≡ some user_not_found)))
unfolding judge is_gone classify_for
judge-gone wire redact status body =
    ground
      (arith, refused-gone redact body (classify_pve_error status body (wire.parse_error body)))

in_context-gone :
    {A : Type 0} (text : String) (r : Result A)
    → is_gone (failure_of (in_context text r)) ≡ is_gone (failure_of r)
unfolding is_gone errors_is
in_context-gone text (ok a) = refl
in_context-gone text (err e) = refl

-- The answer says that the user has been deleted, or that PVE has none of that name.
abbrev pub SaysGone : Wire → Reply → Type 0
SaysGone wire reply =
    IsSuccess reply.status
    ⊎ (IsPveError reply.status reply.body
        × Within (codes "no such user") (lower (haystack (wire.parse_error reply.body) reply.body))
        × (¬ Within (codes "already exists")
            (lower (haystack (wire.parse_error reply.body) reply.body))))

exchange_answered :
    (wire : Wire) (req : Request) (redact : Bool) (kind : EndpointKind) (t : Trace) (reply : Reply)
    → IsAnswered wire req t reply
    → exchange wire req redact kind (wire.new_request req.method req.url) t
      ≡ (judge wire redact kind reply.status (ok reply.body), (req, ok reply) ∷ t)
unfolding exchange receive
exchange_answered wire req redact kind t reply a =
    rw (a.built, a.sent, read_whole reply a.whole a.short) refl

answer-gone :
    (wire : Wire) (reply : Reply)
    → (is_gone (failure_of (judge wire false EndpointKind.standard reply.status (ok reply.body)))
        ≡ true)
      ↔ SaysGone wire reply
answer-gone wire reply =
    let (said, says) = judge-gone wire false reply.status reply.body in
    let (read, reads) =
      (classify_pve_error_iff reply.status reply.body (wire.parse_error reply.body)).0 in
    (
      λ h. elim (said h) [ inl fine ↦ inl fine | inr (bad, e) ↦ inr (read e) ],
      λ h. elim h [
        | inl fine ↦ says (inl fine)
        | inr gone ↦ says (inr (pve_error_fails reply.status reply.body gone.0, reads gone))
      ],
    )
  where
    pve_error_fails : (status : ℕ) (body : Bytes) → IsPveError status body → ¬ IsSuccess status
    pve_error_fails status body h k = omega arith

-- With a complete answer, a deletion sends one request, DELETE for the escaped userid, and counts as
-- done (`nil` or `ErrUserNotFound`) exactly when the status is 2xx, or is 400 or 500 with a body
-- whose text holds "no such user" and not "already exists".
pub delete_user_iff :
    (wire : Wire) (c : HttpClient) (userid : Bytes) (t : Trace) (reply : Reply)
    → IsAnswered wire (request_to wire c (codes "DELETE") (user_path wire userid) none) t reply
    → let req = request_to wire c (codes "DELETE") (user_path wire userid) none in
      let (r, t') = delete_user wire c userid t in
      (t' ≡ (req, ok reply) ∷ t) × ((is_gone (failure_of r) ≡ true) ↔ SaysGone wire reply)
unfolding delete_user do_request request_to
delete_user_iff wire c userid t reply answered =
    let req : Request = request_to wire c (codes "DELETE") (user_path wire userid) none in
    let judged : Result Bytes =
      judge wire false EndpointKind.standard reply.status (ok reply.body) in
    subst
      (λ (x : Result Bytes × Trace).
        (x.1 ≡ (req, ok reply) ∷ t)
        × ((is_gone (failure_of (in_context "pveapi: DeleteUser" x.0)) ≡ true)
            ↔ SaysGone wire reply))
      (sym (exchange_answered wire req false EndpointKind.standard t reply answered))
      (
        refl,
        subst (λ (b : Bool). (b ≡ true) ↔ SaysGone wire reply)
            (sym (in_context-gone "pveapi: DeleteUser" judged)) (answer-gone wire reply),
      )

-- The name is in the list.
abbrev pub Among : Bytes → List Bytes → Type 0
Among tokenid [] = ⊥
Among tokenid (t ∷ tokens) = (t ≡ tokenid) ⊎ Among tokenid tokens

has_token_iff :
    (tokens : List Bytes) (tokenid : Bytes)
    → (has_token tokens tokenid ≡ true) ↔ Among tokenid tokens
unfolding has_token
has_token_iff [] tokenid = (λ h. cc, λ h. absurd h)
has_token_iff (t ∷ tokens) tokenid =
    ground (arith, text_eq_iff t tokenid, has_token_iff tokens tokenid)

-- With a complete 2xx answer that parses as a list of tokens, the client says yes exactly where the
-- token is among them and no exactly where it is not, without an error, by one request for the
-- user's tokens.
pub token_exists_iff :
    (wire : Wire) (c : HttpClient) (userid tokenid : Bytes) (t : Trace) (reply : Reply)
    (tokens : List Bytes)
    → IsAnswered wire
        (request_to wire c (codes "GET") (user_path wire userid ++ codes "/token") none)
        t
        reply
    → IsSuccess reply.status
    → wire.parse_tokens reply.body ≡ ok tokens
    → let req = request_to wire c (codes "GET") (user_path wire userid ++ codes "/token") none in
      let (r, t') = token_exists wire c userid tokenid t in
      (t' ≡ (req, ok reply) ∷ t)
      × ((r ≡ ok true) ↔ Among tokenid tokens)
      × ((r ≡ ok false) ↔ (¬ Among tokenid tokens))
unfolding token_exists do_request request_to judge
token_exists_iff wire c userid tokenid t reply tokens answered fine parsed =
    let req : Request =
      request_to wire c (codes "GET") (user_path wire userid ++ codes "/token") none in
    ground (
      arith,
      exchange_answered wire req true EndpointKind.token t reply answered,
      has_token_iff tokens tokenid,
    )
