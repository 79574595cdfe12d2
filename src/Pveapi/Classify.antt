-- ===== src/Pveapi/Classify.antt =====
-- internal/pveapi/client.go: the reading of PVE's error answers.
pub mod Search
use vault_custom_secrets_eng.Base.{
  ℕ, ◌+◌, Bool, not, ◌&&◌, ◌||◌, Option, none, some, List, [], ◌∷◌, ◌++◌, map, Bytes, codes,
  is_empty, contains, ◌==◌, leb, if◌then◌else◌,
}
use vault_custom_secrets_eng.Unicode.{runes}
use vault_custom_secrets_eng.Pveapi.Errors.{
  Sentinel, user_not_found, token_not_found, group_not_found, conflict, forbidden, unauthenticated,
}

-- `pveErrorBody`: the message, and the values of the map `errors` in the order in which the loop
-- meets them.
pub record ErrorBody : Type 0 where
  pub message : Bytes
  pub errors : List Bytes

-- The lower case of a character. Of the characters beyond ASCII only the Kelvin sign and the dotted
-- capital I have one in ASCII; the others are kept, as no text that is searched for holds them.
unfoldable pub lower_rune : ℕ → ℕ
lower_rune r =
    if leb b'A' r && leb r b'Z'
    then r + 32
    else if r == 0x212A
    then b'k'
    else if r == 0x130
    then b'i'
    else r

-- `strings.ToLower`, as characters.
unfoldable pub lower : Bytes → List ℕ
lower s = map lower_rune (runes s)

-- `strings.Join(parts, " ")`
unfoldable pub join_words : List Bytes → Bytes
join_words [] = []
join_words (part ∷ []) = part
join_words (part ∷ next ∷ parts) = part ++ b' ' ∷ join_words (next ∷ parts)

-- The text that is searched: the structured fields where there are any, and the body otherwise.
unfoldable pub haystack : Option ErrorBody → Bytes → Bytes
unfolding join_words
haystack none body = body
haystack (some e) body =
    if not (is_empty e.message)
    then join_words (e.message ∷ e.errors)
    else elim e.errors [ [] ↦ body | v ∷ vs ↦ join_words (v ∷ vs) ]

-- The switch on the text.
unfoldable pub classify_text : List ℕ → Option Sentinel
classify_text h =
    if contains h (codes "token already exists")
    then some conflict
    else if contains h (codes "already exists")
    then some conflict
    else if contains h (codes "no such user")
    then some user_not_found
    else if contains h (codes "no such group")
    then some group_not_found
    else if contains h (codes "does not exist")
    then some group_not_found
    else none

-- `classifyPVEError`, for a body and what `json.Unmarshal` makes of it.
unfoldable pub classify_pve_error : ℕ → Bytes → Option ErrorBody → Option Sentinel
unfolding haystack classify_text
classify_pve_error status body decoded =
    if status == 401
    then some unauthenticated
    else if status == 403
    then some forbidden
    else if not (status == 500) && not (status == 400)
    then none
    else if is_empty body
    then none
    else classify_text (lower (haystack decoded body))

-- `classifyTokenPVEError`
unfoldable pub classify_token_pve_error : ℕ → Bytes → Option Sentinel → Option Sentinel
classify_token_pve_error status body (some s) = some s
classify_token_pve_error status body none =
    if not (status == 400) && not (status == 500)
    then none
    else if contains (lower body) (codes "no such token")
    then some token_not_found
    else none
