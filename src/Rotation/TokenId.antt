-- ===== src/Rotation/TokenId.antt =====
-- `splitTokenID` of path_rotate_root.go.
use vault_custom_secrets_eng.Base.{
  ℕ, zero, suc, ◌<◌, ◌≡◌, ◌≢◌, ◌↔◌, refl, sym, subst, none, some, [], ◌∷◌, ◌++◌, Bytes, length,
  length-append, take, drop, take-length-append, last_index, last_index-some, last_index-append,
  Lacks, Option-cases, inl, inr, arith,
}
use vault_custom_secrets_eng.Pveapi.Errors.{ok}
use vault_custom_secrets_eng.Rotation.{split_at, split_token_id}

-- The parts of a token ID: neither is empty, and the name holds no further '!'.
pub record IsTokenId (s user token : Bytes) : Type 0 where
  pub joined : s ≡ user ++ b'!' ∷ token
  pub has_user : user ≢ []
  pub has_token : token ≢ []
  pub is_last : Lacks b'!' token

take-ne_nil : (i : ℕ) (s : Bytes) → i ≢ 0 → i < length s → take i s ≢ []
take-ne_nil i [] h lt = absurd (omega arith)
take-ne_nil zero (x ∷ s) h lt = absurd (h refl)
take-ne_nil (suc i) (x ∷ s) h lt = λ e. cc

drop-ne_nil : (i : ℕ) (s : Bytes) → i < length s → drop i s ≢ []
drop-ne_nil i [] h = absurd (omega arith)
drop-ne_nil zero (x ∷ s) h = λ e. cc
drop-ne_nil (suc i) (x ∷ s) h = drop-ne_nil i s (omega arith)

split_at-ok :
    (s user token : Bytes) (i : ℕ)
    → split_at s (some i) ≡ ok (user, token)
    → (i ≢ 0) × (suc i ≢ length s) × (take i s ≡ user) × (drop (suc i) s ≡ token)
unfolding split_at
split_at-ok s user token i h = ground arith

split_at-IsTokenId :
    (s user token : Bytes) (i : ℕ)
    → last_index b'!' s ≡ some i
    → split_at s (some i) ≡ ok (user, token)
    → IsTokenId s user token
split_at-IsTokenId s user token i e h =
    let (whole, lacks, below) = last_index-some b'!' s i e in
    let (first, last, front, back) = split_at-ok s user token i h in
    record {
      joined = subst (λ t. s ≡ t) (rw (front, back) refl) whole;
      has_user = subst (λ t. t ≢ []) front (take-ne_nil i s first below);
      has_token = subst (λ t. t ≢ []) back (drop-ne_nil (suc i) s (omega arith));
      is_last = subst (λ t. Lacks b'!' t) back lacks;
    }

split_none : (s user token : Bytes) → split_at s none ≡ ok (user, token) → ⊥
unfolding split_at
split_none s user token h = cc

split_token_id-IsTokenId :
    (s user token : Bytes) → split_token_id s ≡ ok (user, token) → IsTokenId s user token
unfolding split_token_id
split_token_id-IsTokenId s user token h = elim (Option-cases (last_index b'!' s)) [
  | inl e ↦ absurd (split_none s user token (subst (λ o. split_at s o ≡ ok (user, token)) e h))
  | inr (i, e) ↦
      split_at-IsTokenId s user token i e (subst (λ o. split_at s o ≡ ok (user, token)) e h)
]

length-ne_nil : (s : Bytes) → s ≢ [] → length s ≢ 0
length-ne_nil [] h = absurd (h refl)
length-ne_nil (x ∷ s) h = omega arith

drop-suc-append : (c : ℕ) (s t : Bytes) → drop (suc (length s)) (s ++ c ∷ t) ≡ t
drop-suc-append c [] t = refl
drop-suc-append c (x ∷ s) t = drop-suc-append c s t

IsTokenId-split_at :
    (user token : Bytes)
    → user ≢ []
    → token ≢ []
    → split_at (user ++ b'!' ∷ token) (some (length user)) ≡ ok (user, token)
unfolding split_at
IsTokenId-split_at user token hu ht = ground (
  arith,
  length-append user (b'!' ∷ token),
  length-ne_nil user hu,
  length-ne_nil token ht,
  take-length-append user (b'!' ∷ token),
  drop-suc-append b'!' user token,
)

-- A token ID is split into a user and a name exactly when neither is empty, they make up the text
-- with a '!' between them, and the name holds no '!'.
pub split_token_id_iff :
    (s user token : Bytes) → (split_token_id s ≡ ok (user, token)) ↔ IsTokenId s user token
unfolding split_token_id
split_token_id_iff s user token = (
  split_token_id-IsTokenId s user token,
  λ h.
      subst (λ t. split_token_id t ≡ ok (user, token)) (sym h.joined)
        (rw (last_index-append b'!' user token h.is_last)
          (IsTokenId-split_at user token h.has_user h.has_token)),
)
