-- ===== src/Pveapi/Classify/Search.antt =====
-- What `classifyPVEError` of internal/pveapi/client.go finds, stated without its searches.
use vault_custom_secrets_eng.Base.{
  ℕ, ◌≡◌, ◌≢◌, ◌↔◌, ◌⊎◌, inl, inr, refl, true, false, Option, some, [], ◌∷◌, ◌++◌, Bytes, codes,
  has_prefix, contains, Bool-cases, is_empty, arith, ◌∙◌, sym, append_assoc,
}
use vault_custom_secrets_eng.Pveapi.Errors.{
  Sentinel, user_not_found, conflict, forbidden, unauthenticated,
}
use vault_custom_secrets_eng.Pveapi.Classify.{
  ErrorBody, lower, haystack, classify_text, classify_pve_error,
}

-- One text stands within another.
abbrev pub Within : Bytes → Bytes → Type 0
Within t s = (before : Bytes) × (after : Bytes) × (s ≡ before ++ (t ++ after))

has_prefix-some : (s t : Bytes) → has_prefix s t ≡ true → (after : Bytes) × (s ≡ t ++ after)
unfolding has_prefix
has_prefix-some s [] h = (s, refl)
has_prefix-some [] (c ∷ t) h = cc
has_prefix-some (x ∷ s) (c ∷ t) h =
    let (after, e) = has_prefix-some s t (ground arith) in (after, ground (arith, e))

has_prefix-append : (t after : Bytes) → has_prefix (t ++ after) t ≡ true
unfolding has_prefix
has_prefix-append [] after = refl
has_prefix-append (c ∷ t) after = ground (arith, has_prefix-append t after)

contains-Within : (s t : Bytes) → contains s t ≡ true → Within t s
unfolding contains
contains-Within [] t h = let (after, e) = has_prefix-some [] t h in ([], after, e)
contains-Within (x ∷ s) t h = elim (Bool-cases (has_prefix (x ∷ s) t)) [
  | inl here ↦ let (after, e) = has_prefix-some (x ∷ s) t here in ([], after, e)
  | inr there ↦
      let (before, after, e) = contains-Within s t (ground arith) in
      (x ∷ before, after, ground (arith, e))
]

Within-contains : (before t after : Bytes) → contains (before ++ (t ++ after)) t ≡ true
unfolding contains
Within-contains [] [] [] = unfold has_prefix in refl
Within-contains [] [] (x ∷ after) = unfold has_prefix in refl
Within-contains [] (c ∷ t) after = rw (has_prefix-append (c ∷ t) after) refl
Within-contains (x ∷ before) t after = ground (arith, Within-contains before t after)

-- A text is found exactly where it stands.
pub contains_iff : (s t : Bytes) → (contains s t ≡ true) ↔ Within t s
contains_iff s t =
    (contains-Within s t, λ (before, after, e). rw e (Within-contains before t after))

-- The longer text holds the shorter, so that its test decides nothing.
token_exists-Within :
    (h : Bytes) → Within (codes "token already exists") h → Within (codes "already exists") h
token_exists-Within h (before, after, e) =
    (before ++ codes "token ", after, e ∙ sym (append_assoc before (codes "token ") _))

token_exists-contains :
    (h : Bytes)
    → contains h (codes "token already exists") ≡ true
    → contains h (codes "already exists") ≡ true
token_exists-contains h e =
    (contains_iff h (codes "already exists")).1
      (token_exists-Within h ((contains_iff h (codes "token already exists")).0 e))

classify_text-conflict :
    (h : Bytes) → (classify_text h ≡ some conflict) ↔ (contains h (codes "already exists") ≡ true)
unfolding classify_text
classify_text-conflict h = ground (arith, token_exists-contains h)

classify_text-user_not_found :
    (h : Bytes)
    → (classify_text h ≡ some user_not_found)
      ↔ ((contains h (codes "no such user") ≡ true) × (contains h (codes "already exists") ≡ false))
unfolding classify_text
classify_text-user_not_found h = ground (arith, token_exists-contains h)

-- PVE's own errors come with the statuses 400 and 500 and a body.
abbrev pub IsPveError : ℕ → Bytes → Type 0
IsPveError status body = ((status ≡ 400) ⊎ (status ≡ 500)) × (body ≢ [])

not_empty : (s : Bytes) → (is_empty s ≡ false) ↔ (s ≢ [])
not_empty [] = (λ h. cc, λ h. absurd (h refl))
not_empty (x ∷ s) = (λ h. λ e. cc, λ h. refl)

classify-text :
    (status : ℕ) (body : Bytes) (d : Option ErrorBody) (s : Sentinel)
    → s ≢ unauthenticated
    → s ≢ forbidden
    → (classify_pve_error status body d ≡ some s)
      ↔ (IsPveError status body × (classify_text (lower (haystack d body)) ≡ some s))
unfolding classify_pve_error
classify-text status body d s a b = ground (arith, not_empty body)

not-Within : (h t : Bytes) → (contains h t ≡ false) ↔ (¬ Within t h)
not-Within h t = (
  λ e w. cc (e, (contains_iff h t).1 w),
  λ absent. elim (Bool-cases (contains h t)) [
    | inl found ↦ absurd (absent ((contains_iff h t).0 found))
    | inr e ↦ e
  ],
)

pub classify_pve_error_iff :
    (status : ℕ) (body : Bytes) (d : Option ErrorBody)
    → let h = lower (haystack d body) in
      ((classify_pve_error status body d ≡ some user_not_found) ↔ (
        IsPveError status body
        × Within (codes "no such user") h
        × (¬ Within (codes "already exists") h)))
      × ((classify_pve_error status body d ≡ some conflict)
          ↔ (IsPveError status body × Within (codes "already exists") h))
classify_pve_error_iff status body d =
    let h = lower (haystack d body) in
    let gone = classify-text status body d user_not_found (λ e. cc) (λ e. cc) in
    let taken = classify-text status body d conflict (λ e. cc) (λ e. cc) in
    (
      (
        λ e.
            let (pve, t) = gone.0 e in
            let (found, free) = (classify_text-user_not_found h).0 t in
            (pve, (contains_iff h _).0 found, (not-Within h _).0 free),
        λ (pve, found, free). gone.1 (
          pve,
          (classify_text-user_not_found h).1 ((contains_iff h _).1 found, (not-Within h _).1 free),
        ),
      ),
      (
        λ e.
            let (pve, t) = taken.0 e in
            (pve, (contains_iff h _).0 ((classify_text-conflict h).0 t)),
        λ (pve, found). taken.1 (pve, (classify_text-conflict h).1 ((contains_iff h _).1 found)),
      ),
    )
