-- ===== src/Pveapi/Permissions/Ancestors.antt =====
-- `HasPrivilege` of internal/pveapi/types.go against the ancestors of a path.
use vault_custom_secrets_eng.Base.{
  trim_right, ℕ, zero, suc, ◌<◌, ◌≡◌, ◌≢◌, ◌↔◌, ◌⊎◌, inl, inr, refl, ap, sym, ◌∙◌, append_assoc,
  Bool, true, Option, none, some, [], ◌∷◌, ◌++◌, Bytes, codes, length, length-append, take,
  take-length-append, subst, text_eq→eq, eq→text_eq, drop, text_eq, text_eq_iff, last_index,
  last_index-some, last_index-none, last_index-append, Lacks, Bool-cases, Option-cases, ℤ, pos,
  arith,
}
use vault_custom_secrets_eng.Pveapi.Permissions.{
  PermissionTree, grant, holds_at, parent, has_privilege_loop, normalise, has_privilege, or_denied,
}

-- The root lies above every other path, and a path lies above what follows it behind a slash.
pub data IsAbove : Bytes → Bytes → Type 0 where
  root : {p q : Bytes} → q ≡ codes "/" → p ≢ codes "/" → IsAbove q p
  segment : {p q : Bytes} (rest : Bytes) → q ≢ [] → p ≡ q ++ b'/' ∷ rest → IsAbove q p

pub data IsAtOrAbove (q p : Bytes) : Type 0 where
  at : q ≡ p → IsAtOrAbove q p
  above : IsAbove q p → IsAtOrAbove q p

no_root_segment : (q rest : Bytes) → q ≢ [] → codes "/" ≢ q ++ b'/' ∷ rest
no_root_segment [] rest ne e = ne refl
no_root_segment (x ∷ []) rest ne e = cc
no_root_segment (x ∷ y ∷ q) rest ne e = cc

not-IsAbove-root : {q : Bytes} → IsAbove q (codes "/") → ⊥
not-IsAbove-root {q} (root e ne) = ne refl
not-IsAbove-root {q} (segment rest ne e) = no_root_segment q rest ne e

IsAbove-ne-root : {q c : Bytes} → IsAbove q c → c ≢ codes "/"
IsAbove-ne-root h e = not-IsAbove-root (subst (IsAbove _) e h)

-- The loop's step up goes to what stands before the last slash.
parent-segment : (q rest : Bytes) → q ≢ [] → Lacks b'/' rest → parent (q ++ b'/' ∷ rest) ≡ q
unfolding parent
parent-segment [] rest ne lacks = absurd (ne refl)
parent-segment (x ∷ q) rest ne lacks =
    ground
      (arith, last_index-append b'/' (x ∷ q) rest lacks, take-length-append (x ∷ q) (b'/' ∷ rest))

take-ne-nil : (i : ℕ) (c : Bytes) → i < length c → take (suc i) c ≢ []
take-ne-nil i [] h = absurd (omega arith)
take-ne-nil i (x ∷ c) h = cc

data ParentCases (c : Bytes) : Type 0 where
  to_root : parent c ≡ codes "/" → ParentCases c
  to_segment : (q rest : Bytes) → parent c ≡ q → q ≢ [] → c ≡ q ++ b'/' ∷ rest → ParentCases c

parent-cases : (c : Bytes) → ParentCases c
unfolding parent
parent-cases c = elim (Option-cases (last_index b'/' c)) [
  | inl e ↦ to_root (ground arith)
  | inr (zero, e) ↦ to_root (ground arith)
  | inr (suc i, e) ↦
      let (split, _, fits) = last_index-some b'/' c (suc i) e in
      to_segment (take (suc i) c) (drop (suc (suc i)) c) (ground arith)
        (take-ne-nil i c (omega arith)) split
]

IsAtOrAbove-root : (c : Bytes) → IsAtOrAbove (codes "/") c
IsAtOrAbove-root c = elim (Bool-cases (text_eq c (codes "/"))) [
  | inl same ↦ at (sym (text_eq→eq c (codes "/") same))
  | inr other ↦ above (root refl (λ e. cc (eq→text_eq c (codes "/") e)))
]

parent_two_segments :
    (q first rest : Bytes)
    → q ≢ []
    → Lacks b'/' rest
    → parent (q ++ b'/' ∷ (first ++ b'/' ∷ rest)) ≡ q ++ b'/' ∷ first
parent_two_segments [] first rest ne lacks = absurd (ne refl)
parent_two_segments (x ∷ q) first rest ne lacks =
    rw (← append_assoc (x ∷ q) (b'/' ∷ first) (b'/' ∷ rest))
      (parent-segment (x ∷ q ++ b'/' ∷ first) rest (cc) lacks)

IsAbove-parent : {q c : Bytes} → IsAbove q c → IsAtOrAbove q (parent c)
IsAbove-parent {q} {c} (root e ne) = rw e (IsAtOrAbove-root (parent c))
IsAbove-parent {q} {c} (segment rest ne e) = elim (Option-cases (last_index b'/' rest)) [
  | inl none_left ↦ at (sym (rw e (parent-segment q rest ne (last_index-none b'/' rest none_left))))
  | inr (j, found) ↦
      let (split, lacks, _) = last_index-some b'/' rest j found in
      above (
        segment (take j rest) ne
          (cc (parent_two_segments q (take j rest) (drop (suc j) rest) ne lacks)))
]

above_in_parent :
    {q p c : Bytes} (rest : Bytes)
    → p ≢ []
    → c ≡ p ++ b'/' ∷ rest
    → c ≢ codes "/"
    → IsAtOrAbove q p
    → IsAtOrAbove q c
above_in_parent rest ne e nr (at same) = above (segment rest (λ x. ne (sym same ∙ x)) (cc))
above_in_parent rest ne e nr (above (root r _)) = above (root r nr)
above_in_parent {q} rest ne e nr (above (segment first nq f)) =
    above (segment (first ++ b'/' ∷ rest) nq (cc (append_assoc q (b'/' ∷ first) (b'/' ∷ rest))))

above_in_root : {q c : Bytes} → c ≢ codes "/" → IsAtOrAbove q (codes "/") → IsAtOrAbove q c
above_in_root nr (at same) = above (root same nr)
above_in_root nr (above h) = absurd (not-IsAbove-root h)

parent-IsAbove : {q c : Bytes} → c ≢ codes "/" → IsAtOrAbove q (parent c) → IsAtOrAbove q c
parent-IsAbove {q} {c} nr h = elim (parent-cases c) [
  | to_root e ↦ above_in_root nr (subst (IsAtOrAbove q) e h)
  | to_segment p rest e ne split ↦ above_in_parent rest ne split nr (subst (IsAtOrAbove q) e h)
]

module _ (t : PermissionTree) (path priv : Bytes) where
  loop_sound :
      (fuel : ℕ) (c : Bytes)
      → has_privilege_loop fuel t path priv c ≡ some true
      → (q : Bytes) × IsAtOrAbove q c × (holds_at t path priv q ≡ true)
  unfolding has_privilege_loop
  loop_sound zero c h = cc
  loop_sound (suc fuel) c h = elim (Bool-cases (holds_at t path priv c)) [
    | inl here ↦ (c, at refl, here)
    | inr not_here ↦
        let (q, rel, found) = loop_sound fuel (parent c) (ground arith) in
        (q, parent-IsAbove (λ e. ground (arith, eq→text_eq c (codes "/") e)) rel, found)
  ]

  -- Enough rounds are left for the way up from the path.
  unfoldable pub IsEnough : ℕ → Bytes → Type 0
  IsEnough fuel c = (length c < fuel) ⊎ ((c ≡ codes "/") × (0 < fuel))

  pub IsEnough-parent :
      (fuel : ℕ) (c : Bytes)
      → c ≢ []
      → c ≢ codes "/"
      → IsEnough (suc fuel) c
      → (parent c ≢ []) × IsEnough fuel (parent c)
  unfolding IsEnough
  IsEnough-parent fuel [] ne nr h = absurd (ne refl)
  IsEnough-parent fuel (x ∷ c) ne nr h = elim (parent-cases (x ∷ c)) [
    | to_root e ↦ rw e (cc, ground arith)
    | to_segment q rest e nq split ↦
        rw e (nq, ground (arith, ap length split, length-append q (b'/' ∷ rest)))
  ]

  loop_complete :
      (fuel : ℕ) (c q : Bytes)
      → c ≢ []
      → IsEnough fuel c
      → IsAtOrAbove q c
      → holds_at t path priv q ≡ true
      → has_privilege_loop fuel t path priv c ≡ some true
  unfolding has_privilege_loop
  loop_complete zero c q ne enough rel found = absurd (unfold IsEnough in omega arith)
  loop_complete (suc fuel) c q ne enough (at e) found = ground arith
  loop_complete (suc fuel) c q ne enough (above rel) found =
      let nr = IsAbove-ne-root rel in
      let (pne, penough) = IsEnough-parent fuel c ne nr enough in
      ground (
        arith,
        text_eq_iff c (codes "/"),
        loop_complete fuel (parent c) q pne penough (IsAbove-parent rel) found,
      )

-- The privilege is granted for the path by the entry at `q`: there or above, with the flag set if
-- it stands above.
pub record IsGrantedAt (t : PermissionTree) (path priv q : Bytes) : Type 0 where
  pub above : IsAtOrAbove q path
  pub flag : ℤ
  pub entry : grant t q priv ≡ some flag
  pub effective : (q ≡ path) ⊎ (flag ≢ pos 0)

holds_at-IsGrantedAt :
    (t : PermissionTree) (path priv q : Bytes)
    → IsAtOrAbove q path
    → holds_at t path priv q ≡ true
    → IsGrantedAt t path priv q
unfolding holds_at
holds_at-IsGrantedAt t path priv q rel h = elim (Option-cases (grant t q priv)) [
  | inl e ↦ cc
  | inr (flag, e) ↦ record {
    above = rel;
    flag = flag;
    entry = e;
    effective = ground (arith, text_eq_iff q path);
  }
]

IsGrantedAt-holds_at :
    (t : PermissionTree) (path priv q : Bytes)
    → IsGrantedAt t path priv q
    → holds_at t path priv q ≡ true
unfolding holds_at
IsGrantedAt-holds_at t path priv q g = ground (arith, g.entry, g.effective, text_eq_iff q path)

pub normalise-ne-nil : (path : Bytes) → normalise path ≢ []
unfolding normalise
normalise-ne-nil path =
    elim (trim_right b'/' path) as (λ r. elim r [ [] ↦ codes "/" | x ∷ xs ↦ x ∷ xs ] ≢ []) [
      | [] ↦ cc
      | x ∷ xs ↦ cc
    ]

granted : (o : Option Bool) → or_denied o ≡ true → o ≡ some true
granted none h = cc
granted (some b) h = ap some h

-- The walk finds a privilege exactly when the tree has it at the normalised path, whatever its
-- flag, or at the root or a prefix of the path that ends before a slash, with a flag that is not
-- zero.
pub has_privilege_iff :
    (t : PermissionTree) (path priv : Bytes)
    → (has_privilege t path priv ≡ true) ↔ ((q : Bytes) × IsGrantedAt t (normalise path) priv q)
unfolding has_privilege
has_privilege_iff t path priv = (
  λ h.
      let (q, rel, found) =
        loop_sound t p priv fuel p (granted (has_privilege_loop fuel t p priv p) h) in
      (q, holds_at-IsGrantedAt t p priv q rel found),
  λ (q, g). ap or_denied (
      loop_complete t p priv fuel p q (normalise-ne-nil path) (unfold IsEnough in inl (omega arith))
        g.above (IsGrantedAt-holds_at t p priv q g)),
)
  where
    p : Bytes
    p = normalise path

    fuel : ℕ
    fuel = suc (length p)
