-- ===== src/Pveapi/Groups/Split.antt =====
-- What internal/pveapi/types.go makes of a user's groups.
use vault_custom_secrets_eng.Base.{
  ℕ, ◌≡◌, ◌≢◌, ◌↔◌, ◌⊎◌, inl, inr, refl, true, List, [], ◌∷◌, ◌++◌, Bytes, text_eq_iff, ◌==◌, All,
  Lacks, Bool-cases, arith, ap, ◌∙◌, sym, subst,
}
use vault_custom_secrets_eng.Unicode.{trim_space}
use vault_custom_secrets_eng.Pveapi.Errors.{Result, ok}
use vault_custom_secrets_eng.Pveapi.Groups.{
  RawGroups, split_on, split_step, normalize_groups, split_group_csv, decode_user_groups,
}
use vault_custom_secrets_eng.Creds.{contains_group}

-- The parts with the byte between them.
abbrev pub join_on : ℕ → List Bytes → Bytes
join_on c [] = []
join_on c (part ∷ []) = part
join_on c (part ∷ next ∷ parts) = part ++ c ∷ join_on c (next ∷ parts)

join_first :
    (c x : ℕ) (part : Bytes) (parts : List Bytes)
    → join_on c ((x ∷ part) ∷ parts) ≡ x ∷ join_on c (part ∷ parts)
join_first c x part [] = refl
join_first c x part (next ∷ parts) = refl

split_step_lem :
    (c x : ℕ) (parts : List Bytes)
    → parts ≢ []
    → All (Lacks c) parts
    → (split_step c x parts ≢ [])
      × (join_on c (split_step c x parts) ≡ x ∷ join_on c parts)
      × All (Lacks c) (split_step c x parts)
unfolding split_step
split_step_lem c x [] ne h = absurd (ne refl)
split_step_lem c x (part ∷ parts) ne h = elim (Bool-cases (x == c)) [
  | inl same ↦ rw same (λ e. cc, ground arith, (tt, h))
  | inr other ↦ rw other (λ e. cc, join_first c x part parts, ((ground arith, h.0), h.1))
]

split_step_same : (c : ℕ) (parts : List Bytes) → parts ≢ [] → split_step c c parts ≡ [] ∷ parts
unfolding split_step
split_step_same c [] ne = absurd (ne refl)
split_step_same c (part ∷ parts) ne = ground arith

split_step_other :
    (c x : ℕ) (part : Bytes) (parts : List Bytes)
    → x ≢ c
    → split_step c x (part ∷ parts) ≡ (x ∷ part) ∷ parts
unfolding split_step
split_step_other c x part parts ne = ground arith

split_on_lem :
    (c : ℕ) (s : Bytes)
    → (split_on c s ≢ []) × (join_on c (split_on c s) ≡ s) × All (Lacks c) (split_on c s)
unfolding split_on
split_on_lem c [] = (λ e. cc, refl, (tt, tt))
split_on_lem c (x ∷ s) =
    let (ne, joined, lacks) = split_on_lem c s in
    let (ne', joined', lacks') = split_step_lem c x (split_on c s) ne lacks in
    (ne', joined' ∙ ap (λ t. x ∷ t) joined, lacks')

-- One of the groups, with its white space trimmed, is the group, which is not empty.
abbrev pub Names : Bytes → List Bytes → Type 0
Names group [] = ⊥
Names group (g ∷ groups) = ((trim_space g ≡ group) × (group ≢ [])) ⊎ Names group groups

normalize-contains :
    (groups : List Bytes) (group : Bytes)
    → (contains_group (normalize_groups groups) group ≡ true) ↔ Names group groups
unfolding normalize_groups contains_group
normalize-contains [] group = (λ h. cc, λ h. absurd h)
normalize-contains (g ∷ groups) group =
    ground (arith, text_eq_iff (trim_space g) group, normalize-contains groups group)

-- The groups that a JSON value of the field names: those of an array, or the parts of a text between
-- its commas.
abbrev pub NamesRaw : Bytes → RawGroups → Type 0
NamesRaw group (RawGroups.array groups) = Names group groups
NamesRaw group (RawGroups.text s) =
    (parts : List Bytes) × (join_on b',' parts ≡ s) × All (Lacks b',') parts × Names group parts
NamesRaw group _ = ⊥

split_on-append :
    (c : ℕ) (part rest : Bytes)
    → Lacks c part
    → split_on c (part ++ c ∷ rest) ≡ part ∷ split_on c rest
unfolding split_on
split_on-append c [] rest h = split_step_same c (split_on c rest) (split_on_lem c rest).0
split_on-append c (x ∷ part) rest h =
    ap (split_step c x) (split_on-append c part rest h.1)
    ∙ split_step_other c x part (split_on c rest) h.0

split_on-Lacks : (c : ℕ) (part : Bytes) → Lacks c part → split_on c part ≡ part ∷ []
unfolding split_on
split_on-Lacks c [] h = refl
split_on-Lacks c (x ∷ part) h =
    ap (split_step c x) (split_on-Lacks c part h.1) ∙ split_step_other c x part [] h.0

-- A text has one way to be cut at a byte.
split_on-join :
    (c : ℕ) (part : Bytes) (parts : List Bytes)
    → All (Lacks c) (part ∷ parts)
    → split_on c (join_on c (part ∷ parts)) ≡ part ∷ parts
split_on-join c part [] h = split_on-Lacks c part h.0
split_on-join c part (next ∷ parts) h =
    split_on-append c part (join_on c (next ∷ parts)) h.0
    ∙ ap (λ ps. part ∷ ps) (split_on-join c next parts h.1)

csv-contains :
    (s group : Bytes)
    → (contains_group (split_group_csv s) group ≡ true) ↔ Names group (split_on b',' s)
unfolding split_group_csv split_on contains_group trim_space
csv-contains [] group =
    (λ h. cc, λ h. elim h [ inl (e, ne) ↦ absurd (ne (sym e)) | inr never ↦ absurd never ])
csv-contains (b ∷ s) group = normalize-contains (split_on b',' (b ∷ s)) group

Names-of_parts :
    (s group : Bytes) (parts : List Bytes)
    → join_on b',' parts ≡ s
    → All (Lacks b',') parts
    → Names group parts
    → Names group (split_on b',' s)
Names-of_parts s group [] e h n = absurd n
Names-of_parts s group (part ∷ parts) e h n =
    subst (Names group) (sym (split_on-join b',' part parts h) ∙ ap (split_on b',') e) n

ok_injective : {a b : List Bytes} → Result.ok a ≡ ok b → a ≡ b
ok_injective e = cc

no_groups :
    (groups : List Bytes) (group : Bytes) → [] ≡ groups → (contains_group groups group ≡ true) ↔ ⊥
unfolding contains_group
no_groups groups group e =
    subst (λ (found : List Bytes). (contains_group found group ≡ true) ↔ ⊥) e
      (λ h. cc, λ h. absurd h)

-- Where the JSON of a user's groups decodes, the read-back finds exactly the groups that it names:
-- an element of an array, or a part of a text between its commas, with white space trimmed and not
-- empty then.
pub decode_user_groups_iff :
    (raw : RawGroups) (groups : List Bytes) (group : Bytes)
    → decode_user_groups raw ≡ ok groups
    → (contains_group groups group ≡ true) ↔ NamesRaw group raw
unfolding decode_user_groups
decode_user_groups_iff RawGroups.absent groups group e = no_groups groups group (ok_injective e)
decode_user_groups_iff RawGroups.null groups group e = no_groups groups group (ok_injective e)
decode_user_groups_iff RawGroups.other groups group e = cc
decode_user_groups_iff (RawGroups.array gs) groups group e =
    subst (λ (found : List Bytes). (contains_group found group ≡ true) ↔ Names group gs)
      (ok_injective e) (normalize-contains gs group)
decode_user_groups_iff (RawGroups.text s) groups group e =
    subst
      (λ (found : List Bytes).
        (contains_group found group ≡ true) ↔ NamesRaw group (RawGroups.text s))
      (ok_injective e)
      (
        λ h.
            let (ne, joined, lacks) = split_on_lem b',' s in
            (split_on b',' s, joined, lacks, (csv-contains s group).0 h),
        λ (parts, joined, lacks, n).
            (csv-contains s group).1 (Names-of_parts s group parts joined lacks n),
      )
