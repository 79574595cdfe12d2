-- ===== src/Unicode/Ascii.antt =====
-- userid.go: what the loops over runes say of the bytes.
use vault_custom_secrets_eng.Base.{
  ℕ, zero, suc, ◌≤◌, ◌<◌, ◌≡◌, refl, ap, subst, [], ◌∷◌, Bytes, All, All-map, take, arith, dec_lt,
}
use vault_custom_secrets_eng.Unicode.{
  decode_rune, runes, runes_from, decode_two, decode_three, decode_four,
}

abbrev High : Bytes → Type 0
High = All (λ b. 128 ≤ b)

-- The next two lemmas are about what `decode_rune` gives: the bytes that it takes behind the
-- first are no ASCII bytes, and neither is a rune that it makes of such a first byte.
decode_two-High :
    (b : ℕ) (s : Bytes)
    → 0xc2 ≤ b
    → b ≤ 0xdf
    → let (r, more) = decode_two b s in High (take more s) × (128 ≤ r)
unfolding decode_two
decode_two-High b [] h k = ground arith
decode_two-High b (c ∷ s) h k = ground arith

decode_three-High :
    (lo hi b : ℕ) (s : Bytes)
    → 128 ≤ lo
    → (b ≡ 0xe0 → 0xa0 ≤ lo)
    → 0xe0 ≤ b
    → b ≤ 0xef
    → hi ≤ 0xbf
    → let (r, more) = decode_three lo hi b s in High (take more s) × (128 ≤ r)
unfolding decode_three
decode_three-High lo hi b [] h k l m n = ground arith
decode_three-High lo hi b (c ∷ []) h k l m n = ground arith
decode_three-High lo hi b (c ∷ d ∷ s) h k l m n = ground arith

decode_four-High :
    (lo hi b : ℕ) (s : Bytes)
    → 128 ≤ lo
    → (b ≡ 0xf0 → 0x90 ≤ lo)
    → 0xf0 ≤ b
    → b ≤ 0xf4
    → hi ≤ 0xbf
    → let (r, more) = decode_four lo hi b s in High (take more s) × (128 ≤ r)
unfolding decode_four
decode_four-High lo hi b [] h k l m n = ground arith
decode_four-High lo hi b (c ∷ []) h k l m n = ground arith
decode_four-High lo hi b (c ∷ d ∷ []) h k l m n = ground arith
decode_four-High lo hi b (c ∷ d ∷ e ∷ s) h k l m n = ground arith

decode_rune-High :
    (b : ℕ) (s : Bytes)
    → 128 ≤ b
    → let (r, more) = decode_rune b s in High (take more s) × (128 ≤ r)
unfolding decode_rune
decode_rune-High b s h = ground (
  arith,
  decode_two-High b s,
  decode_three-High 0xa0 0xbf b s,
  decode_three-High 0x80 0x9f b s,
  decode_three-High 0x80 0xbf b s,
  decode_four-High 0x90 0xbf b s,
  decode_four-High 0x80 0xbf b s,
  decode_four-High 0x80 0x8f b s,
)

decode_rune_low : (b : ℕ) (s : Bytes) → b < 128 → decode_rune b s ≡ (b, 0)
unfolding decode_rune
decode_rune_low b s h = ground arith

-- What holds of every rune holds of every byte, if it passes from a rune past ASCII to any byte
-- past ASCII.
module _ (P : ℕ → Type 0) (from_high : (b r : ℕ) → 128 ≤ b → 128 ≤ r → P r → P b) where
  runes_from-All :
      (skip : ℕ) (s : Bytes) → All P (take skip s) → All P (runes_from skip s) → All P s
  unfolding runes_from
  runes_from-All skip [] h k = tt
  runes_from-All zero (b ∷ s) h k = elim (dec_lt b 128) [
    | yes low ↦
        let e = decode_rune_low b s low in
        let k' : All P (b ∷ runes_from 0 s) =
          subst (λ (d : ℕ × ℕ). All P (d.0 ∷ runes_from d.1 s)) e k in
        (k'.0, runes_from-All zero s tt k'.1)
    | no high ↦
        let (more_high, r_high) = decode_rune-High b s (omega arith) in
        let r = (decode_rune b s).0 in
        (
          from_high b r (omega arith) r_high k.0,
          runes_from-All (decode_rune b s).1 s
              (All-map (λ x hx. from_high x r hx r_high k.0) _ more_high) k.1,
        )
  ]
  runes_from-All (suc skip) (b ∷ s) h k = (h.0, runes_from-All skip s h.1 k)

  pub runes-All : (s : Bytes) → All P (runes s) → All P s
  unfolding runes
  runes-All s h = runes_from-All 0 s tt h

-- An ASCII text is its own list of runes.
pub runes_ascii : (s : Bytes) → All (λ b. b < 128) s → runes s ≡ s
unfolding runes runes_from
runes_ascii [] h = refl
runes_ascii (b ∷ s) h = rw (decode_rune_low b s h.0) (ap (λ t. b ∷ t) (runes_ascii s h.1))
