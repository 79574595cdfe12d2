-- ===== src/Userid/Suffix.antt =====
-- `randomSuffix` of userid.go: five random bytes as eight characters of Crockford's base 32.
use vault_custom_secrets_eng.Base.{
  ℕ, zero, suc, ◌+◌, ◌*◌, ◌/◌, ◌%◌, ◌^◌, ◌≤◌, ◌<◌, ◌≡◌, ◌⊎◌, refl, none, some, [], ◌∷◌, Bytes, All,
  codes, length, get_elem?, Bool, true, ◌&&◌, ◌||◌, ◌==◌, leb, if◌then◌else◌, arith,
}

abbrev pub crockford_base32 : Bytes
crockford_base32 = codes "0123456789abcdefghjkmnpqrstvwxyz"

-- `crockfordBase32[i]`; an index out of range would panic, and `val & 0x1F` is below 32.
unfoldable pub crockford_char : ℕ → ℕ
crockford_char i = elim (get_elem? crockford_base32 i) [ some c ↦ c | none ↦ 0 ]

-- The first loop, on a `uint64`. The eight low bits of `val << 8` are zero, so `|` adds.
unfoldable pub pack_bytes : ℕ → Bytes → ℕ
pack_bytes val [] = val
pack_bytes val (b ∷ bs) = pack_bytes (val * 2 ^ 8 % 2 ^ 64 + b) bs

-- The second loop fills the buffer from its end: `val & 0x1F`, then `val >>= 5`.
unfoldable pub suffix_loop : ℕ → ℕ → Bytes → Bytes
suffix_loop zero val buf = buf
suffix_loop (suc i) val buf = suffix_loop i (val / 2 ^ 5) (crockford_char (val % 2 ^ 5) ∷ buf)

-- `randomSuffix` for the bytes that `rand.Read` gave.
unfoldable pub suffix_of : Bytes → Bytes
unfolding pack_bytes suffix_loop
suffix_of bytes = suffix_loop 8 (pack_bytes 0 bytes) []

suffix_zero : suffix_of (0 ∷ 0 ∷ 0 ∷ 0 ∷ 33 ∷ []) ≡ codes "00000011"
unfolding suffix_of crockford_char
suffix_zero = refl

-- A character of the alphabet: a digit or a lower-case letter.
abbrev pub IsSuffixByte : ℕ → Type 0
IsSuffixByte c = (b'0' ≤ c) × (c ≤ b'9') ⊎ (b'a' ≤ c) × (c ≤ b'z')

-- The index of a character of the alphabet.
abbrev index_of : ℕ → Bytes → ℕ
index_of c [] = 0
index_of c (x ∷ xs) = if c == x then 0 else suc (index_of c xs)

checks : ℕ → Bool
checks i =
    let c = crockford_char i in
    (index_of c crockford_base32 == i) && ((leb b'0' c && leb c b'9') || (leb b'a' c && leb c b'z'))

all_below : ℕ → Bool
all_below zero = true
all_below (suc n) = checks n && all_below n

all_below_sound : (n i : ℕ) → all_below n ≡ true → i < n → checks i ≡ true
unfolding all_below
all_below_sound zero i h lt = absurd (omega arith)
all_below_sound (suc n) i h lt = ground (arith, all_below_sound n i)

alphabet_table : all_below 32 ≡ true
unfolding all_below checks crockford_char
alphabet_table = refl

crockford_char_lem :
    (i : ℕ)
    → i < 32
    → (index_of (crockford_char i) crockford_base32 ≡ i) × IsSuffixByte (crockford_char i)
unfolding checks
crockford_char_lem i h = ground (arith, all_below_sound 32 i alphabet_table h)

-- The value that the characters stand for, the first the most significant.
suffix_value : ℕ → Bytes → ℕ
suffix_value acc [] = acc
suffix_value acc (c ∷ cs) = suffix_value (acc * 32 + index_of c crockford_base32) cs

index_of-crockford_char :
    (v : ℕ) → index_of (crockford_char (v % 2 ^ 5)) crockford_base32 ≡ v % 2 ^ 5
index_of-crockford_char v = (crockford_char_lem (v % 2 ^ 5) (omega arith)).0

suffix_value_loop : (v : ℕ) → suffix_value 0 (suffix_loop 8 v []) ≡ v % 2 ^ 40
unfolding suffix_loop suffix_value
suffix_value_loop v = simp index_of-crockford_char (omega arith)

suffix_loop-All :
    (n v : ℕ) (buf : Bytes) → All IsSuffixByte buf → All IsSuffixByte (suffix_loop n v buf)
unfolding suffix_loop
suffix_loop-All zero v buf h = h
suffix_loop-All (suc n) v buf h =
    suffix_loop-All n (v / 2 ^ 5) (crockford_char (v % 2 ^ 5) ∷ buf)
      ((crockford_char_lem (v % 2 ^ 5) (omega arith)).1, h)

-- Whatever the random bytes, the suffix has eight characters, each a digit or a lower-case letter.
pub suffix_of_shape :
    (bytes : Bytes) → (length (suffix_of bytes) ≡ 8) × All IsSuffixByte (suffix_of bytes)
unfolding suffix_of
suffix_of_shape bytes = (unfold suffix_loop in refl, suffix_loop-All 8 (pack_bytes 0 bytes) [] tt)

IsByte : ℕ → Type 0
IsByte b = b < 256

pack_five :
    (a b c d e : ℕ)
    → IsByte a
    → IsByte b
    → IsByte c
    → IsByte d
    → IsByte e
    → pack_bytes 0 (a ∷ b ∷ c ∷ d ∷ e ∷ []) ≡ (((a * 256 + b) * 256 + c) * 256 + d) * 256 + e
unfolding pack_bytes IsByte
pack_five a b c d e ha hb hc hd he = omega arith

-- The five bytes of a value below 2^40.
abbrev five_bytes : ℕ → Bytes
five_bytes v = v / 2 ^ 32 ∷ v / 2 ^ 24 % 256 ∷ v / 2 ^ 16 % 256 ∷ v / 2 ^ 8 % 256 ∷ v % 256 ∷ []

-- Reading the characters of a suffix as digits in base 32 gives the random bytes back.
suffix_of_roundtrip :
    (bytes : Bytes)
    → length bytes ≡ 5
    → All (λ b. b < 256) bytes
    → five_bytes (suffix_value 0 (suffix_of bytes)) ≡ bytes
unfolding suffix_of IsByte
suffix_of_roundtrip (a ∷ b ∷ c ∷ d ∷ e ∷ []) n h =
    rw
      (
        suffix_value_loop (pack_bytes 0 (a ∷ b ∷ c ∷ d ∷ e ∷ [])),
        pack_five a b c d e h.0 h.1.0 h.1.1.0 h.1.1.1.0 h.1.1.1.1.0,
      )
      (ground arith)
suffix_of_roundtrip [] n h = absurd (omega arith)
suffix_of_roundtrip (a ∷ []) n h = absurd (omega arith)
suffix_of_roundtrip (a ∷ b ∷ []) n h = absurd (omega arith)
suffix_of_roundtrip (a ∷ b ∷ c ∷ []) n h = absurd (omega arith)
suffix_of_roundtrip (a ∷ b ∷ c ∷ d ∷ []) n h = absurd (omega arith)
suffix_of_roundtrip (a ∷ b ∷ c ∷ d ∷ e ∷ f ∷ s) n h = absurd (omega arith)

-- Different random bytes give different suffixes.
pub suffix_of_injective :
    (xs ys : Bytes)
    → length xs ≡ 5
    → length ys ≡ 5
    → All (λ b. b < 256) xs
    → All (λ b. b < 256) ys
    → suffix_of xs ≡ suffix_of ys
    → xs ≡ ys
suffix_of_injective xs ys nx ny hx hy e =
    cc (suffix_of_roundtrip xs nx hx, suffix_of_roundtrip ys ny hy)
