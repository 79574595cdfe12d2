-- ===== src/Unicode.antt =====
-- What the program uses of Go's standard library for Unicode text: the runes that `range` makes of
-- a string, `unicode.IsSpace` and `strings.TrimSpace`.
pub mod Ascii
use vault_custom_secrets_eng.Base.{
  ℕ, zero, suc, ◌+◌, ◌*◌, ◌%◌, Bool, true, ◌||◌, ◌&&◌, List, [], ◌∷◌, Bytes, ◌==◌, ltb, leb,
  if◌then◌else◌,
}

-- The replacement character, for a byte that begins no valid sequence.
abbrev pub rune_error : ℕ
rune_error = 0xfffd

abbrev pub within : ℕ → ℕ → ℕ → Bool
within lo hi c = leb lo c && leb c hi

-- The decoders take the bytes behind the first, and give the rune and how many of those bytes it
-- takes.
unfoldable pub decode_two : ℕ → Bytes → ℕ × ℕ
decode_two b [] = (rune_error, 0)
decode_two b (c ∷ s) = if within 0x80 0xbf c then (b % 32 * 64 + c % 64, 1) else (rune_error, 0)

unfoldable pub decode_three : ℕ → ℕ → ℕ → Bytes → ℕ × ℕ
decode_three lo hi b [] = (rune_error, 0)
decode_three lo hi b (c ∷ []) = (rune_error, 0)
decode_three lo hi b (c ∷ d ∷ s) =
    if within lo hi c && within 0x80 0xbf d
    then ((b % 16 * 64 + c % 64) * 64 + d % 64, 2)
    else (rune_error, 0)

unfoldable pub decode_four : ℕ → ℕ → ℕ → Bytes → ℕ × ℕ
decode_four lo hi b [] = (rune_error, 0)
decode_four lo hi b (c ∷ []) = (rune_error, 0)
decode_four lo hi b (c ∷ d ∷ []) = (rune_error, 0)
decode_four lo hi b (c ∷ d ∷ e ∷ s) =
    if within lo hi c && (within 0x80 0xbf d && within 0x80 0xbf e)
    then (((b % 8 * 64 + c % 64) * 64 + d % 64) * 64 + e % 64, 3)
    else (rune_error, 0)

-- `utf8.DecodeRune`
unfoldable pub decode_rune : ℕ → Bytes → ℕ × ℕ
unfolding decode_two decode_three decode_four
decode_rune b s =
    if ltb b 0x80
    then (b, 0)
    else if within 0xc2 0xdf b
    then decode_two b s
    else if b == 0xe0
    then decode_three 0xa0 0xbf b s
    else if b == 0xed
    then decode_three 0x80 0x9f b s
    else if within 0xe1 0xef b
    then decode_three 0x80 0xbf b s
    else if b == 0xf0
    then decode_four 0x90 0xbf b s
    else if b == 0xf4
    then decode_four 0x80 0x8f b s
    else if within 0xf1 0xf3 b
    then decode_four 0x80 0xbf b s
    else (rune_error, 0)

-- The first argument counts the bytes that belong to the rune before.
unfoldable pub runes_from : ℕ → Bytes → List ℕ
runes_from skip [] = []
runes_from zero (b ∷ s) = let (r, more) = decode_rune b s in r ∷ runes_from more s
runes_from (suc skip) (b ∷ s) = runes_from skip s

-- `for _, r := range s`
unfoldable pub runes : Bytes → List ℕ
unfolding runes_from
runes s = runes_from 0 s

-- `unicode.IsSpace`
unfoldable pub is_space : ℕ → Bool
is_space r =
    within 0x09 0x0d r
    || (r == 0x20
        || (r == 0x85
            || (r == 0xa0
                || (r == 0x1680
                    || (within 0x2000 0x200a r
                        || (r == 0x2028
                            || (r == 0x2029 || (r == 0x202f || (r == 0x205f || r == 0x3000)))))))))

unfoldable pub all_space : List ℕ → Bool
unfolding is_space
all_space [] = true
all_space (r ∷ rs) = is_space r && all_space rs

-- The first argument counts the bytes that belong to the rune before.
unfoldable pub trim_left_from : ℕ → Bytes → Bytes
trim_left_from skip [] = []
trim_left_from zero (b ∷ s) =
    let (r, more) = decode_rune b s in
    let rest = trim_left_from more s in if is_space r then rest else b ∷ s
trim_left_from (suc skip) (b ∷ s) = trim_left_from skip s

unfoldable pub trim_right_from : ℕ → Bytes → Bytes
trim_right_from skip [] = []
trim_right_from zero (b ∷ s) =
    let rest = trim_right_from (decode_rune b s).1 s in
    if all_space (runes_from zero (b ∷ s)) then [] else b ∷ rest
trim_right_from (suc skip) (b ∷ s) = b ∷ trim_right_from skip s

-- `strings.TrimSpace`
unfoldable pub trim_space : Bytes → Bytes
unfolding trim_left_from trim_right_from
trim_space s = trim_right_from 0 (trim_left_from 0 s)
