-- ===== src/Text/Utf8.antt =====
-- What a string turns into when `encoding/json` writes it and reads it back: each byte that is not
-- part of a valid UTF-8 sequence becomes U+FFFD, the rest stays.
pub mod Again
use agentic_ebpf_patrol.Prelude.{
  ℕ, zero, suc, Bool, ◌&&◌, ◌||◌, [], ◌∷◌, Bytes, ltb, leb, ◌==◌, if◌then◌else◌, get_or,
}

abbrev between : ℕ → ℕ → ℕ → Bool
between lo hi c = leb lo c && leb c hi

-- The number of bytes after the first of the sequence that starts with these four bytes, plus one;
-- 0 if no valid sequence starts here (RFC 3629).
unfoldable pub rune_width : ℕ → ℕ → ℕ → ℕ → ℕ
rune_width a b c d =
    if ltb a 0x80
    then 1
    else if between 0xC2 0xDF a && between 0x80 0xBF b
    then 2
    else if ((a == 0xE0) && between 0xA0 0xBF b
          || (((between 0xE1 0xEC a || between 0xEE 0xEF a) && between 0x80 0xBF b)
              || ((a == 0xED) && between 0x80 0x9F b)))
        && between 0x80 0xBF c
    then 3
    else if ((a == 0xF0) && between 0x90 0xBF b
          || ((between 0xF1 0xF3 a && between 0x80 0xBF b) || ((a == 0xF4) && between 0x80 0x8F b)))
        && (between 0x80 0xBF c && between 0x80 0xBF d)
    then 4
    else 0

-- The first argument is how many bytes of the current sequence are still to be copied.
unfoldable pub coerce_from : ℕ → Bytes → Bytes
unfolding rune_width
coerce_from k [] = []
coerce_from (suc k) (c ∷ s) = c ∷ coerce_from k s
coerce_from zero (c ∷ s) = elim (rune_width c (get_or s 0 0) (get_or s 1 0) (get_or s 2 0)) [
  | zero ↦ 0xEF ∷ 0xBF ∷ 0xBD ∷ coerce_from zero s
  | suc k ↦ c ∷ coerce_from k s
]

unfoldable pub json_string : Bytes → Bytes
unfolding coerce_from
json_string s = coerce_from 0 s
