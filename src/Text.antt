-- ===== src/Text.antt =====
-- The functions of Go's `strings` package that the broker calls, over bytes: `HasPrefix`,
-- `Contains`, `LastIndex` and `Split` for a one-byte separator, `Join`, `TrimSpace`.
pub mod Search
pub mod Split
pub mod Trim
pub mod Utf8
pub mod Decimal
use agentic_ebpf_patrol.Prelude.{
  ℕ, zero, suc, ◌+◌, ◌-◌, Bool, true, false, ◌&&◌, ◌||◌, List, [], ◌∷◌, ◌++◌, reverse, Option, none,
  some, Bytes, ltb, leb, ◌==◌, if◌then◌else◌, get_or,
}

unfoldable pub has_prefix : Bytes → Bytes → Bool
has_prefix s [] = true
has_prefix [] (d ∷ p) = false
has_prefix (c ∷ s) (d ∷ p) = (c == d) && has_prefix s p

unfoldable pub contains : Bytes → Bytes → Bool
unfolding has_prefix
contains [] p = has_prefix [] p
contains (c ∷ s) p = has_prefix (c ∷ s) p || contains s p

-- Where the last separator stands, if there is one.
unfoldable pub last_index : Bytes → ℕ → Option ℕ
last_index [] sep = none
last_index (c ∷ s) sep = elim (last_index s sep) [
  | some i ↦ some (suc i)
  | none ↦ if c == sep then some 0 else none
]

-- Put a byte in front of the first part.
unfoldable pub extend : ℕ → List Bytes → List Bytes
extend c [] = (c ∷ []) ∷ []
extend c (p ∷ ps) = (c ∷ p) ∷ ps

unfoldable pub split : Bytes → ℕ → List Bytes
unfolding extend
split [] sep = [] ∷ []
split (c ∷ s) sep = let rest = split s sep in if c == sep then [] ∷ rest else extend c rest

unfoldable pub join : List Bytes → Bytes → Bytes
join [] sep = []
join (p ∷ []) sep = p
join (p ∷ q ∷ ps) sep = p ++ (sep ++ join (q ∷ ps) sep)

-- `\t \n \v \f \r` and the blank.
abbrev pub ascii_space : ℕ → Bool
ascii_space c = (c == 32) || (leb 9 c && leb c 13)

-- The width of the white-space rune (Unicode White_Space, in UTF-8) that starts with these three
-- bytes, 0 for none.
unfoldable pub space_width : ℕ → ℕ → ℕ → ℕ
space_width a b c =
    if ascii_space a
    then 1
    else if (a == 0xC2) && ((b == 0x85) || (b == 0xA0))
    then 2
    else if (a == 0xE1) && ((b == 0x9A) && (c == 0x80))
    then 3
    else if (a == 0xE2)
        && ((b == 0x80)
            && ((leb 0x80 c && leb c 0x8A) || ((c == 0xA8) || ((c == 0xA9) || (c == 0xAF)))))
    then 3
    else if (a == 0xE2) && ((b == 0x81) && (c == 0x9F))
    then 3
    else if (a == 0xE3) && ((b == 0x80) && (c == 0x80))
    then 3
    else 0

-- Drop white-space runes from the front; the first argument is what is left of the current one.
unfoldable pub trim_from : ℕ → Bytes → Bytes
trim_from k [] = []
trim_from (suc k) (c ∷ s) = trim_from k s
trim_from zero (c ∷ s) = elim (space_width c (get_or s 0 0) (get_or s 1 0)) [
  | zero ↦ c ∷ s
  | suc k ↦ trim_from k s
]

-- The same for a reversed text: a rune's bytes come last first.
unfoldable pub last_space_width : ℕ → ℕ → ℕ → ℕ
last_space_width c b a =
    if ascii_space c
    then 1
    else if space_width b c 0 == 2
    then 2
    else if space_width a b c == 3
    then 3
    else 0

unfoldable pub trim_reversed : ℕ → Bytes → Bytes
trim_reversed k [] = []
trim_reversed (suc k) (c ∷ s) = trim_reversed k s
trim_reversed zero (c ∷ s) = elim (last_space_width c (get_or s 0 0) (get_or s 1 0)) [
  | zero ↦ c ∷ s
  | suc k ↦ trim_reversed k s
]

unfoldable pub trim_space : Bytes → Bytes
unfolding trim_from trim_reversed space_width last_space_width
trim_space s = reverse (trim_reversed 0 (reverse (trim_from 0 s)))
