-- ===== src/Text/Decimal.antt =====
-- Go's strconv, for unsigned numbers in decimal.
use agentic_ebpf_patrol.Prelude.{
  ℕ, zero, suc, ◌+◌, ◌-◌, ◌*◌, ◌/◌, ◌%◌, ◌<◌, ◌≤◌, ◌≡◌, ◌≢◌, ◌^◌, ◌∙◌, refl, Bool, ◌&&◌, [], ◌∷◌,
  Option, none, some, Bytes, All, ltb, leb, arith, if◌then◌else◌,
}

-- The last digit first, in front of what is there.
unfoldable pub emit : ℕ → ℕ → Bytes → Bytes
emit zero n out = out
emit (suc fuel) n out =
    let rest = emit fuel (n / 10) ((48 + n % 10) ∷ out) in if ltb n 10 then (48 + n) ∷ out else rest

-- A 64-bit number has at most 20 digits.
unfoldable pub format_uint : ℕ → Bytes
unfolding emit
format_uint n = emit 20 n []

abbrev pub is_digit : ℕ → Bool
is_digit c = leb 48 c && leb c 57

unfoldable pub scan : Bytes → ℕ → Option ℕ
scan [] acc = some acc
scan (c ∷ s) acc = let rest = scan s (acc * 10 + (c - 48)) in if is_digit c then rest else none

-- The number that a text of digits spells.
unfoldable pub parse_uint : Bytes → Option ℕ
unfolding scan
parse_uint [] = none
parse_uint (c ∷ s) = scan (c ∷ s) 0

abbrev pow10 : ℕ → ℕ
pow10 zero = 1
pow10 (suc k) = 10 * pow10 k

scan_small : (n : ℕ) (out : Bytes) → n < 10 → scan ((48 + n) ∷ out) 0 ≡ scan out n
unfolding scan
scan_small n out h = ground arith

scan_last : (n : ℕ) (out : Bytes) → scan ((48 + n % 10) ∷ out) (n / 10) ≡ scan out n
unfolding scan
scan_last n out = ground arith

scan-emit : (fuel n : ℕ) (out : Bytes) → n < pow10 fuel → scan (emit fuel n out) 0 ≡ scan out n
unfolding emit
scan-emit zero n out h = ground arith
scan-emit (suc fuel) n out h = ground (
  arith,
  scan_small n out,
  scan_last n out,
  scan-emit fuel (n / 10) ((48 + n % 10) ∷ out) (omega arith),
)

emit-ne-nil : (fuel n : ℕ) (out : Bytes) → out ≢ [] → emit fuel n out ≢ []
unfolding emit
emit-ne-nil zero n out h = h
emit-ne-nil (suc fuel) n out h = ground (arith, emit-ne-nil fuel (n / 10) ((48 + n % 10) ∷ out))

abbrev pub IsDigit : ℕ → Type 0
IsDigit c = (48 ≤ c) × (c ≤ 57)

emit-IsDigit : (fuel n : ℕ) (out : Bytes) → All IsDigit out → All IsDigit (emit fuel n out)
unfolding emit
emit-IsDigit zero n out h = h
emit-IsDigit (suc fuel) n out h = ground (arith, emit-IsDigit fuel (n / 10) ((48 + n % 10) ∷ out))

pub format_uint-IsDigit : (n : ℕ) → All IsDigit (format_uint n)
unfolding format_uint
format_uint-IsDigit n = emit-IsDigit 20 n [] tt

format_uint-ne-nil : (n : ℕ) → format_uint n ≢ []
unfolding format_uint
format_uint-ne-nil n = ground (arith, emit-ne-nil 19 (n / 10) ((48 + n % 10) ∷ []))

parse-scan : (s : Bytes) → s ≢ [] → parse_uint s ≡ scan s 0
unfolding parse_uint
parse-scan [] h = absurd (h refl)
parse-scan (c ∷ s) h = refl

-- A 64-bit number is read back from its digits.
pub parse_uint-format_uint : (n : ℕ) → n < 2 ^ 64 → parse_uint (format_uint n) ≡ some n
unfolding format_uint scan
parse_uint-format_uint n h =
    parse-scan (format_uint n) (format_uint-ne-nil n) ∙ scan-emit 20 n [] (omega arith)
