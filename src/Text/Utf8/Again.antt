-- ===== src/Text/Utf8/Again.antt =====
-- encoding/json on a string that has been through it.
use agentic_ebpf_patrol.Prelude.{
  ℕ, zero, suc, ◌<◌, ◌≡◌, refl, ap, ◌∙◌, ◌⊎◌, inl, inr, Bool, true, false, [], ◌∷◌, Bytes, arith,
  if◌then◌else◌, get_or,
}
use agentic_ebpf_patrol.Text.Utf8.{rune_width, coerce_from, json_string}

-- The form of `rune_width`: four tests.
abbrev chain : Bool → Bool → Bool → Bool → ℕ
chain one two three four =
    if one then 1 else if two then 2 else if three then 3 else if four then 4 else 0

-- The tests before the one that holds decide.
chain_one : (a b c d b' c' d' : Bool) → chain a b c d ≡ 1 → chain a b' c' d' ≡ 1
chain_one true b c d b' c' d' e = refl
chain_one false true c d b' c' d' e = absurd (omega arith)
chain_one false false true d b' c' d' e = absurd (omega arith)
chain_one false false false true b' c' d' e = absurd (omega arith)
chain_one false false false false b' c' d' e = absurd (omega arith)

chain_two : (a b c d c' d' : Bool) → chain a b c d ≡ 2 → chain a b c' d' ≡ 2
chain_two true b c d c' d' e = absurd (omega arith)
chain_two false true c d c' d' e = refl
chain_two false false true d c' d' e = absurd (omega arith)
chain_two false false false true c' d' e = absurd (omega arith)
chain_two false false false false c' d' e = absurd (omega arith)

chain_three : (a b c d d' : Bool) → chain a b c d ≡ 3 → chain a b c d' ≡ 3
chain_three true b c d d' e = absurd (omega arith)
chain_three false true c d d' e = absurd (omega arith)
chain_three false false true d d' e = refl
chain_three false false false true d' e = absurd (omega arith)
chain_three false false false false d' e = absurd (omega arith)

chain_small : (a b c d : Bool) → chain a b c d < 5
chain_small true b c d = omega arith
chain_small false true c d = omega arith
chain_small false false true d = omega arith
chain_small false false false true = omega arith
chain_small false false false false = omega arith

-- A sequence keeps its width when only bytes behind it change.
rune_width_kept :
    (k a b c d b' c' d' : ℕ)
    → rune_width a b c d ≡ suc k
    → (0 < k → b' ≡ b)
    → (1 < k → c' ≡ c)
    → (2 < k → d' ≡ d)
    → rune_width a b' c' d' ≡ suc k
unfolding rune_width
rune_width_kept zero a b c d b' c' d' e x y z = chain_one _ _ _ _ _ _ _ e
rune_width_kept (suc zero) a b c d b' c' d' e x y z = rw (x (omega arith)) (chain_two _ _ _ _ _ _ e)
rune_width_kept (suc (suc zero)) a b c d b' c' d' e x y z =
    rw (x (omega arith), y (omega arith)) (chain_three _ _ _ _ _ e)
rune_width_kept (suc (suc (suc zero))) a b c d b' c' d' e x y z =
    rw (x (omega arith), y (omega arith), z (omega arith)) e
rune_width_kept (suc (suc (suc (suc k)))) a b c d b' c' d' e x y z =
    absurd (omega (arith, e, chain_small _ _ _ _))

get_or-coerce_from : (k i : ℕ) (s : Bytes) → i < k → get_or (coerce_from k s) i 0 ≡ get_or s i 0
unfolding coerce_from
get_or-coerce_from k i [] h = refl
get_or-coerce_from zero i (c ∷ s) h = absurd (omega arith)
get_or-coerce_from (suc k) zero (c ∷ s) h = refl
get_or-coerce_from (suc k) (suc i) (c ∷ s) h = get_or-coerce_from k i s (omega arith)

ℕ-cases : (n : ℕ) → (n ≡ 0) ⊎ ((k : ℕ) × (n ≡ suc k))
ℕ-cases zero = inl refl
ℕ-cases (suc k) = inr (k, refl)

-- The width of the sequence that a text starts with.
abbrev width : ℕ → Bytes → ℕ
width c s = rune_width c (get_or s 0 0) (get_or s 1 0) (get_or s 2 0)

coerce_from-bad :
    (c : ℕ) (s : Bytes)
    → width c s ≡ 0
    → coerce_from 0 (c ∷ s) ≡ 0xEF ∷ 0xBF ∷ 0xBD ∷ coerce_from 0 s
unfolding coerce_from
coerce_from-bad c s n = rw (n, coerce_from) refl

coerce_from-rune :
    (k c : ℕ) (s : Bytes) → width c s ≡ suc k → coerce_from 0 (c ∷ s) ≡ c ∷ coerce_from k s
unfolding coerce_from
coerce_from-rune k c s n = rw (n, coerce_from) refl

-- U+FFFD is kept.
coerce_from-replacement :
    (s : Bytes) → coerce_from 0 (0xEF ∷ 0xBF ∷ 0xBD ∷ s) ≡ 0xEF ∷ 0xBF ∷ 0xBD ∷ coerce_from 0 s
unfolding coerce_from
coerce_from-replacement s = refl

width-coerce_from : (k c : ℕ) (s : Bytes) → width c s ≡ suc k → width c (coerce_from k s) ≡ suc k
width-coerce_from k c s n =
    rune_width_kept k c _ _ _ _ _ _ n (get_or-coerce_from k 0 s) (get_or-coerce_from k 1 s)
      (get_or-coerce_from k 2 s)

pub coerce_from-coerce_from :
    (k : ℕ) (s : Bytes) → coerce_from k (coerce_from k s) ≡ coerce_from k s
unfolding coerce_from
coerce_from-coerce_from k [] = refl
coerce_from-coerce_from (suc k) (c ∷ s) = ap (λ t. c ∷ t) (coerce_from-coerce_from k s)
coerce_from-coerce_from zero (c ∷ s) = elim (ℕ-cases (width c s)) [
  | inl n ↦ rw (coerce_from-bad c s n) (
      coerce_from-replacement (coerce_from 0 s)
      ∙ ap (λ t. 0xEF ∷ 0xBF ∷ 0xBD ∷ t) (coerce_from-coerce_from 0 s))
  | inr (k, n) ↦ rw (coerce_from-rune k c s n) (
      coerce_from-rune k c (coerce_from k s) (width-coerce_from k c s n)
      ∙ ap (λ t. c ∷ t) (coerce_from-coerce_from k s))
]

-- A second pass through JSON changes nothing.
pub json_string-json_string : (s : Bytes) → json_string (json_string s) ≡ json_string s
unfolding json_string
json_string-json_string s = coerce_from-coerce_from 0 s
