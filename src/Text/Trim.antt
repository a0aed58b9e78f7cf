-- ===== src/Text/Trim.antt =====
-- Laws of `TrimSpace`: what it leaves has no ASCII white space at its ends, and it takes nothing
-- off a text that ends and begins with other bytes.
use agentic_ebpf_patrol.Prelude.{
  ℕ, zero, suc, ◌≡◌, refl, ap, sym, ◌∙◌, false, [], ◌∷◌, ◌++◌, reverse, reverse-append,
  reverse-reverse, Bytes, get_or, arith, ◌==◌, ◌≤◌,
}
use agentic_ebpf_patrol.Text.{
  ascii_space, space_width, trim_from, last_space_width, trim_reversed, trim_space,
}

-- The text is empty or begins with something else than ASCII white space.
abbrev pub BeginsClean : Bytes → Type 0
BeginsClean [] = Unit
BeginsClean (c ∷ s) = ascii_space c ≡ false

-- The same of its end.
abbrev pub EndsClean : Bytes → Type 0
EndsClean s = BeginsClean (reverse s)

not-ascii_space : (a b c : ℕ) → space_width a b c ≡ 0 → ascii_space a ≡ false
unfolding space_width
not-ascii_space a b c h = ground arith

not-ascii_space_last : (c b a : ℕ) → last_space_width c b a ≡ 0 → ascii_space c ≡ false
unfolding last_space_width
not-ascii_space_last c b a h = ground arith

trim_from-BeginsClean : (k : ℕ) (s : Bytes) → BeginsClean (trim_from k s)
unfolding trim_from
trim_from-BeginsClean zero [] = tt
trim_from-BeginsClean (suc k) [] = tt
trim_from-BeginsClean (suc k) (c ∷ s) = trim_from-BeginsClean k s
trim_from-BeginsClean zero (c ∷ s) =
    let b = get_or s 0 0 in
    let d = get_or s 1 0 in
    (elim (space_width c b d)
        as (λ w.
          space_width c b d ≡ w → BeginsClean (elim w [ zero ↦ c ∷ s | suc k ↦ trim_from k s ])) [
            | zero ↦ not-ascii_space c b d
            | suc k ↦ λ _. trim_from-BeginsClean k s
          ])
      refl

trim_reversed-BeginsClean : (k : ℕ) (s : Bytes) → BeginsClean (trim_reversed k s)
unfolding trim_reversed
trim_reversed-BeginsClean zero [] = tt
trim_reversed-BeginsClean (suc k) [] = tt
trim_reversed-BeginsClean (suc k) (c ∷ s) = trim_reversed-BeginsClean k s
trim_reversed-BeginsClean zero (c ∷ s) =
    let b = get_or s 0 0 in
    let a = get_or s 1 0 in
    (elim (last_space_width c b a)
        as (λ w.
          last_space_width c b a ≡ w
          → BeginsClean (elim w [ zero ↦ c ∷ s | suc k ↦ trim_reversed k s ])) [
            | zero ↦ not-ascii_space_last c b a
            | suc k ↦ λ _. trim_reversed-BeginsClean k s
          ])
      refl

-- Trimming takes off an end: what is left of a reversed text is its tail.
trim_reversed-suffix : (k : ℕ) (s : Bytes) → (front : Bytes) × (s ≡ front ++ trim_reversed k s)
unfolding trim_reversed
trim_reversed-suffix zero [] = ([], refl)
trim_reversed-suffix (suc k) [] = ([], refl)
trim_reversed-suffix (suc k) (c ∷ s) =
    let (front, e) = trim_reversed-suffix k s in (c ∷ front, ap (λ t. c ∷ t) e)
trim_reversed-suffix zero (c ∷ s) =
    elim (last_space_width c (get_or s 0 0) (get_or s 1 0))
      as (λ w.
        (front : Bytes) × (c ∷ s
          ≡ front ++ (elim w [ zero ↦ c ∷ s | suc k ↦ trim_reversed k s ]))) [
            | zero ↦ ([], refl)
            | suc k ↦ let (front, e) = trim_reversed-suffix k s in (c ∷ front, ap (λ t. c ∷ t) e)
          ]

BeginsClean-front : (s t : Bytes) → BeginsClean (s ++ t) → BeginsClean s
BeginsClean-front [] t h = tt
BeginsClean-front (c ∷ s) t h = h

-- What `TrimSpace` returns is clean at both ends.
pub trim_space-clean : (s : Bytes) → BeginsClean (trim_space s) × EndsClean (trim_space s)
unfolding trim_space
trim_space-clean s =
    let t = trim_from 0 s in
    let r = trim_reversed 0 (reverse t) in
    let (front, e) = trim_reversed-suffix 0 (reverse t) in
    let whole : t ≡ reverse r ++ reverse front =
      sym (reverse-reverse t) ∙ ap reverse e ∙ reverse-append front r in
    (
      BeginsClean-front (reverse r) (reverse front) (rw whole at (trim_from-BeginsClean 0 s)),
      rw (reverse-reverse r) (trim_reversed-BeginsClean 0 (reverse t)),
    )

-- A byte that no white-space rune holds: printable ASCII.
abbrev pub IsPrintable : ℕ → Type 0
IsPrintable c = (33 ≤ c) × (c ≤ 126)

abbrev pub BeginsPrintable : Bytes → Type 0
BeginsPrintable [] = Unit
BeginsPrintable (c ∷ s) = IsPrintable c

-- Both ends of the text are printable ASCII, or it is empty.
abbrev pub PrintableEnds : Bytes → Type 0
PrintableEnds s = BeginsPrintable s × BeginsPrintable (reverse s)

space_width_printable : (a b c : ℕ) → IsPrintable a → space_width a b c ≡ 0
unfolding space_width
space_width_printable a b c h = ground arith

-- A rune of two or three bytes does not end in a printable byte.
two-ne : (b c : ℕ) → IsPrintable c → (space_width b c 0 == 2) ≡ false
unfolding space_width
two-ne b c h = ground arith

three-ne : (a b c : ℕ) → IsPrintable c → (space_width a b c == 3) ≡ false
unfolding space_width
three-ne a b c h = ground arith

printable-not-space : (c : ℕ) → IsPrintable c → ascii_space c ≡ false
printable-not-space c h = ground arith

last_space_width_printable : (c b a : ℕ) → IsPrintable c → last_space_width c b a ≡ 0
unfolding last_space_width
last_space_width_printable c b a h = rw (printable-not-space c h, two-ne b c h, three-ne a b c h)

trim_from_printable : (c : ℕ) (s : Bytes) → IsPrintable c → trim_from 0 (c ∷ s) ≡ c ∷ s
unfolding trim_from
trim_from_printable c s h = rw (space_width_printable c _ _ h, trim_from)

trim_reversed_newline : (s : Bytes) → trim_reversed 0 (10 ∷ s) ≡ trim_reversed 0 s
unfolding trim_reversed last_space_width
trim_reversed_newline s = refl

trim_reversed_printable : (s : Bytes) → BeginsPrintable s → trim_reversed 0 s ≡ s
unfolding trim_reversed
trim_reversed_printable [] h = refl
trim_reversed_printable (c ∷ s) h = rw (last_space_width_printable c _ _ h, trim_reversed)

-- A text with printable ends, followed by a newline, is trimmed to itself.
pub trim_space_newline : (s : Bytes) → PrintableEnds s → trim_space (s ++ 10 ∷ []) ≡ s
unfolding trim_space
trim_space_newline [] h = unfold trim_from space_width trim_reversed in refl
trim_space_newline (c ∷ s) h =
    rw
      (
        trim_from_printable c (s ++ 10 ∷ []) h.0,
        reverse-append (c ∷ s) (10 ∷ []),
        trim_reversed_newline,
        trim_reversed_printable (reverse (c ∷ s)) h.1,
      )
      (reverse-reverse (c ∷ s))
