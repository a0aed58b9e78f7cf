-- ===== src/Text/Search.antt =====
-- What the searches in a text decide.
use agentic_ebpf_patrol.Prelude.{
  ℕ, suc, Option, none, some, All, length, ◌==◌, if◌then◌else◌, ◌≡◌, ◌≢◌, refl, ap, ◌↔◌, inl, inr,
  true, [], ◌∷◌, ◌++◌, Bytes, arith, Bool-cases, ==_iff,
}
use agentic_ebpf_patrol.Text.{has_prefix, contains, last_index}

-- `HasPrefix` says that the text is the prefix and something behind it.
has_prefix_sound : (s p : Bytes) → has_prefix s p ≡ true → (rest : Bytes) × (s ≡ p ++ rest)
unfolding has_prefix
has_prefix_sound s [] h = (s, refl)
has_prefix_sound [] (d ∷ p) h = cc
has_prefix_sound (c ∷ s) (d ∷ p) h =
    let (first, more) : (c ≡ d) × (has_prefix s p ≡ true) = ground arith in
    let (rest, e) = has_prefix_sound s p more in (rest, cc)

has_prefix-append : (p rest : Bytes) → has_prefix (p ++ rest) p ≡ true
unfolding has_prefix
has_prefix-append [] rest = refl
has_prefix-append (d ∷ p) rest = ground (arith, has_prefix-append p rest)

pub has_prefix_iff : (s p : Bytes) → (has_prefix s p ≡ true) ↔ ((rest : Bytes) × (s ≡ p ++ rest))
has_prefix_iff s p = (has_prefix_sound s p, λ (rest, e). rw e (has_prefix-append p rest))

-- `Contains` says that the text stands somewhere between two others.
contains_sound :
    (s p : Bytes)
    → contains s p ≡ true
    → (before : Bytes) × (after : Bytes) × (s ≡ before ++ (p ++ after))
unfolding contains
contains_sound [] p h = let (rest, e) = has_prefix_sound [] p h in ([], rest, e)
contains_sound (c ∷ s) p h = elim (Bool-cases (has_prefix (c ∷ s) p)) [
  | inl here ↦ let (rest, e) = has_prefix_sound (c ∷ s) p here in ([], rest, e)
  | inr other ↦
      let (before, after, e) = contains_sound s p (rw other at h) in
      (c ∷ before, after, ap (λ t. c ∷ t) e)
]

contains-append : (before p after : Bytes) → contains (before ++ (p ++ after)) p ≡ true
unfolding contains
contains-append [] [] [] = refl
contains-append [] [] (d ∷ after) = unfold has_prefix in refl
contains-append [] (c ∷ p) after = rw (has_prefix-append (c ∷ p) after)
contains-append (c ∷ before) p after = ground (arith, contains-append before p after)

pub contains_iff :
    (s p : Bytes)
    → (contains s p ≡ true) ↔ ((before : Bytes) × (after : Bytes) × (s ≡ before ++ (p ++ after)))
contains_iff s p = (contains_sound s p, λ (before, after, e). rw e (contains-append before p after))

-- A text with no such byte.
abbrev pub Lacks : ℕ → Bytes → Type 0
Lacks b = All (λ c. c ≢ b)

-- `LastIndex` finds the byte with nothing like it behind, or there is none.
abbrev pub LastAt : Bytes → ℕ → Option ℕ → Type 0
LastAt s sep none = Lacks sep s
LastAt s sep (some i) =
    (before : Bytes) × (after : Bytes) × (s ≡ before ++ sep ∷ after)
    × (length before ≡ i)
    × Lacks sep after

last_step :
    (c : ℕ) (s : Bytes) (sep : ℕ)
    → Lacks sep s
    → LastAt (c ∷ s) sep (if c == sep then some 0 else none)
last_step c s sep l = elim (Bool-cases (c == sep)) [
  | inl same ↦ rw same ([], s, ap (λ (d : ℕ). d ∷ s) ((==_iff c sep).0 same), refl, l)
  | inr other ↦ rw other (λ e. ground arith, l)
]

pub last_index-LastAt : (s : Bytes) (sep : ℕ) → LastAt s sep (last_index s sep)
unfolding last_index
last_index-LastAt [] sep = tt
last_index-LastAt (c ∷ s) sep =
    (elim (last_index s sep)
        as (λ r.
          LastAt s sep r
          → LastAt (c ∷ s) sep
              (elim r [ some i ↦ some (suc i) | none ↦ if c == sep then some 0 else none ])) [
                | some i ↦
                    λ (before, after, e, n, l). (c ∷ before, after, ap (λ t. c ∷ t) e, ap suc n, l)
                | none ↦ λ l. last_step c s sep l
              ])
      (last_index-LastAt s sep)
