-- ===== src/Text/Split.antt =====
-- `Split` and `Join` undo one another.
use agentic_ebpf_patrol.Prelude.{
  ℕ, List, [], ◌∷◌, ◌++◌, ◌≡◌, ◌≢◌, refl, ap, ◌∙◌, Bytes, All, ◌==◌, arith, Bool-cases, inl, inr,
  ==_iff,
}
use agentic_ebpf_patrol.Text.{extend, split, join}
use agentic_ebpf_patrol.Text.Search.{Lacks}

extend-ne-nil : (c : ℕ) (ps : List Bytes) → extend c ps ≢ []
unfolding extend
extend-ne-nil c [] h = cc
extend-ne-nil c (p ∷ ps) h = cc

split-ne-nil : (s : Bytes) (sep : ℕ) → split s sep ≢ []
unfolding split
split-ne-nil [] sep = λ h. cc
split-ne-nil (c ∷ s) sep = elim (Bool-cases (c == sep)) [
  | inl same ↦ rw same (λ h. cc)
  | inr other ↦ rw other (extend-ne-nil c (split s sep))
]

extend-Lacks :
    {sep : ℕ} (c : ℕ) (ps : List Bytes)
    → c ≢ sep
    → All (Lacks sep) ps
    → All (Lacks sep) (extend c ps)
unfolding extend
extend-Lacks c [] n l = ((n, tt), tt)
extend-Lacks c (p ∷ ps) n l = ((n, l.0), l.1)

join-extend :
    (c : ℕ) (ps : List Bytes) (sep : ℕ) → join (extend c ps) (sep ∷ []) ≡ c ∷ join ps (sep ∷ [])
unfolding extend join
join-extend c [] sep = refl
join-extend c (p ∷ []) sep = refl
join-extend c (p ∷ q ∷ ps) sep = refl

join-nil :
    (ps : List Bytes) (sep : ℕ) → ps ≢ [] → join ([] ∷ ps) (sep ∷ []) ≡ sep ∷ join ps (sep ∷ [])
unfolding join
join-nil [] sep h = absurd (h refl)
join-nil (p ∷ ps) sep h = refl

split_part : (p : Bytes) (sep : ℕ) → Lacks sep p → split p sep ≡ p ∷ []
unfolding split extend
split_part [] sep l = refl
split_part (c ∷ p) sep l = ground (arith, split_part p sep l.1)

split_first :
    (p rest : Bytes) (sep : ℕ)
    → Lacks sep p
    → split (p ++ (sep ∷ [] ++ rest)) sep ≡ p ∷ split rest sep
unfolding split extend
split_first [] rest sep l = ground arith
split_first (c ∷ p) rest sep l = ground (arith, split_first p rest sep l.1)

-- The parts of a split hold no separator.
pub split-Lacks : (s : Bytes) (sep : ℕ) → All (Lacks sep) (split s sep)
unfolding split
split-Lacks [] sep = (tt, tt)
split-Lacks (c ∷ s) sep = elim (Bool-cases (c == sep)) [
  | inl same ↦ rw same (tt, split-Lacks s sep)
  | inr other ↦ rw other (extend-Lacks c (split s sep) (λ e. ground arith) (split-Lacks s sep))
]

-- Joining the parts of a split gives the text back, for every text.
pub join-split : (s : Bytes) (sep : ℕ) → join (split s sep) (sep ∷ []) ≡ s
unfolding split
join-split [] sep = unfold join in refl
join-split (c ∷ s) sep = elim (Bool-cases (c == sep)) [
  | inl same ↦ rw same (
      join-nil (split s sep) sep (split-ne-nil s sep)
      ∙ cc ((==_iff c sep).0 same, join-split s sep))
  | inr other ↦ rw other (join-extend c (split s sep) sep ∙ ap (λ t. c ∷ t) (join-split s sep))
]

-- Splitting a join gives the parts back, if there is a part and none holds the separator.
pub split-join :
    (ps : List Bytes) (sep : ℕ) → ps ≢ [] → All (Lacks sep) ps → split (join ps (sep ∷ [])) sep ≡ ps
unfolding join
split-join [] sep h l = absurd (h refl)
split-join (p ∷ []) sep h l = split_part p sep l.0
split-join (p ∷ q ∷ ps) sep h l =
    split_first p (join (q ∷ ps) (sep ∷ [])) sep l.0
    ∙ ap (λ t. p ∷ t) (split-join (q ∷ ps) sep (λ e. cc) l.1)
