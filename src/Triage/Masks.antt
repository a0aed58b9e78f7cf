-- ===== src/Triage/Masks.antt =====
-- What `isMasquerading` decides.
use agentic_ebpf_patrol.Prelude.{
  ◌≤◌, Bool, if◌then◌else◌, ◌≡◌, ◌≢◌, refl, sym, ap, ◌∙◌, ◌↔◌, inl, inr, true, false, not, [], ◌∷◌,
  ◌++◌, Bytes, length, take, append-nil, length-append, bytes_eq, bytes_eq_sound, bytes_eq_refl,
  bytes_eq_iff, ltb, Bool-cases, arith,
}
use mathlib.Core.Bool.{false≢true}
use agentic_ebpf_patrol.Triage.{is_masquerading}
use agentic_ebpf_patrol.Triage.Names.{Agree}

-- `isMasquerading` compares on the shorter length: it says that neither text begins with the other.
agree_left :
    (s t : Bytes) → take (length s) s ≡ take (length s) t → (rest : Bytes) × (t ≡ s ++ rest)
agree_left [] t h = (t, refl)
agree_left (c ∷ s) [] h = cc
agree_left (c ∷ s) (d ∷ t) h = let (rest, e) = agree_left s t (cc) in (rest, cc)

left_agree : (s rest : Bytes) → take (length s) s ≡ take (length s) (s ++ rest)
left_agree [] rest = refl
left_agree (c ∷ s) rest = ap (λ t. c ∷ t) (left_agree s rest)

length-append_le : (s rest : Bytes) → length s ≤ length (s ++ rest)
length-append_le [] rest = omega arith
length-append_le (c ∷ s) rest = omega (arith, length-append_le s rest)

append-same : (t rest : Bytes) → length (t ++ rest) ≤ length t → rest ≡ []
append-same t [] h = refl
append-same t (c ∷ rest) h = absurd (omega (arith, length-append t (c ∷ rest)))

-- The shorter text is a beginning of the longer, as the code compares them.
shorter_iff :
    (s t : Bytes)
    → length s ≤ length t
    → (bytes_eq (take (length s) s) (take (length s) t) ≡ true) ↔ Agree s t
shorter_iff s t h = (
  λ same. inr (agree_left s t (bytes_eq_sound _ _ same)),
  elim [
    | inl (rest, e) ↦
        let nothing : rest ≡ [] = append-same t rest (rw e at h) in
        let equal : s ≡ t = e ∙ ap (λ r. t ++ r) nothing ∙ append-nil t in
        rw equal (bytes_eq_refl (take (length t) t))
    | inr (rest, e) ↦ rw e ((bytes_eq_iff _ _).1 (left_agree s rest))
  ],
)

Agree-symm : (s t : Bytes) → Agree s t → Agree t s
Agree-symm s t (inl x) = inr x
Agree-symm s t (inr x) = inl x

flip : (s t : Bytes) → bytes_eq s t ≡ true → bytes_eq t s ≡ true
flip s t h = (bytes_eq_iff t s).1 (sym (bytes_eq_sound s t h))

compared_iff :
    (s t : Bytes)
    → (let n = if ltb (length s) (length t) then length s else length t in
        bytes_eq (take n s) (take n t) ≡ true)
      ↔ Agree s t
compared_iff s t = elim (Bool-cases (ltb (length s) (length t))) [
  | inl less ↦ rw less (shorter_iff s t (ground arith))
  | inr more ↦
      let (there, back) = shorter_iff t s (ground arith) in
      rw more (
        λ same. Agree-symm t s (there (flip (take (length t) s) (take (length t) t) same)),
        λ a. flip (take (length t) t) (take (length t) s) (back (Agree-symm s t a)),
      )
]

-- The base name and the reported name are there, and neither begins with the other.
abbrev pub Masquerades : Bytes → Bytes → Type 0
Masquerades base comm = (base ≢ []) × (comm ≢ []) × ¬ Agree base comm

not_iff : {P : Type 0} (b : Bool) → ((b ≡ true) ↔ P) → (not b ≡ true) ↔ (¬ P)
not_iff true p = (λ h. absurd (false≢true h), λ n. absurd (n (p.0 refl)))
not_iff false p = (λ _ x. false≢true (p.1 x), λ _. refl)

-- `isMasquerading` is true exactly when both texts are there and neither begins with the other.
pub is_masquerading_iff :
    (base comm : Bytes) → (is_masquerading base comm ≡ true) ↔ Masquerades base comm
unfolding is_masquerading
is_masquerading_iff [] comm = (λ h. absurd (false≢true h), λ m. absurd (m.0 refl))
is_masquerading_iff (c ∷ base) [] = (λ h. absurd (false≢true h), λ m. absurd (m.1 refl))
is_masquerading_iff (c ∷ base) (d ∷ comm) =
    let (there, back) = not_iff _ (compared_iff (c ∷ base) (d ∷ comm)) in
    (λ h. (λ e. cc, λ e. cc, there h), λ m. back m.2)
