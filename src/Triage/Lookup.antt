-- ===== src/Triage/Lookup.antt =====
-- The lookups of the triage: the interpreters, the directories, the arguments of chmod.
use agentic_ebpf_patrol.Prelude.{
  Bool, ◌&&◌, if◌then◌else◌, ◌≡◌, refl, ◌↔◌, ◌⊎◌, inl, inr, true, false, ◌||◌, List, [], ◌∷◌, ◌++◌,
  Bytes, codes, bytes_eq, bytes_eq_iff,
}
use mathlib.Core.Bool.{false≢true}
use agentic_ebpf_patrol.Text.{has_prefix, contains}
use agentic_ebpf_patrol.Text.Search.{has_prefix_iff, contains_iff}
use agentic_ebpf_patrol.Triage.{in_set, in_dirs, has_exec_flag}
use agentic_ebpf_patrol.Triage.Names.{Any}

-- A test in front of the rest of a search, in both spellings.
pub if_iff :
    {P Q : Type 0} (b r : Bool)
    → ((b ≡ true) ↔ P)
    → ((r ≡ true) ↔ Q)
    → ((if b then true else r) ≡ true) ↔ (P ⊎ Q)
if_iff true r p q = (λ _. inl (p.0 refl), λ _. refl)
if_iff false r p q = (λ h. inr (q.0 h), elim [ inl x ↦ cc (p.1 x) | inr y ↦ q.1 y ])

or_iff :
    {P Q : Type 0} (b r : Bool) → ((b ≡ true) ↔ P) → ((r ≡ true) ↔ Q) → ((b || r) ≡ true) ↔ (P ⊎ Q)
or_iff true r p q = (λ _. inl (p.0 refl), λ _. refl)
or_iff false r p q = (λ h. inr (q.0 h), elim [ inl x ↦ cc (p.1 x) | inr y ↦ q.1 y ])

pub and_iff :
    {P Q : Type 0} (b r : Bool) → ((b ≡ true) ↔ P) → ((r ≡ true) ↔ Q) → ((b && r) ≡ true) ↔ (P × Q)
and_iff true r p q = (λ h. (p.0 refl, q.0 h), λ t. q.1 t.1)
and_iff false r p q = (λ h. absurd (false≢true h), λ t. p.1 t.0)

pub in_set_iff : (xs : List Bytes) (k : Bytes) → (in_set xs k ≡ true) ↔ Any (λ x. x ≡ k) xs
unfolding in_set
in_set_iff [] k = (λ h. false≢true h, λ h. absurd h)
in_set_iff (x ∷ xs) k = or_iff (bytes_eq x k) (in_set xs k) (bytes_eq_iff x k) (in_set_iff xs k)

-- The path lies in the directory.
abbrev pub Within : Bytes → Bytes → Type 0
Within path dir = (rest : Bytes) × (path ≡ dir ++ rest)

pub in_dirs_iff :
    (dirs : List Bytes) (path : Bytes) → (in_dirs dirs path ≡ true) ↔ Any (Within path) dirs
unfolding in_dirs
in_dirs_iff [] path = (λ h. false≢true h, λ h. absurd h)
in_dirs_iff (dir ∷ dirs) path =
    if_iff (has_prefix path dir) (in_dirs dirs path) (has_prefix_iff path dir)
      (in_dirs_iff dirs path)

-- The text stands somewhere in the argument.
abbrev pub Holds : Bytes → Bytes → Type 0
Holds p a = (before : Bytes) × (after : Bytes) × (a ≡ before ++ (p ++ after))

pub has_exec_flag_iff :
    (args : List Bytes) → (has_exec_flag args ≡ true) ↔ Any (Holds (codes "+x")) args
unfolding has_exec_flag
has_exec_flag_iff [] = (λ h. false≢true h, λ h. absurd h)
has_exec_flag_iff (a ∷ args) =
    if_iff (contains a (codes "+x")) (has_exec_flag args) (contains_iff a (codes "+x"))
      (has_exec_flag_iff args)
