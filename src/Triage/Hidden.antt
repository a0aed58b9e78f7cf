-- ===== src/Triage/Hidden.antt =====
-- What `isHiddenPath` decides.
use agentic_ebpf_patrol.Prelude.{
  Bool, ◌&&◌, if◌then◌else◌, ◌≡◌, ◌≢◌, refl, sym, ap, ◌∙◌, ◌↔◌, inl, inr, true, false, ◌||◌, not,
  List, [], ◌∷◌, ◌++◌, Bytes, codes, bytes_eq, bytes_eq_iff, Bool-cases, arith,
}
use mathlib.Core.Bool.{false≢true}
use agentic_ebpf_patrol.Text.{has_prefix, split, join}
use agentic_ebpf_patrol.Text.Search.{has_prefix_iff}
use agentic_ebpf_patrol.Text.Split.{split-Lacks, join-split, split-join}
use agentic_ebpf_patrol.Triage.{slash, hidden_part, is_hidden_path}
use agentic_ebpf_patrol.Triage.Names.{Any, IsHidden, IsHiddenPart}
use agentic_ebpf_patrol.Triage.Lookup.{if_iff}

-- One round of the loop over the parts.
hidden_test : Bytes → Bool
hidden_test part =
    not (bytes_eq part [] || (bytes_eq part (codes ".") || bytes_eq part (codes "..")))
    && has_prefix part (codes ".")

test_parts :
    (a b c p : Bool) → (not (a || (b || c)) && p) ≡ true → (b ≡ false) × (c ≡ false) × (p ≡ true)
test_parts a b c p h = ground arith

parts_test :
    (a b c p : Bool)
    → a ≡ false
    → b ≡ false
    → c ≡ false
    → p ≡ true
    → (not (a || (b || c)) && p) ≡ true
parts_test a b c p ea eb ec ep = ground arith

-- A failed comparison of texts, both ways.
ne_of_bytes_eq : (s t : Bytes) → bytes_eq s t ≡ false → s ≢ t
ne_of_bytes_eq s t h e = false≢true (sym h ∙ (bytes_eq_iff s t).1 e)

bytes_eq_of_ne : (s t : Bytes) → s ≢ t → bytes_eq s t ≡ false
bytes_eq_of_ne s t n = elim (Bool-cases (bytes_eq s t)) [
  | inl same ↦ absurd (n ((bytes_eq_iff s t).0 same))
  | inr other ↦ other
]

hidden_test_iff : (part : Bytes) → (hidden_test part ≡ true) ↔ IsHiddenPart part
unfolding hidden_test
hidden_test_iff part = (
  λ h.
      let (not_dot, not_dots, dot) = test_parts _ _ _ _ h in
      (
        (has_prefix_iff part (codes ".")).0 dot,
        ne_of_bytes_eq part _ not_dot,
        ne_of_bytes_eq part _ not_dots,
      ),
  λ (p, n, m).
      parts_test (bytes_eq part []) _ _ _ (bytes_eq_of_ne part [] (λ e. cc (p.1, e)))
        (bytes_eq_of_ne part _ n) (bytes_eq_of_ne part _ m) ((has_prefix_iff part (codes ".")).1 p),
)

hidden_part_step :
    (part : Bytes) (parts : List Bytes)
    → hidden_part (part ∷ parts) ≡ (if hidden_test part then true else hidden_part parts)
unfolding hidden_part hidden_test
hidden_part_step part parts = ground arith

hidden_part_iff : (parts : List Bytes) → (hidden_part parts ≡ true) ↔ Any IsHiddenPart parts
hidden_part_iff [] = unfold hidden_part in (λ h. false≢true h, λ h. absurd h)
hidden_part_iff (part ∷ parts) =
    rw (hidden_part_step part parts)
      (if_iff (hidden_test part) (hidden_part parts) (hidden_test_iff part) (hidden_part_iff parts))

Any-split :
    (P : Bytes → Type 0) (xs : List Bytes)
    → Any P xs
    → (before : List Bytes) × (x : Bytes) × (after : List Bytes) × (xs ≡ before ++ x ∷ after) × P x
Any-split P [] h = absurd h
Any-split P (x ∷ xs) (inl p) = ([], x, xs, refl, p)
Any-split P (x ∷ xs) (inr h) =
    let (before, y, after, e, p) = Any-split P xs h in (x ∷ before, y, after, ap (λ t. x ∷ t) e, p)

Any-append :
    (P : Bytes → Type 0) (before : List Bytes) (x : Bytes) (after : List Bytes)
    → P x
    → Any P (before ++ x ∷ after)
Any-append P [] x after p = inl p
Any-append P (y ∷ before) x after p = inr (Any-append P before x after p)

append-ne-nil : (before : List Bytes) (x : Bytes) (after : List Bytes) → before ++ x ∷ after ≢ []
append-ne-nil [] x after = λ e. cc
append-ne-nil (y ∷ before) x after = λ e. cc

-- `isHiddenPath` says that some component between the slashes begins with a dot and is neither `.`
-- nor `..`.
pub is_hidden_path_iff : (path : Bytes) → (is_hidden_path path ≡ true) ↔ IsHidden path
unfolding is_hidden_path
is_hidden_path_iff path = (
  λ h.
      let (before, part, after, e, p) =
        Any-split IsHiddenPart (split path slash) ((hidden_part_iff (split path slash)).0 h) in
      (
        before,
        part,
        after,
        sym (join-split path slash) ∙ ap (λ ps. join ps (slash ∷ [])) e,
        rw e at (split-Lacks path slash),
        p,
      ),
  λ (before, part, after, e, l, p).
      let parts : split path slash ≡ before ++ part ∷ after =
        rw e (split-join (before ++ part ∷ after) slash (append-ne-nil before part after) l) in
      rw parts (
        (hidden_part_iff (before ++ part ∷ after)).1 (Any-append IsHiddenPart before part after p)),
)
