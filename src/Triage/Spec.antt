-- ===== src/Triage/Spec.antt =====
-- What the heuristics mean, and that the code decides it.
use agentic_ebpf_patrol.Prelude.{◌≡◌, ◌↔◌, ◌⊎◌, inl, inr, true, Bytes, codes, bytes_eq_iff}
use mathlib.Core.Bool.{false≢true}
use agentic_ebpf_patrol.Events.{Event}
use agentic_ebpf_patrol.Triage.{interpreter_binaries, suspicious_dirs, base_name, is_suspicious}
use agentic_ebpf_patrol.Triage.Names.{Any, BaseOf, IsHidden, base_name_unique}
use agentic_ebpf_patrol.Triage.Lookup.{
  Holds, Within, and_iff, has_exec_flag_iff, if_iff, in_dirs_iff, in_set_iff,
}
use agentic_ebpf_patrol.Triage.Hidden.{is_hidden_path_iff}
use agentic_ebpf_patrol.Triage.Masks.{Masquerades, is_masquerading_iff}

-- The heuristics of the package, for a file name, its base name, its arguments and the reported
-- name.
pub data Heuristic (e : Event) (base : Bytes) : Type 0 where
  interpreter : Any (λ x. x ≡ base) interpreter_binaries → Heuristic e base
  dropper_dir : Any (Within e.filename) suspicious_dirs → Heuristic e base
  makes_executable : base ≡ codes "chmod" → Any (Holds (codes "+x")) e.args → Heuristic e base
  hidden : IsHidden e.filename → Heuristic e base
  masquerade : Masquerades base e.comm → Heuristic e base

tests_iff :
    (e : Event) (base : Bytes)
    → (Any (λ x. x ≡ base) interpreter_binaries
        ⊎ (Any (Within e.filename) suspicious_dirs
            ⊎ ((base ≡ codes "chmod") × Any (Holds (codes "+x")) e.args
                ⊎ (IsHidden e.filename ⊎ (Masquerades base e.comm ⊎ ⊥)))))
      ↔ Heuristic e base
tests_iff e base = (
  elim [
    | inl h ↦ interpreter h
    | inr (inl h) ↦ dropper_dir h
    | inr (inr (inl h)) ↦ makes_executable h.0 h.1
    | inr (inr (inr (inl h))) ↦ hidden h
    | inr (inr (inr (inr (inl h)))) ↦ masquerade h
    | inr (inr (inr (inr (inr h)))) ↦ absurd h
  ],
  elim [
    | interpreter h ↦ inl h
    | dropper_dir h ↦ inr (inl h)
    | makes_executable n h ↦ inr (inr (inl (n, h)))
    | hidden h ↦ inr (inr (inr (inl h)))
    | masquerade h ↦ inr (inr (inr (inr (inl h))))
  ],
)

decided_iff : (e : Event) → (is_suspicious e ≡ true) ↔ Heuristic e (base_name e.filename)
unfolding is_suspicious
decided_iff e =
    let base = base_name e.filename in
    let (there, back) = if_iff _ _ (in_set_iff interpreter_binaries base) (
      if_iff _ _ (in_dirs_iff suspicious_dirs e.filename) (
        if_iff _ _ (and_iff _ _ (bytes_eq_iff base (codes "chmod")) (has_exec_flag_iff e.args)) (
          if_iff _ _ (is_hidden_path_iff e.filename)
            (if_iff _ _ (is_masquerading_iff base e.comm) (λ h. false≢true h, λ h. absurd h))))) in
    let (into, out) = tests_iff e base in (λ h. into (there h), λ h. back (out h))

-- For every event and the one base name that its file name has, `IsSuspicious` is true exactly when
-- some heuristic holds: the base name is a listed interpreter, the path lies in a listed directory,
-- `chmod` is called with an argument that holds `+x`, a component of the path is hidden, or base
-- name and reported name are both there and neither begins with the other.
pub is_suspicious_iff :
    (e : Event) (base : Bytes)
    → BaseOf e.filename base
    → (is_suspicious e ≡ true) ↔ Heuristic e base
is_suspicious_iff e base b = rw (base_name_unique e.filename base b) at (decided_iff e)
