-- ===== src/Service/Engine/Authority.antt =====
-- hunter/llm_engine.py: which verdicts leave the engine, and when one of them is a kill.
use agentic_ebpf_patrol.Prelude.{
  ℕ, ◌≤◌, ◌≡◌, refl, sym, ◌∙◌, ◌↔◌, ◌⊎◌, inl, inr, true, false, none, some, Bool-cases, arith,
}
use agentic_ebpf_patrol.Service.{
  Severity, Action, Verdict, is_critical, is_kill, is_known_technique,
}
use agentic_ebpf_patrol.Service.Float.{float_one, float_lt-unit, clamp_confidence, is_in_range}
use agentic_ebpf_patrol.Service.Engine.{
  fallback_verdict, model_validate, with_known_technique, with_authority,
}

-- What the service promises of a verdict: its technique is in the set or the sentinel, its
-- confidence is a number between zero and one, and a kill is critical and reaches the floor.
pub record IsVetted (floor : ℕ) (v : Verdict) : Type 0 where
  pub known : is_known_technique v.mitre_technique ≡ true
  pub bounded : v.confidence ≤ float_one
  pub earned : v.action ≡ Action.kill → (v.severity ≡ Severity.critical) × (floor ≤ v.confidence)

pub fallback-IsVetted : (floor : ℕ) (reason : _) → IsVetted floor (fallback_verdict reason)
unfolding fallback_verdict is_known_technique
fallback-IsVetted floor reason = record { known = refl; bounded = omega arith; earned = λ e. cc }

pub is_kill_iff : (a : Action) → (is_kill a ≡ true) ↔ (a ≡ Action.kill)
is_kill_iff Action.kill = (λ h. refl, λ h. refl)
is_kill_iff Action.ignore = (λ h. cc, λ h. cc)
is_kill_iff Action.monitor = (λ h. cc, λ h. cc)
is_kill_iff Action.alert = (λ h. cc, λ h. cc)

is_critical_iff : (s : Severity) → (is_critical s ≡ true) ↔ (s ≡ Severity.critical)
is_critical_iff Severity.critical = (λ h. refl, λ h. refl)
is_critical_iff Severity.benign = (λ h. cc, λ h. cc)
is_critical_iff Severity.low = (λ h. cc, λ h. cc)
is_critical_iff Severity.medium = (λ h. cc, λ h. cc)
is_critical_iff Severity.high = (λ h. cc, λ h. cc)

-- The technique is the only field that the check changes.
with_known_technique_known :
    (v : Verdict) → is_known_technique (with_known_technique v).mitre_technique ≡ true
unfolding with_known_technique
with_known_technique_known v = elim (Bool-cases (is_known_technique v.mitre_technique)) [
  | inl k ↦ rw k k
  | inr k ↦ rw k (unfold is_known_technique in refl)
]

with_known_technique_kept :
    (v : Verdict)
    → ((with_known_technique v).action ≡ v.action)
      × ((with_known_technique v).severity ≡ v.severity)
      × ((with_known_technique v).confidence ≡ v.confidence)
unfolding with_known_technique
with_known_technique_kept v = (ground arith, ground arith, ground arith)

-- The test of the floor, for a kill with a confidence between zero and one.
with_authority_kill :
    (floor : ℕ) (v : Verdict)
    → floor ≤ float_one
    → v.confidence ≤ float_one
    → ((with_authority floor v).action ≡ Action.kill)
      ↔ ((v.action ≡ Action.kill) × (v.severity ≡ Severity.critical) × (floor ≤ v.confidence))
unfolding with_authority
with_authority_kill floor v f c =
    ground (
      arith,
      is_kill_iff v.action,
      is_critical_iff v.severity,
      float_lt-unit v.confidence floor c f,
    )

-- What the model proposed, with its confidence in the range: it is validated, and only the sign of
-- a zero is dropped.
abbrev pub Validates : Verdict → Verdict → Type 0
Validates raw v =
    (is_in_range raw.confidence ≡ true)
    × (v ≡ record raw { confidence = clamp_confidence raw.confidence })

pub model_validate_lem :
    (raw : Verdict)
    → ((is_in_range raw.confidence ≡ false) × (model_validate raw ≡ none))
      ⊎ ((v : Verdict) × Validates raw v × (model_validate raw ≡ some v))
unfolding model_validate
model_validate_lem raw = elim (Bool-cases (is_in_range raw.confidence)) [
  | inl k ↦ inr (_, (k, refl), rw k refl)
  | inr k ↦ inl (k, rw k refl)
]

-- The action is the only field that the floor changes.
with_authority_kept :
    (floor : ℕ) (v : Verdict)
    → ((with_authority floor v).mitre_technique ≡ v.mitre_technique)
      × ((with_authority floor v).severity ≡ v.severity)
      × ((with_authority floor v).confidence ≡ v.confidence)
unfolding with_authority
with_authority_kept floor v = (ground arith, ground arith, ground arith)

-- The two checks together, on a confidence between zero and one.
pub checked_kill :
    (floor : ℕ) (v : Verdict)
    → floor ≤ float_one
    → v.confidence ≤ float_one
    → ((with_authority floor (with_known_technique v)).action ≡ Action.kill)
      ↔ ((v.action ≡ Action.kill) × (v.severity ≡ Severity.critical) × (floor ≤ v.confidence))
checked_kill floor v f c =
    let (a, s, e) = with_known_technique_kept v in
    let (there, back) = with_authority_kill floor (with_known_technique v) f (rw e c) in
    (
      λ k. let (x, y, z) = there k in (sym a ∙ x, sym s ∙ y, rw e at z),
      λ (x, y, z). back (a ∙ x, s ∙ y, rw e z),
    )

pub checked-IsVetted :
    (floor : ℕ) (v : Verdict)
    → floor ≤ float_one
    → v.confidence ≤ float_one
    → IsVetted floor (with_authority floor (with_known_technique v))
checked-IsVetted floor v f c =
    let (a, s, e) = with_known_technique_kept v in
    let (t', s', e') = with_authority_kept floor (with_known_technique v) in
    record {
      known = rw t' (with_known_technique_known v);
      bounded = rw (e', e) c;
      earned = λ k. let (x, y, z) = (checked_kill floor v f c).0 k in (rw (s', s) y, rw (e', e) z);
    }
