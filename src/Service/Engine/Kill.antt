-- ===== src/Service/Engine/Kill.antt =====
-- hunter/llm_engine.py: which block of the message decides, and when that ends in a kill.
use agentic_ebpf_patrol.Prelude.{
  some_inj, ℕ, ◌≤◌, ◌≡◌, ◌≢◌, refl, sym, ap, ◌∙◌, ◌↔◌, ◌⊎◌, inl, inr, true, false, List, [], ◌∷◌,
  ◌++◌, Option, none, some, codes, bytes_eq, bytes_eq_sound, bytes_eq_iff, Bool-cases, All,
}
use agentic_ebpf_patrol.Service.{Severity, Action, Verdict}
use agentic_ebpf_patrol.Service.Float.{
  float_one, float_le, reaches_clamp_confidence, clamp_confidence_bounded, is_in_range,
}
use agentic_ebpf_patrol.Service.Engine.{
  Block, tool_use, other, Message, api_error, raised, content, fallback_verdict,
  with_known_technique, with_authority, parse_tool_input, verdict_tool, from_content, evaluate,
}
use agentic_ebpf_patrol.Service.Engine.Authority.{
  IsVetted, fallback-IsVetted, model_validate_lem, Validates, checked_kill, checked-IsVetted,
}

-- A proposal that the service lets through as a kill.
abbrev pub Earns : ℕ → Verdict → Type 0
Earns floor p =
    (is_in_range p.confidence ≡ true)
    × (p.action ≡ Action.kill)
    × (p.severity ≡ Severity.critical)
    × (float_le floor p.confidence ≡ true)

-- Not a call of the verdict's tool.
abbrev pub IsSkipped : Block → Type 0
IsSkipped (tool_use name input) = name ≢ verdict_tool
IsSkipped other = Unit {0}

-- The first call of the verdict's tool has this input.
abbrev pub Proposes : List Block → Option Verdict → Type 0
Proposes blocks input =
    (before : List Block) × (after : List Block) × (blocks
      ≡ before ++ (tool_use verdict_tool input ∷ after))
    × All IsSkipped before

fallback_spares : (reason : _) → (fallback_verdict reason).action ≢ Action.kill
unfolding fallback_verdict
fallback_spares reason h = cc

-- What the input becomes: the fallback when it is not valid, and else the checked proposal.
ParsedAs : ℕ → Option Verdict → Verdict → Type 0
ParsedAs floor input u =
    ((reason : _) × (u ≡ fallback_verdict reason)
      × ((p : Verdict) → input ≡ some p → is_in_range p.confidence ≡ false))
    ⊎ ((p v : Verdict) × (input ≡ some p)
        × Validates p v
        × (u ≡ with_authority floor (with_known_technique v)))

parse_tool_input-ParsedAs :
    (floor : ℕ) (input : Option Verdict) → ParsedAs floor input (parse_tool_input floor input)
unfolding parse_tool_input ParsedAs
parse_tool_input-ParsedAs floor none = inl (_, refl, λ p e. cc)
parse_tool_input-ParsedAs floor (some p) = elim (model_validate_lem p) [
  | inl (out, e) ↦ inl (
    codes "verdict failed local schema validation",
    rw (e, parse_tool_input) refl,
    λ q n. rw (← some_inj n) out,
  )
  | inr (v, i, e) ↦ inr (p, v, refl, i, rw (e, parse_tool_input) refl)
]

Validates-bounded : (p v : Verdict) → Validates p v → v.confidence ≤ float_one
Validates-bounded p v (i, e) = rw e (clamp_confidence_bounded p.confidence)

parse_tool_input-IsVetted :
    (floor : ℕ) (input : Option Verdict)
    → floor ≤ float_one
    → IsVetted floor (parse_tool_input floor input)
unfolding ParsedAs
parse_tool_input-IsVetted floor input f = elim (parse_tool_input-ParsedAs floor input) [
  | inl (reason, e, n) ↦ rw e (fallback-IsVetted floor reason)
  | inr (p, v, n, i, e) ↦ rw e (checked-IsVetted floor v f (Validates-bounded p v i))
]

parse_tool_input-kill :
    (floor : ℕ) (input : Option Verdict)
    → floor ≤ float_one
    → ((parse_tool_input floor input).action ≡ Action.kill)
      ↔ ((p : Verdict) × (input ≡ some p) × Earns floor p)
unfolding ParsedAs
parse_tool_input-kill floor input f = elim (parse_tool_input-ParsedAs floor input) [
  | inl (reason, e, n) ↦
      (λ h. absurd (fallback_spares reason (rw e at h)), λ (p, m, earns). cc (earns.0, n p m))
  | inr (p, v, n, i, e) ↦
      let (there, back) = checked_kill floor v f (Validates-bounded p v i) in
      let same = i.1 in
      let (low, high) = reaches_clamp_confidence floor p.confidence f i.0 in
      (
        λ h.
            let (x, y, z) = there (rw e at h) in
            (p, n, (i.0, rw same at x, rw same at y, high (rw same at z))),
        λ (q, m, (j, x, y, z)).
            let alike : q ≡ p = some_inj (sym m ∙ n) in
            rw e (back (rw (same, ← alike) x, rw (same, ← alike) y, rw same (low (rw alike at z)))),
      )
]

content_inj : {s t : List Block} → content s ≡ content t → s ≡ t
content_inj h = cc

-- The loop over the blocks stops at the first call of the tool.
from_content_skipped :
    (floor : ℕ) (before after : List Block) (input : Option Verdict)
    → All IsSkipped before
    → from_content floor (before ++ (tool_use verdict_tool input ∷ after))
      ≡ parse_tool_input floor input
unfolding from_content
from_content_skipped floor [] after input h = refl
from_content_skipped floor (other ∷ before) after input (x, h) =
    from_content_skipped floor before after input h
from_content_skipped floor (tool_use name i ∷ before) after input (x, h) =
    elim (Bool-cases (bytes_eq name verdict_tool)) [
      | inl k ↦ absurd (x (bytes_eq_sound name verdict_tool k))
      | inr k ↦ rw (k, from_content) (from_content_skipped floor before after input h)
    ]

-- It finds that call, or there is none.
NoCall : ℕ → List Block → Type 0
NoCall floor blocks = (reason : _) × (from_content floor blocks ≡ fallback_verdict reason)

from_content_found :
    (floor : ℕ) (blocks : List Block)
    → NoCall floor blocks
      ⊎ ((input : Option Verdict) × Proposes blocks input
          × (from_content floor blocks ≡ parse_tool_input floor input))
unfolding from_content NoCall
from_content_found floor [] = inl (_, refl)
from_content_found floor (other ∷ blocks) = elim (from_content_found floor blocks) [
  | inl n ↦ inl n
  | inr (input, (before, after, e, s), same) ↦
      inr (input, (other ∷ before, after, ap (λ t. other ∷ t) e, (tt, s)), same)
]
from_content_found floor (tool_use name i ∷ blocks) =
    elim (Bool-cases (bytes_eq name verdict_tool)) [
      | inl k ↦
          let same = bytes_eq_sound name verdict_tool k in
          inr (i, ([], blocks, ap (λ t. tool_use t i ∷ blocks) same, tt), rw (k, from_content) refl)
      | inr k ↦ elim (from_content_found floor blocks) [
        | inl (r, n) ↦ inl (r, rw (k, from_content) n)
        | inr (input, (before, after, e, s), same) ↦ inr (
          input,
          (
            tool_use name i ∷ before,
            after,
            ap (λ t. tool_use name i ∷ t) e,
            (λ n. cc (k, (bytes_eq_iff name verdict_tool).1 n), s),
          ),
          rw (k, from_content) same,
        )
      ]
    ]

-- `evaluate` answers with a kill exactly when the first call of the verdict's tool in the model's
-- message proposes one that is critical and whose confidence is in the range and reaches the floor.
-- The floor is at most one.
pub evaluate-kill :
    (floor : ℕ) (message : Message)
    → floor ≤ float_one
    → ((v : Verdict) × (evaluate floor message ≡ some v) × (v.action ≡ Action.kill)) ↔ (
        (blocks : List Block) × (p : Verdict) × (message ≡ content blocks)
        × Proposes blocks (some p)
        × Earns floor p)
unfolding evaluate NoCall
evaluate-kill floor (api_error text) f = (
  λ (v, e, k).
      absurd (fallback_spares (codes "LLM unavailable: " ++ text) (rw (← some_inj e) at k)),
  λ (blocks, p, e, r, s). cc,
)
evaluate-kill floor raised f = (λ (v, e, k). cc, λ (blocks, p, e, r, s). cc)
evaluate-kill floor (content blocks) f = (
  λ (v, e, k).
      let kills : (from_content floor blocks).action ≡ Action.kill = rw (← some_inj e) at k in
      elim (from_content_found floor blocks) [
        | inl (reason, n) ↦ absurd (fallback_spares reason (rw n at kills))
        | inr (input, found, same) ↦
            let (p, i, earns) = (parse_tool_input-kill floor input f).0 (rw same at kills) in
            (blocks, p, refl, rw i at found, earns)
      ],
  λ (others, p, e, (before, after, split, skipped), earns).
      let same = from_content_skipped floor before after (some p) skipped in
      let here = content_inj e ∙ split in
      (
        from_content floor blocks,
        refl,
        rw (here, same) ((parse_tool_input-kill floor (some p) f).1 (p, refl, earns)),
      ),
)

-- Every verdict that leaves the engine has a technique of the set or the sentinel, a confidence
-- between zero and one, and the action kill only if it is critical and reaches the floor. There is
-- one unless the call of the model raises an exception that is not an `APIError`. The floor is at
-- most one.
pub evaluate-IsVetted :
    (floor : ℕ) (message : Message)
    → floor ≤ float_one
    → message ≢ raised
    → (v : Verdict) × (evaluate floor message ≡ some v) × IsVetted floor v
unfolding evaluate NoCall
evaluate-IsVetted floor (api_error text) f r = (_, refl, fallback-IsVetted floor _)
evaluate-IsVetted floor raised f r = absurd (r refl)
evaluate-IsVetted floor (content blocks) f r = elim (from_content_found floor blocks) [
  | inl (reason, n) ↦ (_, refl, rw n (fallback-IsVetted floor reason))
  | inr (input, found, same) ↦ (_, refl, rw same (parse_tool_input-IsVetted floor input f))
]
