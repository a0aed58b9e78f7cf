-- ===== src/Service/Engine.antt =====
-- hunter/llm_engine.py: what `evaluate` makes of the model's message. The call of the model, the
-- prompts and pydantic's reading of the types are the libraries': what they answer is an argument.
pub mod Authority
pub mod Kill
use agentic_ebpf_patrol.Prelude.{
  ℕ, Bool, not, ◌&&◌, ◌||◌, List, [], ◌∷◌, ◌++◌, Option, none, some, codes, bytes_eq, if◌then◌else◌,
}
use agentic_ebpf_patrol.Service.{
  Str, Severity, Action, Verdict, is_critical, is_kill, none_technique, is_known_technique,
}
use agentic_ebpf_patrol.Service.Float.{float_zero, float_lt, is_in_range, clamp_confidence}

-- A block of the model's message: a call of a tool by its name, with what the fields of `Verdict`
-- make of its input if that has them with the right types, or another block.
pub data Block : Type 0 where
  tool_use : Str → Option Verdict → Block
  other : Block

-- What `_call_model` gives: an `APIError` with its text, another exception, or a message.
pub data Message : Type 0 where
  api_error : Str → Message
  raised : Message
  content : List Block → Message

unfoldable pub fallback_verdict : Str → Verdict
fallback_verdict reason = record {
  severity = Severity.medium;
  action = Action.alert;
  mitre_technique = none_technique;
  mitre_tactic = codes "N/A";
  confidence = float_zero;
  rationale = codes "Automated fallback verdict: " ++ reason;
}

-- `Verdict.model_validate` on fields of the right types: the bounds of the confidence, and the
-- validator behind them.
unfoldable pub model_validate : Verdict → Option Verdict
unfolding is_in_range clamp_confidence
model_validate v =
    if is_in_range v.confidence
    then some (record v { confidence = clamp_confidence v.confidence })
    else none

-- A technique that is not in the set becomes the sentinel.
unfoldable pub with_known_technique : Verdict → Verdict
unfolding is_known_technique
with_known_technique v =
    if not (is_known_technique v.mitre_technique)
    then record v { mitre_technique = none_technique }
    else v

-- A kill is downgraded to an alert unless it is critical and reaches the floor.
unfoldable pub with_authority : ℕ → Verdict → Verdict
with_authority floor v =
    if is_kill v.action && (not (is_critical v.severity) || float_lt v.confidence floor)
    then record v { action = Action.alert }
    else v

-- `_parse_tool_input`; `none` is an input whose fields are missing or not of the right types.
unfoldable pub parse_tool_input : ℕ → Option Verdict → Verdict
unfolding with_known_technique with_authority fallback_verdict model_validate
parse_tool_input floor none = fallback_verdict (codes "verdict failed local schema validation")
parse_tool_input floor (some raw) = elim (model_validate raw) [
  | none ↦ fallback_verdict (codes "verdict failed local schema validation")
  | some v ↦ with_authority floor (with_known_technique v)
]

abbrev pub verdict_tool : Str
verdict_tool = codes "emit_threat_verdict"

-- The loop over the blocks.
unfoldable pub from_content : ℕ → List Block → Verdict
unfolding parse_tool_input
from_content floor [] = fallback_verdict (codes "model returned no structured verdict")
from_content floor (other ∷ blocks) = from_content floor blocks
from_content floor (tool_use name input ∷ blocks) =
    let rest = from_content floor blocks in
    if bytes_eq name verdict_tool then parse_tool_input floor input else rest

-- `evaluate`; `none` is an exception that it does not catch.
unfoldable pub evaluate : ℕ → Message → Option Verdict
unfolding from_content
evaluate floor (api_error text) = some (fallback_verdict (codes "LLM unavailable: " ++ text))
evaluate floor raised = none
evaluate floor (content blocks) = some (from_content floor blocks)
