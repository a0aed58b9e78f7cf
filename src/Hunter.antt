-- ===== src/Hunter.antt =====
-- broker/internal/hunter: the client of the AI hunter service, and the response to its verdicts.
-- This file is verdict.go.
pub mod Client
pub mod Respond
use agentic_ebpf_patrol.Prelude.{ℕ, Bytes, codes}

abbrev pub Severity : Type 0
Severity = Bytes

abbrev pub severity_benign : Severity
severity_benign = codes "benign"

abbrev pub severity_low : Severity
severity_low = codes "low"

abbrev pub severity_medium : Severity
severity_medium = codes "medium"

abbrev pub severity_high : Severity
severity_high = codes "high"

abbrev pub severity_critical : Severity
severity_critical = codes "critical"

abbrev pub Action : Type 0
Action = Bytes

abbrev pub action_ignore : Action
action_ignore = codes "ignore"

abbrev pub action_monitor : Action
action_monitor = codes "monitor"

abbrev pub action_alert : Action
action_alert = codes "alert"

abbrev pub action_kill : Action
action_kill = codes "kill"

-- `confidence` is the bit pattern of the float64: the broker prints it and computes nothing with it.
pub record Verdict : Type 0 where
  pub severity : Severity
  pub action : Action
  pub mitre_technique : Bytes
  pub mitre_tactic : Bytes
  pub confidence : ℕ
  pub rationale : Bytes
