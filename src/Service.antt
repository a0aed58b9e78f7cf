-- ===== src/Service.antt =====
-- hunter/: the AI hunter service that the broker asks. This file is models.py, and of mitre.py the
-- set of techniques and its test.
pub mod Float
pub mod Engine
pub mod Responder
pub mod Api
pub mod Joined
use agentic_ebpf_patrol.Prelude.{
  ℕ, ℤ, Bool, true, false, ◌||◌, List, [], ◌∷◌, codes, bytes_eq, if◌then◌else◌,
}

-- A Python `str`, by its code points.
abbrev pub Str : Type 0
Str = List ℕ

pub data Severity : Type 0 where
  benign low medium high critical : Severity

abbrev pub severity_value : Severity → Str
severity_value benign = codes "benign"
severity_value low = codes "low"
severity_value medium = codes "medium"
severity_value high = codes "high"
severity_value critical = codes "critical"

pub data Action : Type 0 where
  ignore monitor alert kill : Action

abbrev pub action_value : Action → Str
action_value ignore = codes "ignore"
action_value monitor = codes "monitor"
action_value alert = codes "alert"
action_value kill = codes "kill"

abbrev pub is_critical : Severity → Bool
is_critical critical = true
is_critical benign = false
is_critical low = false
is_critical medium = false
is_critical high = false

abbrev pub is_kill : Action → Bool
is_kill kill = true
is_kill ignore = false
is_kill monitor = false
is_kill alert = false

pub record ExecEvent : Type 0 where
  pub timestamp : Str
  pub pid : ℤ
  pub tid : ℤ
  pub uid : ℤ
  pub gid : ℤ
  pub comm : Str
  pub filename : Str
  pub args : List Str
  pub argc : ℤ
  pub truncated : Bool
  pub command_line : Str

-- `confidence` is the bit pattern of the float.
pub record Verdict : Type 0 where
  pub severity : Severity
  pub action : Action
  pub mitre_technique : Str
  pub mitre_tactic : Str
  pub confidence : ℕ
  pub rationale : Str

-- The keys of `TECHNIQUES`.
abbrev pub techniques : List Str
techniques =
    codes "T1059"
    ∷ codes "T1059.004"
    ∷ codes "T1059.006"
    ∷ codes "T1071.001"
    ∷ codes "T1105"
    ∷ codes "T1222.002"
    ∷ codes "T1564.001"
    ∷ codes "T1036"
    ∷ codes "T1036.005"
    ∷ codes "T1053.003"
    ∷ codes "T1548.001"
    ∷ codes "T1090"
    ∷ codes "T1046"
    ∷ []

abbrev pub none_technique : Str
none_technique = codes "NONE"

abbrev pub is_one_of : List Str → Str → Bool
is_one_of [] s = false
is_one_of (t ∷ ts) s = bytes_eq s t || is_one_of ts s

unfoldable pub is_known_technique : Str → Bool
is_known_technique technique_id =
    bytes_eq technique_id none_technique || is_one_of techniques technique_id
