-- ===== src/Triage.antt =====
-- broker/internal/triage/triage.go: the heuristics that pick the events for the AI hunter.
pub mod Names
pub mod Lookup
pub mod Hidden
pub mod Masks
pub mod Spec
use agentic_ebpf_patrol.Prelude.{
  ℕ, ◌+◌, ◌-◌, Bool, true, false, not, ◌&&◌, ◌||◌, List, [], ◌∷◌, Option, none, some, Bytes, codes,
  length, take, drop, bytes_eq, ltb, ◌==◌, if◌then◌else◌,
}
use agentic_ebpf_patrol.Text.{has_prefix, contains, last_index, split}
use agentic_ebpf_patrol.Events.{Event}

abbrev pub slash : ℕ
slash = b'/'

abbrev pub interpreter_binaries : List Bytes
interpreter_binaries =
    codes "python"
    ∷ codes "python3"
    ∷ codes "python2"
    ∷ codes "perl"
    ∷ codes "ruby"
    ∷ codes "php"
    ∷ codes "node"
    ∷ codes "bash"
    ∷ codes "sh"
    ∷ codes "dash"
    ∷ codes "zsh"
    ∷ codes "nc"
    ∷ codes "ncat"
    ∷ codes "netcat"
    ∷ codes "socat"
    ∷ []

abbrev pub suspicious_dirs : List Bytes
suspicious_dirs = codes "/tmp/" ∷ codes "/dev/shm/" ∷ codes "/var/tmp/" ∷ codes "/run/" ∷ []

-- A key of the map.
unfoldable pub in_set : List Bytes → Bytes → Bool
in_set [] k = false
in_set (x ∷ xs) k = bytes_eq x k || in_set xs k

-- The loop over the directories.
unfoldable pub in_dirs : List Bytes → Bytes → Bool
unfolding has_prefix
in_dirs [] path = false
in_dirs (dir ∷ dirs) path = if has_prefix path dir then true else in_dirs dirs path

unfoldable pub has_exec_flag : List Bytes → Bool
unfolding contains
has_exec_flag [] = false
has_exec_flag (a ∷ args) = if contains a (codes "+x") then true else has_exec_flag args

-- The loop over the parts of a path; an empty part, `.` and `..` are passed over.
unfoldable pub hidden_part : List Bytes → Bool
unfolding has_prefix
hidden_part [] = false
hidden_part (part ∷ parts) =
    let rest = hidden_part parts in
    if bytes_eq part [] || (bytes_eq part (codes ".") || bytes_eq part (codes ".."))
    then rest
    else if has_prefix part (codes ".")
    then true
    else rest

unfoldable pub is_hidden_path : Bytes → Bool
unfolding hidden_part split
is_hidden_path path = hidden_part (split path slash)

unfoldable pub is_masquerading : Bytes → Bytes → Bool
is_masquerading exec_base comm =
    if bytes_eq exec_base [] || bytes_eq comm []
    then false
    else (let n = if ltb (length exec_base) (length comm) then length exec_base else length comm in
        not (bytes_eq (take n exec_base) (take n comm)))

unfoldable pub base_name : Bytes → Bytes
unfolding last_index
base_name path = elim (last_index path slash) [ some i ↦ drop (i + 1) path | none ↦ path ]

unfoldable pub is_suspicious : Event → Bool
unfolding in_set in_dirs has_exec_flag is_hidden_path is_masquerading base_name
is_suspicious e =
    let base = base_name e.filename in
    if in_set interpreter_binaries base
    then true
    else if in_dirs suspicious_dirs e.filename
    then true
    else if bytes_eq base (codes "chmod") && has_exec_flag e.args
    then true
    else if is_hidden_path e.filename
    then true
    else if is_masquerading base e.comm
    then true
    else false
