-- ===== src/Sensor.antt =====
-- sensor/cyber-patrol-common/src/lib.rs and sensor/cyber-patrol-ebpf/src/main.rs: the record that the
-- eBPF program writes for one `execve`, and its bytes in the ring buffer. What the kernel's helpers
-- answer is an argument.
pub mod Layout
pub mod RoundTrip
pub mod Capture
use agentic_ebpf_patrol.Prelude.{
  ℕ, zero, suc, ◌+◌, ◌*◌, ◌/◌, ◌%◌, ◌^◌, ◌==◌, Bool, true, false, ◌||◌, List, [], ◌∷◌, ◌++◌, map,
  Option, none, some, Bytes, length, take, replicate, if◌then◌else◌,
}

abbrev pub task_comm_len : ℕ
task_comm_len = 16

abbrev pub max_filename_len : ℕ
max_filename_len = 256

abbrev pub max_args : ℕ
max_args = 6

abbrev pub max_arg_len : ℕ
max_arg_len = 32

-- Arrays are lists of the declared length, and each argument's array one of these.
pub record ExecEvent : Type 0 where
  pub timestamp_ns : ℕ
  pub pid : ℕ
  pub tid : ℕ
  pub uid : ℕ
  pub gid : ℕ
  pub comm : Bytes
  pub filename : Bytes
  pub filename_len : ℕ
  pub args : List Bytes
  pub arg_lens : List ℕ
  pub argc : ℕ
  pub truncated : ℕ

-- A number in that many bytes, the lowest first.
abbrev pub number_bytes : ℕ → ℕ → Bytes
number_bytes zero n = []
number_bytes (suc width) n = (n % 256) ∷ number_bytes width (n / 256)

abbrev pub concat : List Bytes → Bytes
concat [] = []
concat (b ∷ bs) = b ++ concat bs

-- `repr(C)`: the fields in their order, with no padding.
unfoldable pub layout : ExecEvent → List Bytes
layout x =
    number_bytes 8 x.timestamp_ns
    ∷ number_bytes 4 x.pid
    ∷ number_bytes 4 x.tid
    ∷ number_bytes 4 x.uid
    ∷ number_bytes 4 x.gid
    ∷ x.comm
    ∷ x.filename
    ∷ number_bytes 2 x.filename_len
    ∷ concat x.args
    ∷ concat (map (number_bytes 2) x.arg_lens)
    ∷ (x.argc ∷ [])
    ∷ (x.truncated ∷ [])
    ∷ []

unfoldable pub record_bytes : ExecEvent → Bytes
unfolding layout
record_bytes x = concat (layout x)
