-- ===== src/Sensor/Capture.antt =====
-- sensor/cyber-patrol-ebpf/src/main.rs: `try_sys_enter_execve`.
pub mod Documented
pub mod Seen
pub mod Reading
pub mod Consequences
use agentic_ebpf_patrol.Prelude.{
  ℕ, zero, suc, ◌+◌, ◌-◌, ◌*◌, ◌/◌, ◌%◌, ◌^◌, ◌==◌, Bool, true, false, ◌||◌, List, [], ◌∷◌, ◌++◌,
  map, Option, none, some, Bytes, length, take, replicate, if◌then◌else◌,
}
use agentic_ebpf_patrol.Sensor.{ExecEvent, task_comm_len, max_filename_len, max_args, max_arg_len}

-- What the kernel answers: the helpers' values, the two words of the tracepoint's record, the pointer at
-- a user address, and the text at one, read into a buffer of some size (without its NUL).
pub record Kernel : Type 0 where
  pub ktime_ns : ℕ
  pub pid_tgid : ℕ
  pub uid_gid : ℕ
  pub current_comm : Option Bytes
  pub filename_ptr : Option ℕ
  pub argv_ptr : Option ℕ
  pub read_user : ℕ → Option ℕ
  pub read_user_str : ℕ → ℕ → Option Bytes

abbrev pub zeros : ℕ → Bytes
zeros n = replicate n 0

-- An array of `n` zeroed bytes that a text was read into.
abbrev pub written_to : ℕ → Bytes → Bytes
written_to n b = take n (b ++ zeros n)

-- The arguments' texts that were read, and whether reading stopped at one that could not be.
pub record Argv : Type 0 where
  pub texts : List Bytes
  pub unreadable : Bool

abbrev pub stopped : Bool → Argv
stopped failed = record { texts = []; unreadable = failed }

-- The loop over `argv`: rounds left, and `i`. A null pointer ends it, as does one that is not read.
unfoldable pub walk_argv : Kernel → ℕ → ℕ → ℕ → Argv
walk_argv k argv zero i = stopped false
walk_argv k argv (suc rounds) i = elim (k.read_user ((argv + 8 * i) % 2 ^ 64)) [
  | none ↦ stopped false
  | some zero ↦ stopped false
  | some (suc p) ↦ elim (k.read_user_str (suc p) max_arg_len) [
    | none ↦ stopped true
    | some b ↦
        let rest = walk_argv k argv rounds (i + 1) in
        record { texts = b ∷ rest.texts; unreadable = rest.unreadable }
  ]
]

unfoldable pub captured_argv : Kernel → Argv
unfolding walk_argv
captured_argv k = elim k.argv_ptr [ none ↦ stopped false | some argv ↦ walk_argv k argv max_args 0 ]

-- The file name, if its pointer and its text could be read.
unfoldable pub captured_filename : Kernel → Option Bytes
captured_filename k = elim k.filename_ptr [
  | none ↦ none
  | some p ↦ k.read_user_str p max_filename_len
]

abbrev pub text_or_none : Option Bytes → Bytes
text_or_none none = []
text_or_none (some b) = b

abbrev pub is_unread : Option Bytes → Bool
is_unread none = true
is_unread (some b) = false

abbrev pub comm_or_zeros : Option Bytes → Bytes
comm_or_zeros none = zeros task_comm_len
comm_or_zeros (some b) = b

-- The slots of the arguments: those that were read, and zeroed ones behind them.
abbrev pub slots : List Bytes → List Bytes
slots texts =
    map (written_to max_arg_len) texts ++ replicate (max_args - length texts) (zeros max_arg_len)

abbrev pub slot_lens : List Bytes → List ℕ
slot_lens texts = map (λ b. length b % 2 ^ 16) texts ++ replicate (max_args - length texts) 0

-- The record as it is submitted.
unfoldable pub captured : Kernel → ExecEvent
unfolding captured_argv captured_filename
captured k =
    let argv = captured_argv k in
    let name = captured_filename k in
    record {
      timestamp_ns = k.ktime_ns;
      pid = k.pid_tgid / 2 ^ 32 % 2 ^ 32;
      tid = k.pid_tgid % 2 ^ 32;
      uid = k.uid_gid % 2 ^ 32;
      gid = k.uid_gid / 2 ^ 32 % 2 ^ 32;
      comm = comm_or_zeros k.current_comm;
      filename = written_to max_filename_len (text_or_none name);
      filename_len = length (text_or_none name) % 2 ^ 16;
      args = slots argv.texts;
      arg_lens = slot_lens argv.texts;
      argc = length argv.texts % 2 ^ 8;
      truncated = if is_unread name || argv.unreadable then 1 else 0;
    }

-- `try_sys_enter_execve`, given whether `reserve` finds room: nothing is submitted without.
unfoldable pub try_sys_enter_execve : Bool → Kernel → Option ExecEvent
unfolding captured
try_sys_enter_execve room k = if room then some (captured k) else none
