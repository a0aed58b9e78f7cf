-- ===== src/Service/Responder.antt =====
-- hunter/responder.py, and the helper scripts/kill_pid.sh that it calls by `sudo`. What the system
-- answers is an argument: the calls of Python's `open`, `os.kill` and `subprocess.run`, and the
-- shell's of `test -r`, `tr` and `kill`.
pub mod Safety
pub mod Returns
pub mod Raises
pub mod Mirror
use agentic_ebpf_patrol.Prelude.{
  ℕ, ℤ, pos, negsuc, Bool, true, false, not, ◌||◌, ◌&&◌, List, [], ◌∷◌, reverse, Option, none, some,
  bytes_eq, leb, ◌==◌, if◌then◌else◌,
}
use agentic_ebpf_patrol.Service.{Str}

-- White space as `str.strip` takes it.
abbrev pub is_white : ℕ → Bool
is_white c =
    (leb 9 c && leb c 13)
    || (leb 0x1C c && leb c 0x20)
    || (c == 0x85)
    || (c == 0xA0)
    || (c == 0x1680)
    || (leb 0x2000 c && leb c 0x200A)
    || (c == 0x2028)
    || (c == 0x2029)
    || (c == 0x202F)
    || (c == 0x205F)
    || (c == 0x3000)

unfoldable pub strip_left : Str → Str
strip_left [] = []
strip_left (c ∷ s) = let rest = strip_left s in if is_white c then rest else c ∷ s

unfoldable pub strip : Str → Str
unfolding strip_left
strip s = reverse (strip_left (reverse (strip_left s)))

-- `open` and `read`: the text, `FileNotFoundError`, or another exception.
pub data Reading : Type 0 where
  text : Str → Reading
  missing : Reading
  unreadable : Reading

-- `os.kill`: done, `ProcessLookupError`, `PermissionError`, or another exception.
pub data Delivery : Type 0 where
  delivered no_process no_permission undeliverable : Delivery

-- The shell's view of the file: `-r` fails, `tr` fails, or the contents.
pub data Probe : Type 0 where
  hidden : Probe
  broken : Probe
  shows : Str → Probe

-- `subprocess.run`: the helper runs to its end, `sudo` itself exits with a status other than zero,
-- there is no `sudo`, the time is over (and whether the helper had done its work), or another
-- exception.
pub data Sudo : Type 0 where
  runs : Sudo
  denied : Sudo
  not_found : Sudo
  timed_out : Bool → Sudo
  uncallable : Sudo

pub record Machine : Type 0 where
  pub read_comm : ℤ → Reading
  pub deliver : ℤ → Delivery
  pub sudo : Sudo
  pub probe : ℤ → Probe
  pub shell_kill : ℤ → Bool

-- The exit status, and the pids that SIGKILL reached.
pub record Exit : Type 0 where
  pub status : ℕ
  pub signalled : List ℤ

-- `tr -d '\n'`.
unfoldable pub without_newlines : Str → Str
without_newlines [] = []
without_newlines (c ∷ s) = let rest = without_newlines s in if c == 10 then rest else c ∷ rest

-- scripts/kill_pid.sh on two arguments: `^[0-9]+$` refuses the sign of a negative pid.
unfoldable pub kill_script : Machine → ℤ → Str → Exit
unfolding without_newlines
kill_script machine (negsuc n) expected_comm = record { status = 2; signalled = [] }
kill_script machine (pos n) expected_comm =
    if leb n 1 then record { status = 3; signalled = [] } else elim (machine.probe (pos n)) [
      | hidden ↦ record { status = 0; signalled = [] }
      | broken ↦ record { status = 1; signalled = [] }
      | shows contents ↦
          if not (bytes_eq (without_newlines contents) expected_comm)
          then record { status = 4; signalled = [] }
          else if machine.shell_kill (pos n)
          then record { status = 0; signalled = pos n ∷ [] }
          else record { status = 1; signalled = [] }
    ]

-- What a call returns (`none` is an exception), and the pids that SIGKILL reached.
pub record Attempt : Type 0 where
  pub returned : Option Bool
  pub signalled : List ℤ

unfoldable pub kill_via_script : Machine → ℤ → Str → Attempt
unfolding kill_script
kill_via_script machine pid expected_comm =
    let exit = kill_script machine pid expected_comm in
    elim machine.sudo [
      | runs ↦ record { returned = some (exit.status == 0); signalled = exit.signalled }
      | denied ↦ record { returned = some false; signalled = [] }
      | not_found ↦ record { returned = some false; signalled = [] }
      | timed_out done ↦ record {
        returned = some false;
        signalled = if done then exit.signalled else [];
      }
      | uncallable ↦ record { returned = none; signalled = [] }
    ]

unfoldable pub kill_pid : Machine → ℤ → Str → Attempt
unfolding strip kill_via_script
kill_pid machine pid expected_comm = elim (machine.read_comm pid) [
  | missing ↦ record { returned = some false; signalled = [] }
  | unreadable ↦ record { returned = none; signalled = [] }
  | text t ↦
      if not (bytes_eq (strip t) expected_comm)
      then record { returned = some false; signalled = [] }
      else elim (machine.deliver pid) [
        | delivered ↦ record { returned = some true; signalled = pid ∷ [] }
        | no_process ↦ record { returned = some false; signalled = [] }
        | no_permission ↦ kill_via_script machine pid expected_comm
        | undeliverable ↦ record { returned = none; signalled = [] }
      ]
]
