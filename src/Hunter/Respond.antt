-- ===== src/Hunter/Respond.antt =====
-- broker/internal/hunter/respond.go: the kill, and the checks in front of it.
pub mod Safety
use agentic_ebpf_patrol.Prelude.{
  ℕ, Bool, true, false, not, List, [], ◌∷◌, Option, none, some, Bytes, bytes_eq, leb, if◌then◌else◌,
}
use agentic_ebpf_patrol.Text.{trim_space}

-- What the host answers: the contents of `/proc/<pid>/comm`, if that can be read, and whether
-- `kill(pid, SIGKILL)` succeeds.
pub record Host : Type 0 where
  pub read_comm : ℕ → Option Bytes
  pub deliver : ℕ → Bool

-- The mismatch carries the name that was found.
pub data KillError : Type 0 where
  refused : KillError
  exited : KillError
  mismatch : Bytes → KillError
  kill_failed : KillError

-- The error, if any, and the pids that SIGKILL was sent to.
pub record Response : Type 0 where
  pub error : Option KillError
  pub signalled : List ℕ

unfoldable pub kill_process : Host → ℕ → Bytes → Response
kill_process host pid expected_comm =
    if leb pid 1
    then record { error = some refused; signalled = [] }
    else elim (host.read_comm pid) [
      | none ↦ record { error = some exited; signalled = [] }
      | some comm_bytes ↦
          let current = trim_space comm_bytes in
          if not (bytes_eq current expected_comm)
          then record { error = some (mismatch current); signalled = [] }
          else if host.deliver pid
          then record { error = none; signalled = pid ∷ [] }
          else record { error = some kill_failed; signalled = pid ∷ [] }
    ]
