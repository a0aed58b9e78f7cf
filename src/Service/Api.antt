-- ===== src/Service/Api.antt =====
-- hunter/app.py: the endpoint `/v1/evaluate`. FastAPI's reading of the body and its writing of the
-- answer are the library's.
pub mod Kills
use agentic_ebpf_patrol.Prelude.{ℕ, ℤ, List, [], Option, none, some, not, if◌then◌else◌}
use agentic_ebpf_patrol.Service.{ExecEvent, Verdict, is_kill}
use agentic_ebpf_patrol.Service.Engine
use agentic_ebpf_patrol.Service.Engine.{Message}
use agentic_ebpf_patrol.Service.Responder.{Machine, Attempt, kill_pid}

-- A verdict with status 200, or an error's status.
pub data Answer : Type 0 where
  answered : Verdict → Answer
  failed : ℕ → Answer

-- The answer, and the pids that SIGKILL reached.
pub record Reaction : Type 0 where
  pub answer : Answer
  pub signalled : List ℤ

-- The rest of `evaluate`, and the handler of an exception that comes out of it.
unfoldable pub act_on : Machine → ExecEvent → Verdict → Reaction
unfolding kill_pid
act_on machine event verdict =
    if not (is_kill verdict.action)
    then record { answer = answered verdict; signalled = [] }
    else let attempt = kill_pid machine event.pid event.comm in
      elim attempt.returned [
        | none ↦ record { answer = failed 500; signalled = attempt.signalled }
        | some b ↦ record { answer = answered verdict; signalled = attempt.signalled }
      ]

unfoldable pub evaluate : ℕ → Machine → Message → ExecEvent → Reaction
unfolding Engine.evaluate act_on
evaluate floor machine message event = elim (Engine.evaluate floor message) [
  | none ↦ record { answer = failed 500; signalled = [] }
  | some verdict ↦ act_on machine event verdict
]
