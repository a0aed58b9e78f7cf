-- ===== src/Tests/Leaving.antt =====
-- A run up to the cancellation with one event queued, and the shutdown behind it.
use agentic_ebpf_patrol.Prelude.{ℕ, ◌+◌, ◌≤◌, ◌*◌, ◌≡◌, refl, pos, true, List, [], ◌∷◌, none, arith}
use agentic_ebpf_patrol.Pipeline.{close_logs}
use agentic_ebpf_patrol.Pipeline.Draining.{drain_begin}
use agentic_ebpf_patrol.Pipeline.Log.{whole}
use agentic_ebpf_patrol.Pipeline.System.{
  World, Move, receive, take_event, judge, start, run, file_lines, judge_event, begin_pass,
  replay_event, finish_pass, pick,
}
use agentic_ebpf_patrol.Pipeline.System.Ledger.{LedgerRun, ledger, offered_in}
use agentic_ebpf_patrol.Pipeline.System.Grows.{view}
use agentic_ebpf_patrol.Pipeline.System.Refinement.{run_from_new-LedgerRun}
use agentic_ebpf_patrol.Pipeline.Shutdown.{
  Leaving, leaving, LeaveStep, LeaveSteps, here, next, takes, judges, worker_returns, loop_returns,
  close_returns, begins, replays, pass_ends,
}
use agentic_ebpf_patrol.Pipeline.Shutdown.Work.{backlog, work_left}
use agentic_ebpf_patrol.Pipeline.Shutdown.Ends.{HasLeft, shutdown-ends}
use agentic_ebpf_patrol.Pipeline.Shutdown.Remains.{Untouched, shutdown-strands}
use agentic_ebpf_patrol.Tests.{
  raw_record, host, answered_call, failed_call, config, opening, pipeline, pipeline-new, smooth,
}

abbrev moves : List Move
moves = receive (pos 0) whole whole raw_record ∷ []

abbrev at_cancel : World
at_cancel = run moves (start pipeline)

-- A worker takes the event, and the hunter answers.
abbrev answered_moves : List Move
answered_moves =
    receive (pos 0) whole whole raw_record ∷ take_event ∷ judge 0 host answered_call ∷ []

run_from_new-LedgerRun_example :
    LedgerRun config.hunter_client answered_moves
      (ledger
        (offered_in answered_moves)
        (file_lines pipeline.overflow.live)
        (record { settled = []; reported = []; abandoned = [] }))
      (view [] (run answered_moves (start pipeline)))
run_from_new-LedgerRun_example =
    run_from_new-LedgerRun opening opening true config pipeline answered_moves pipeline-new

-- The worker takes the event and spills it, the replay loop starts one more pass, which spills it
-- again, worker and loop return, and the logs close.
leaves : (t : Leaving) × LeaveSteps (leaving at_cancel) 8 t × (t.closed ≡ true)
unfolding run start judge_event pick begin_pass drain_begin replay_event finish_pass close_logs
leaves =
    let taken = next here (takes _ [] refl (omega arith) refl) in
    let spilled = next taken (judges 0 host failed_call _ [] refl refl) in
    let begun = next spilled (begins smooth refl refl refl) in
    let replayed = next begun (replays failed_call _ _ [] refl refl refl) in
    let passed = next replayed (pass_ends true _ refl tt refl) in
    let left = next passed (worker_returns (omega arith) refl) in
    let returned = next left (loop_returns refl refl refl) in
    (_, next returned (close_returns true true refl refl refl refl), refl)

shutdown-ends_example :
    (8 ≤ work_left (leaving at_cancel) + leaves.0.begun * (backlog at_cancel + 2))
    × (((u : Leaving) → ¬ LeaveStep leaves.0 u) → HasLeft leaves.0)
shutdown-ends_example =
    shutdown-ends opening opening true config pipeline moves 8 leaves.0 pipeline-new leaves.1

at_cancel_idle : (at_cancel.in_hand ≡ []) × (at_cancel.replaying ≡ none)
unfolding run start
at_cancel_idle = (refl, refl)

shutdown-strands_example :
    (n : ℕ) × (t : Leaving) × LeaveSteps (leaving at_cancel) n t
    × (t.closed ≡ true)
    × Untouched at_cancel t.world
shutdown-strands_example = shutdown-strands at_cancel at_cancel_idle.0 at_cancel_idle.1
