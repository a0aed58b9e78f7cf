-- ===== src/Tests/Running.antt =====
-- A run of the whole pipeline: a queue of one, three records, an answer, a failure and a replay.
use agentic_ebpf_patrol.Prelude.{
  codes, some, take, ◌++◌, ◌∙◌, arith, ◌+◌, ◌≡◌, refl, pos, true, List, [], ◌∷◌, count, length,
}
use agentic_ebpf_patrol.Pipeline.Log.{whole, nothing}
use agentic_ebpf_patrol.Hunter.{Verdict}
use agentic_ebpf_patrol.Hunter.Client
use agentic_ebpf_patrol.Pipeline.{Pipeline, ask}
use agentic_ebpf_patrol.Pipeline.System.Answered.{finish_hands, empty_queue, queued-Answered}
use agentic_ebpf_patrol.Pipeline.System.{
  World, Move, receive, take_event, judge, tick, replay, finish, start, run, file_lines,
}
use agentic_ebpf_patrol.Pipeline.System.Balance.{held}
use agentic_ebpf_patrol.Pipeline.System.Sound.{IsSound}
use agentic_ebpf_patrol.Pipeline.System.Conservation.{run_from_new-Balanced, run_from_new-IsSound}
use agentic_ebpf_patrol.Broker.Observability.{serve}
use agentic_ebpf_patrol.Broker.Observability.Told.{Tells, run_from_new-Tells}
use agentic_ebpf_patrol.Tests.{
  kill_verdict, of_process, process_kept, raw_record, host, answered_call, failed_call, config,
  opening, pipeline, pipeline-new, smooth,
}

abbrev moves : List Move
moves =
    receive (pos 0) whole whole raw_record
    ∷ take_event
    ∷ receive (pos 0) whole whole raw_record
    ∷ receive (pos 0) nothing whole raw_record
    ∷ judge 0 host failed_call
    ∷ tick smooth
    ∷ replay answered_call
    ∷ replay failed_call
    ∷ finish true
    ∷ []

run_from_new-Balanced_example :
    held of_process (run moves (start pipeline))
    ≡ count of_process (run moves (start pipeline)).accepted
      + count of_process (file_lines pipeline.overflow.live)
run_from_new-Balanced_example =
    run_from_new-Balanced opening opening true config pipeline moves of_process pipeline-new
      process_kept

run_from_new-IsSound_example : IsSound (run moves (start pipeline))
run_from_new-IsSound_example =
    run_from_new-IsSound opening opening true config pipeline moves pipeline-new

run_from_new-Tells_example :
    Tells
      (run moves (start pipeline))
      (serve (codes "/metrics") (run moves (start pipeline)).pipe).body
run_from_new-Tells_example =
    run_from_new-Tells opening opening true config pipeline moves pipeline-new (omega arith)

-- Of the three events one was answered, one waits, and one is back in the file after two failures.
moves_end :
    (length (file_lines (run moves (start pipeline)).pipe.overflow.live) ≡ 1)
    × (length (run moves (start pipeline)).pipe.queue ≡ 1)
    × (length (run moves (start pipeline)).settled ≡ 1)
unfolding run start
moves_end = (refl, refl, refl)

-- After four moves the worker holds an event and one is queued.
abbrev waiting : World
waiting = run (take 4 moves) (start pipeline)

config_kept : waiting.pipe.cfg ≡ config
unfolding run start
config_kept = refl

answers : (q : Pipeline) → q.cfg ≡ waiting.pipe.cfg → (v : Verdict) × (ask answered_call q ≡ some v)
unfolding Client.evaluate
answers q e = let is = e ∙ config_kept in (kill_verdict, rw is refl)

queued-Answered_example :
    let idle = run (finish_hands host answered_call waiting.in_hand) waiting in
    let w = run (empty_queue host answered_call waiting.pipe.queue) idle in
    (w.pipe.queue ≡ [])
    × (w.in_hand ≡ [])
    × (w.settled ≡ waiting.settled ++ waiting.in_hand ++ waiting.pipe.queue)
queued-Answered_example =
    queued-Answered host answered_call waiting answers (rw config_kept (omega arith))
