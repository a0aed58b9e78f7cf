-- ===== src/Tests/Starting.antt =====
-- A whole run of the broker: the second attempt opens the map, one record is read, the context is
-- cancelled, and the goroutines leave.
use agentic_ebpf_patrol.Prelude.{
  ℕ, zero, suc, ◌+◌, ◌≡◌, refl, pos, true, false, List, [], ◌∷◌, count, arith,
}
use agentic_ebpf_patrol.Ingest.{Read, sample, failed}
use agentic_ebpf_patrol.Ingest.Order.{delivered}
use agentic_ebpf_patrol.Pipeline.{close_logs}
use agentic_ebpf_patrol.Pipeline.Log.{whole}
use agentic_ebpf_patrol.Pipeline.System.{
  World, take_event, start, run, file_lines, judge_event, pick,
}
use agentic_ebpf_patrol.Pipeline.Shutdown.{
  Leaving, leaving, LeaveSteps, here, next, judges, worker_returns, loop_returns, close_returns,
}
use agentic_ebpf_patrol.Broker.{Attempt}
use agentic_ebpf_patrol.Broker.Main.{Setting, closing, main}
use agentic_ebpf_patrol.Broker.Main.Reads.{Goes, moves_of, main-Goes}
use agentic_ebpf_patrol.Broker.Main.Accepted.{OneReader, suspects}
use agentic_ebpf_patrol.Broker.Main.Accounts.{after_json, main-Balanced}
use agentic_ebpf_patrol.Tests.{
  of_process, raw_record, host, failed_call, config, opening, pipeline, pipeline-new,
}

abbrev second_opens : ℕ → Attempt
second_opens zero = record { loads = false; attaches = false }
second_opens (suc i) = record { loads = true; attaches = true }

-- A worker takes each event at once.
abbrev setting : Setting
setting = record {
  config = config;
  open_retries = pos 10;
  audit_os = opening;
  overflow_os = opening;
  closes = true;
  before = [];
  tries = second_opens;
  boot_wall = pos 0;
  round = λ i. record { audit_write = whole; overflow_write = whole; others = take_event ∷ [] };
}

abbrev reads : List Read
reads = failed false ∷ sample raw_record ∷ failed true ∷ sample raw_record ∷ []

main-Goes_example : Goes setting reads pipeline
main-Goes_example = main-Goes setting reads pipeline pipeline-new

abbrev at_close : World
at_close = run (moves_of setting (raw_record ∷ [])) (start pipeline)

main_closes : main setting reads ≡ closing at_close
unfolding main run start
main_closes = refl

leaves : (t : Leaving) × LeaveSteps (leaving at_close) 4 t × (t.closed ≡ true)
unfolding run start judge_event pick close_logs
leaves = (
  _,
  next
      (next
        (next (next here (judges 0 host failed_call _ [] refl refl))
          (worker_returns (omega arith) refl))
        (loop_returns refl refl refl))
      (close_returns true true refl refl refl refl),
  refl,
)

setting-OneReader : OneReader setting
setting-OneReader = (tt, λ i. (tt, tt))

main-Balanced_example :
    let p = after_json of_process in
    count p leaves.0.world.pipe.queue
      + count p (file_lines leaves.0.world.pipe.overflow.live)
      + count p leaves.0.world.settled
      + count p leaves.0.world.reported
      + count p leaves.0.world.abandoned
    ≡ count p (suspects (pos 0) (delivered reads)) + count p (file_lines opening.found)
main-Balanced_example =
    main-Balanced setting reads at_close 4 leaves.0 of_process setting-OneReader main_closes
      leaves.1 leaves.2
