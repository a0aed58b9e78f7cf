-- ===== src/Pipeline/System/Conservation.antt =====
-- broker/internal/pipeline/pipeline.go: runs from `New`, their invariant and their balance.
use agentic_ebpf_patrol.Prelude.{
  ℕ, ◌+◌, ◌≡◌, ap, Bool, true, List, [], ◌∷◌, Bytes, count, ok, arith,
}
use agentic_ebpf_patrol.Events.{Event}
use agentic_ebpf_patrol.Pipeline.Log.{AppendLog, Opening, new_append_log, json_event}
use agentic_ebpf_patrol.Pipeline.Counters.{zero_metrics}
use agentic_ebpf_patrol.Pipeline.{Config, Pipeline, NewResult, new}
use agentic_ebpf_patrol.Pipeline.System.{World, Move, file_lines, has_file, start, step, run}
use agentic_ebpf_patrol.Pipeline.System.Counts.{created-has_file}
use agentic_ebpf_patrol.Pipeline.System.Balance.{held, Balanced}
use agentic_ebpf_patrol.Pipeline.System.Balance.Steps.{step-Balanced}
use agentic_ebpf_patrol.Pipeline.System.Sound.{IsSound}
use agentic_ebpf_patrol.Pipeline.System.Invariant.{step-IsSound}

-- A pipeline as `New` returns it: nothing is queued or counted, and the log is open on its file.
pub record IsFresh (q : Pipeline) : Type 0 where
  pub queue_empty : q.queue ≡ []
  pub nothing_counted : q.metrics ≡ zero_metrics
  pub log_open : q.overflow.is_open ≡ true
  pub log_there : has_file q.overflow.live ≡ true

new_append_log-open :
    (os : Opening) (path : Bytes) {log : AppendLog}
    → new_append_log os path ≡ ok log
    → (log.is_open ≡ true) × (has_file log.live ≡ true)
unfolding new_append_log
new_append_log-open os path e = ground (arith, created-has_file os.found)

pub new-IsFresh :
    (audit_os overflow_os : Opening) (closes : Bool) (config : Config) {q : Pipeline}
    → new audit_os overflow_os closes config ≡ NewResult.created q
    → IsFresh q
unfolding new
new-IsFresh audit_os overflow_os closes config e =
    ground (arith, new_append_log-open overflow_os config.overflow_path)

pub start-IsSound : (q : Pipeline) → IsFresh q → IsSound (start q)
unfolding start
start-IsSound q f = record {
  has_log = λ _. f.log_there;
  queue_bounded = rw f.queue_empty (omega arith);
  hands_bounded = omega arith;
  lost_counted = ap (λ m. m.events_lost) f.nothing_counted;
  suspicious_counted = ap (λ m. m.suspicious_total) f.nothing_counted;
}

run-IsSound : (ms : List Move) (w : World) → IsSound w → IsSound (run ms w)
unfolding run
run-IsSound [] w s = s
run-IsSound (m ∷ ms) w s = run-IsSound ms (step m w) (step-IsSound m w s)

-- From a pipeline as `New` returns it, after any moves in any order, with any answers of the system
-- and of the hunter: the queue holds at most its capacity, at most as many events are in hand as
-- there are workers, and the counters of lost and of suspicious events are, modulo 2^64, the numbers
-- of the events reported as lost and of the events accepted.
pub run_from_new-IsSound :
    (audit_os overflow_os : Opening) (closes : Bool) (config : Config) (q : Pipeline)
    (ms : List Move)
    → new audit_os overflow_os closes config ≡ NewResult.created q
    → IsSound (run ms (start q))
run_from_new-IsSound audit_os overflow_os closes config q ms e =
    run-IsSound ms (start q) (start-IsSound q (new-IsFresh audit_os overflow_os closes config e))

pub start-Balanced :
    (p : Event → Bool) (q : Pipeline)
    → IsFresh q
    → Balanced p (count p (file_lines q.overflow.live)) (start q)
unfolding start
start-Balanced p q f = rw f.queue_empty (omega arith)

module _ (p : Event → Bool) (kept : (e : Event) → p (json_event e) ≡ p e) (k : ℕ) where
  run-Balanced : (ms : List Move) (w : World) → IsSound w → Balanced p k w → Balanced p k (run ms w)
  unfolding run
  run-Balanced [] w s b = b
  run-Balanced (m ∷ ms) w s b =
      run-Balanced ms (step m w) (step-IsSound m w s) (step-Balanced p kept k m w s.has_log b)

-- From a pipeline as `New` returns it, after any moves in any order, with any answers of the system
-- and of the hunter, and for every test of events that JSON does not change: as many events that
-- pass the test were accepted, or stood in the overflow file at the start, as now pass it in the
-- queue, in the workers' hands, in the overflow file, in the pass under way, among those the hunter
-- answered, those reported as lost, and those passed over with no count.
pub run_from_new-Balanced :
    (audit_os overflow_os : Opening) (closes : Bool) (config : Config) (q : Pipeline)
    (ms : List Move) (p : Event → Bool)
    → new audit_os overflow_os closes config ≡ NewResult.created q
    → ((e : Event) → p (json_event e) ≡ p e)
    → held p (run ms (start q))
      ≡ count p (run ms (start q)).accepted + count p (file_lines q.overflow.live)
run_from_new-Balanced audit_os overflow_os closes config q ms p e kept =
    let f = new-IsFresh audit_os overflow_os closes config e in
    run-Balanced p kept (count p (file_lines q.overflow.live)) ms (start q) (start-IsSound q f)
      (start-Balanced p q f)
