-- ===== src/Pipeline.antt =====
-- broker/internal/pipeline/pipeline.go: decode, audit, triage, queue or overflow; the evaluation of
-- one event by a worker. Which calls run in what order is the
-- matter of Pipeline/System.antt.
pub mod Counters
pub mod Log
pub mod HandleRaw
pub mod Evaluate
pub mod Draining
pub mod Replay
pub mod System
pub mod Shutdown
use agentic_ebpf_patrol.Prelude.{
  ℕ, zero, suc, ◌+◌, ℤ, pos, Bool, true, false, not, List, [], ◌∷◌, ◌++◌, Option, none, some, Bytes,
  length, bytes_eq, Result, ok, err, panic, ltb, if◌then◌else◌,
}
use agentic_ebpf_patrol.Events.{Event, decode}
use agentic_ebpf_patrol.Triage.{is_suspicious}
use agentic_ebpf_patrol.Hunter.{Verdict, action_kill}
use agentic_ebpf_patrol.Hunter.Client
use agentic_ebpf_patrol.Hunter.Client.{Client, Surroundings, Evaluation, verdict}
use agentic_ebpf_patrol.Hunter.Respond.{Host, Response, kill_process}
use Counters.{Metrics, add, zero_metrics, metrics_report}
use Log.{
  AppendLog, LogError, Opening, Entry, line, torn, Write, Rotation, new_append_log, append, close,
  rotate,
}

-- The parameters of `New`; `replay_every` is in nanoseconds.
pub record Config : Type 0 where
  pub hunter_client : Client
  pub queue_size : ℤ
  pub workers : ℤ
  pub overflow_path : Bytes
  pub audit_path : Bytes
  pub replay_every : ℤ

-- `queue` is the buffer of the channel, oldest first, and `capacity` its size.
pub record Pipeline : Type 0 where
  pub cfg : Config
  pub queue : List Event
  pub capacity : ℕ
  pub metrics : Metrics
  pub audit : AppendLog
  pub overflow : AppendLog

-- 30 s
abbrev pub default_replay : ℤ
default_replay = pos 30_000_000_000

abbrev pub is_positive : ℤ → Bool
is_positive (pos zero) = false
is_positive (pos (suc n)) = true
is_positive (ℤ.negsuc n) = false

-- `make(chan events.Event, n)` panics below 0.
abbrev pub made_queue : ℤ → Result LogError ℕ
made_queue (pos n) = ok n
made_queue (ℤ.negsuc n) = panic

-- What `New` returns, and what has become of the audit log when it is opened in vain.
pub data NewResult : Type 0 where
  created : Pipeline → NewResult
  -- The audit log did not open.
  no_audit : LogError → NewResult
  -- The overflow log did not open; the audit log is as `Close` leaves it.
  no_overflow : LogError → AppendLog → NewResult
  panicked : NewResult

unfoldable pub new : Opening → Opening → Bool → Config → NewResult
unfolding new_append_log close
new audit_os overflow_os closes config =
    let cfg' =
      if not (is_positive config.replay_every)
      then record config { replay_every = default_replay }
      else config in
    elim (new_append_log audit_os cfg'.audit_path) [
      | err e ↦ no_audit e
      | panic ↦ panicked
      | ok audit_log ↦ elim (new_append_log overflow_os cfg'.overflow_path) [
        | err e ↦ no_overflow e (close closes audit_log).0
        | panic ↦ panicked
        | ok overflow_log ↦ elim (made_queue cfg'.queue_size) [
          | ok n ↦ created (record {
            cfg = cfg';
            queue = [];
            capacity = n;
            metrics = zero_metrics;
            audit = audit_log;
            overflow = overflow_log;
          })
          | err e ↦ panicked
          | panic ↦ panicked
        ]
      ]
    ]

-- `Close` behind `wg.Wait()`: both logs are closed; the error is that of the overflow log.
unfoldable pub close_logs : Bool → Bool → Pipeline → Pipeline × Bool
unfolding close
close_logs audit_closes overflow_closes p =
    let (audit', audit_failed) = close audit_closes p.audit in
    let (overflow', overflow_failed) = close overflow_closes p.overflow in
    (record p { audit = audit'; overflow = overflow' }, overflow_failed)

-- `p.overflow.Append(ev)`; an error counts the event as lost.
unfoldable pub spill : Write → Event → Pipeline → Pipeline
spill w ev p =
    let (log, failed) = append w ev p.overflow in
    let m = p.metrics in
    if failed
    then record p { overflow = log; metrics = record m { events_lost = add m.events_lost 1 } }
    else record p { overflow = log }

-- The `select` of `HandleRaw`: the queue if it has room, or else the overflow log.
unfoldable pub dispatch : Write → Event → Pipeline → Pipeline
dispatch w ev p =
    let m = p.metrics in
    if ltb (length p.queue) p.capacity
    then record p { queue = p.queue ++ ev ∷ [] }
    else spill w ev (record p { metrics = record m { queue_overflows = add m.queue_overflows 1 } })

-- The event is counted and goes to the audit log, whose error is only printed.
abbrev pub audited : Write → Event → Pipeline → Pipeline
audited w ev p =
    let m = p.metrics in
    record p {
      metrics = record m { events_total = add m.events_total 1 };
      audit = (append w ev p.audit).0;
    }

abbrev pub count_suspicious : Pipeline → Pipeline
count_suspicious p =
    let m = p.metrics in
    record p { metrics = record m { suspicious_total = add m.suspicious_total 1 } }

-- `HandleRaw` behind `Decode`: the first write is the audit log's, the second the overflow log's.
unfoldable pub handle_event : Write → Write → Event → Pipeline → Pipeline
handle_event audit_write overflow_write ev p =
    let q = audited audit_write ev p in
    if not (is_suspicious ev) then q else dispatch overflow_write ev (count_suspicious q)

-- `HandleRaw`, given the wall-clock time of the boot; `none` is a panic.
unfoldable pub handle_raw : ℤ → Write → Write → Bytes → Pipeline → Option Pipeline
unfolding handle_event dispatch spill append decode is_suspicious
handle_raw boot_wall audit_write overflow_write raw p = elim (decode boot_wall raw) [
  | ok ev ↦ some (handle_event audit_write overflow_write ev p)
  | err e ↦ some (
      let m = p.metrics in
      record p { metrics = record m { decode_errors = add m.decode_errors 1 } })
  | panic ↦ none
]

-- The verdict that an evaluation returned, if its error is nil.
abbrev pub verdict_of : Evaluation → Option Verdict
verdict_of (verdict v) = some v
verdict_of Evaluation.marshal_failed = none
verdict_of Evaluation.cancelled = none
verdict_of (Evaluation.unavailable n e) = none

-- What `Evaluate` meets in one call: what `json.Marshal` makes of the event, the surroundings of its
-- attempts, and the write of the overflow log if it fails.
pub record Call : Type 0 where
  pub body : Option Bytes
  pub around : Surroundings
  pub write : Write

abbrev pub ask : Call → Pipeline → Option Verdict
ask call p = verdict_of (Client.evaluate p.cfg.hunter_client call.around call.body).0

-- `evaluate` once the hunter has answered: the pipeline, and the call of `KillProcess` if there is
-- one.
unfoldable pub act_on :
    Host → Write → Event → Option Verdict → Pipeline → Pipeline × Option Response
act_on host w ev none p =
    let m = p.metrics in
    (spill w ev (record p { metrics = record m { hunter_errors = add m.hunter_errors 1 } }), none)
act_on host w ev (some v) p =
    let m = p.metrics in
    if not (bytes_eq v.action action_kill) then (p, none) else (
      record p { metrics = record m { actions_kill = add m.actions_kill 1 } },
      some (kill_process host ev.pid ev.comm),
    )

unfoldable pub evaluate : Host → Call → Event → Pipeline → Pipeline × Option Response
unfolding act_on spill append kill_process Client.evaluate
evaluate host call ev p = act_on host call.write ev (ask call p) p

-- `MetricsHandler`
unfoldable pub metrics_handler : Pipeline → List (Bytes × ℕ)
unfolding metrics_report
metrics_handler p = metrics_report p.metrics (length p.queue) p.capacity
