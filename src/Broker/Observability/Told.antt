-- ===== src/Broker/Observability/Told.antt =====
-- broker/main.go, broker/internal/pipeline/metrics.go: what a client of `/metrics` learns of a run.
use agentic_ebpf_patrol.Prelude.{
  ℕ, ◌<◌, ◌≤◌, ◌%◌, ◌^◌, ◌≡◌, refl, ap, Bool, List, [], ◌∷◌, Option, none, some, Bytes, codes,
  length, bytes_eq, All, if◌then◌else◌, arith,
}
use agentic_ebpf_patrol.Pipeline.{Pipeline, Config, NewResult, new, metrics_handler}
use agentic_ebpf_patrol.Pipeline.Log.{Opening}
use agentic_ebpf_patrol.Pipeline.Counters.Reads.{read_object, IsWide}
use agentic_ebpf_patrol.Pipeline.System.{World, Move, start, run}
use agentic_ebpf_patrol.Pipeline.System.Sound.{IsSound}
use agentic_ebpf_patrol.Pipeline.System.Conservation.{IsFresh, new-IsFresh, run_from_new-IsSound}
use agentic_ebpf_patrol.Pipeline.System.Kept.{run-kept}
use agentic_ebpf_patrol.Pipeline.System.Words.{Sized, Sized-IsKept}
use agentic_ebpf_patrol.Broker.Observability.{serve, ordered_report, read_object-serve}

-- What the key says.
abbrev pub value_of : Bytes → List (Bytes × ℕ) → Option ℕ
value_of key [] = none
value_of key (e ∷ report) = if bytes_eq e.0 key then some e.1 else value_of key report

-- The text is an object whose `events_lost` and `suspicious_total` are, modulo 2^64, the numbers of
-- the events that were reported as lost and that were accepted, and whose `queue_depth` is the
-- length of the queue.
abbrev pub Tells : World → Bytes → Type 0
Tells w body =
    (report : List (Bytes × ℕ)) × (read_object body ≡ some report)
    × (value_of (codes "events_lost") report ≡ some (length w.reported % 2 ^ 64))
    × (value_of (codes "suspicious_total") report ≡ some (length w.accepted % 2 ^ 64))
    × (value_of (codes "queue_depth") report ≡ some (length w.pipe.queue))

fresh-Sized : (q : Pipeline) → IsFresh q → Sized q.capacity (start q).pipe
unfolding start
fresh-Sized q f = (refl, rw f.nothing_counted (omega arith))

Sized-IsWide :
    (k : ℕ) (q : Pipeline)
    → k < 2 ^ 63
    → length q.queue ≤ q.capacity
    → Sized k q
    → All IsWide (metrics_handler q)
unfolding metrics_handler
Sized-IsWide k q h b (c, s) = ground arith

sound-Tells :
    (w : World)
    → IsSound w
    → All IsWide (metrics_handler w.pipe)
    → Tells w (serve (codes "/metrics") w.pipe).body
sound-Tells w s h = (
  ordered_report w.pipe,
  read_object-serve w.pipe h,
  ap some s.lost_counted,
  ap some s.suspicious_counted,
  refl,
)

-- From a pipeline as `New` returns it, after any moves of the goroutines in any order: a client that
-- asks for `/metrics` reads a JSON object in which the counters of lost and of suspicious events are,
-- modulo 2^64, the numbers of the events that were reported as lost and that were accepted, and the
-- depth is the queue's length. The capacity is within a Go int.
pub run_from_new-Tells :
    (audit_os overflow_os : Opening) (closes : Bool) (config : Config) (q : Pipeline)
    (ms : List Move)
    → new audit_os overflow_os closes config ≡ NewResult.created q
    → q.capacity < 2 ^ 63
    → Tells (run ms (start q)) (serve (codes "/metrics") (run ms (start q)).pipe).body
run_from_new-Tells audit_os overflow_os closes config q ms e h =
    let sound = run_from_new-IsSound audit_os overflow_os closes config q ms e in
    let f = new-IsFresh audit_os overflow_os closes config e in
    let sized =
      run-kept (Sized q.capacity) (Sized-IsKept q.capacity) ms (start q) (fresh-Sized q f) in
    sound-Tells (run ms (start q)) sound
      (Sized-IsWide q.capacity (run ms (start q)).pipe h sound.queue_bounded sized)
