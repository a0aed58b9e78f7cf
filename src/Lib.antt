-- ===== src/Lib.antt =====
-- Agentic eBPF Patrol: the Go broker (broker/), the sensor's record (sensor/) and the Python
-- hunter service (hunter/). The broker reads the records of process starts that the eBPF sensor
-- writes to a ring buffer, writes each to an audit log, asks the hunter over HTTP about the
-- suspicious ones, and kills a process when the verdict says so. What does not fit into its queue,
-- and what the hunter does not answer, goes to an overflow file that is replayed from time to
-- time. The hunter asks a language model, checks what it proposes, and kills on its side too.
--
-- The files, and the code that they model:
--   Events    broker/internal/events/events.go: `Decode` and its helpers, with a panic as a value.
--             Events/Reads has the value of each read, Events/Bounds the sizes; Events/Clock is
--             `bootWallTime`, with its `sync.Once`.
--   Triage    broker/internal/triage/triage.go: `IsSuspicious` and its helpers; Triage/Spec says
--             what the heuristics mean, on top of Names, Lookup, Hidden and Masks.
--   Hunter    broker/internal/hunter/verdict.go; Hunter/Client is client.go (`New`, `Evaluate`,
--             `doRequest`), with its outcomes in Retry and its pauses and requests in Backoff;
--             Hunter/Respond is respond.go (`KillProcess`), with Safety.
--   Pipeline  broker/internal/pipeline/pipeline.go: `New`, `HandleRaw`, `evaluate`, `drainOverflow`,
--             and what `Close` does to the logs; the replay is in Pipeline/Draining. Pipeline/Log is
--             appendlog.go, Pipeline/Counters is metrics.go, with the JSON text in Encoding and a
--             reader of it in Reads. Pipeline/HandleRaw, Evaluate and Replay are about single calls.
--             Pipeline/System has the goroutines (the reader, `worker`, `replayLoop`) as moves in
--             any order; its children are about runs of moves, and System/Ledger is an abstract view
--             of them, to which Grows and Refinement lead, and System/Kept carries what each
--             operation keeps over to runs. Pipeline/Shutdown is the way from the cancellation to
--             the return of `Close`, as a step relation. Pipeline/Replay/Leftover is about a start
--             beside a moved file, Pipeline/Replay/Down about passes while the hunter is down,
--             Pipeline/Replay/Kills about kill verdicts.
--   Ingest    broker/internal/ingest/ringbuf_reader.go: `Open`, `Close`, `Run`.
--   Broker    broker/main.go: the defaults of the flags, and `openWithRetry`; Broker/Main is `main`,
--             which joins Ingest's loop, the pipeline's goroutines and the shutdown.
--             Broker/Observability is `serveObservability`, with Told for what a client reads.
--   Sensor    sensor/cyber-patrol-common/src/lib.rs: `ExecEvent` and its bytes; Sensor/Capture is
--             `try_sys_enter_execve` of sensor/cyber-patrol-ebpf/src/main.rs, with the kernel's
--             helpers as arguments. RoundTrip and Capture/Seen put `Decode` behind them, and
--             Capture/Reading compares the event with the kernel's answers.
--   Service   hunter/models.py and the set of hunter/mitre.py; Service/Float has Python's comparison
--             of floats, the bounds and the clamp of the confidence, and the floor of
--             hunter/config.py. Service/Engine is hunter/llm_engine.py, with Authority (the checks
--             of a verdict) and Kill (the choice of the block); Service/Responder is
--             hunter/responder.py and scripts/kill_pid.sh, with Safety, Returns and Raises, and
--             Mirror, which compares it with the broker's; Service/Api is hunter/app.py, with Kills.
--             Service/Joined puts the broker's `evaluate` in front of the service.
--   Text      the functions of Go's `strings` that the code calls, on bytes, and numbers in decimal
--             (Text/Decimal, of strconv), and what encoding/json does to a string that is not UTF-8
--             (Text/Utf8, with Again for a second time).
--   Prelude   shared names, lists, results and integers.
--   Tests     the theorems at concrete inputs.
--
-- How the code is modelled:
--   * A Go string or slice of bytes is a list of numbers; an unsigned counter wraps around at 2^64
--     and the back-off is a 64-bit pattern read as signed.
--   * A slice or an index out of range panics. The bound of a slice is the length of the record,
--     not its capacity.
--   * What the operating system, the network and the clock answer are arguments: whether a write
--     is whole, partial or nothing, whether a file opens, what the hunter replies to each attempt,
--     whether the context is cancelled in a pause, what /proc/uptime and the wall clock say. Where
--     the pipeline decodes, the wall-clock time of the boot is an argument.
--   * A call of the HTTP client's `Do` is one request and one answer: the redirects that net/http
--     follows are part of the network's answer.
--   * An event always marshals, since its time lies within 293 years of the boot.
--   * The log keeps the error of its `bufio.Writer`, which no later call clears. A file is a list
--     of lines, and a partial write leaves a broken one.
--   * Each call of the log holds its mutex, and the queue is a channel: so a whole `HandleRaw`,
--     the end of an evaluation, and one round of the replay are single moves. A move that is not
--     possible changes nothing. With a queue size of 0 the model never hands an event to a waiting
--     worker.
--   * From the cancellation on nothing is received, each worker that waits may return or take
--     another event, a pass of the replay that is under way goes on to its end, and the loop may
--     then return or begin another, since Go's `select` takes either case if both are ready. A
--     worker that returns before the reader stops is one that takes no more events until then. The
--     two closes of `Close` are one move.
--   * `main` meets a list of reads; what the goroutines do before the first record and behind each
--     is an argument. `reading` is the stage of a list with no error behind the cancellation.
--   * A request to the observability server is the path that the multiplexer matches. Its counters
--     are loaded at one moment; in the code a goroutine can move between two loads.
--   * The kernel's helpers keep to what their documentation says (Sensor/Capture/Documented): a
--     text that is read into n bytes has fewer than n and no NUL, a process name is 16 bytes.
--   * A Python string is a list of code points, and a float is its bit pattern, compared as IEEE
--     754 says. The model's message is a list of blocks, in which the input of a tool's call is
--     what pydantic makes of the types of its fields. An exception that the code does not catch is
--     a value, and of a call out of `kill_pid` it is the status 500. The helper gets two
--     arguments, as it always does. What Python and the shell see of a process are separate
--     arguments.
--   * Where the broker asks the service, the verdict that the broker decodes has the severity, the
--     action, the technique and the confidence of the endpoint's answer (Service/Joined).
--   * All loops are structural: `Evaluate` by its attempts, `Run` by the reads, the replay by the
--     lines of the file, the sensor's loop by its rounds. Only the digits of a number have fuel,
--     for 20 of them, which is enough below 10^20.
--
-- Not modelled: log lines, the text of errors, the HTTP endpoints' transport, the parsing of flags
-- and the delivery of signals, which only input and output show; the prompts and the call of the
-- model, the reading of the settings, and the service's `/healthz`, which its libraries carry out;
-- the sensor's loader and its build tool, which call libraries; the dashboard, the other scripts
-- and the containers.
pub mod Prelude
pub mod Text
pub mod Events
pub mod Triage
pub mod Hunter
pub mod Pipeline
pub mod Ingest
pub mod Broker
pub mod Sensor
pub mod Service
pub mod Tests
