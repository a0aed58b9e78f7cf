-- ===== src/Broker/Main.antt =====
-- broker/main.go: `main` behind the flags, up to the return of `Run`. The goroutines that `Start`
-- launches move before the reader's first record and between two records.
pub mod Reads
pub mod Accepted
pub mod Accounts
use agentic_ebpf_patrol.Prelude.{
  ℕ, ◌+◌, ℤ, Bool, true, false, List, Option, none, some, Bytes, if◌then◌else◌,
}
use agentic_ebpf_patrol.Ingest
use agentic_ebpf_patrol.Ingest.{OpenError, Read}
use agentic_ebpf_patrol.Pipeline.Log.{Opening, Write}
use agentic_ebpf_patrol.Pipeline.{Config, NewResult, new}
use agentic_ebpf_patrol.Pipeline.System.{World, Move, start, run, receive_raw}
use agentic_ebpf_patrol.Broker.{Attempt, Opened, open_with_retry}

-- What happens when a record is handed over: the two writes, and what the goroutines of the pipeline
-- do until the next record.
pub record Round : Type 0 where
  pub audit_write : Write
  pub overflow_write : Write
  pub others : List Move

-- What a run of the broker meets. `before` is what the goroutines do before the first record, and
-- `boot_wall` the wall-clock time of the boot, which is read once.
pub record Setting : Type 0 where
  pub config : Config
  pub open_retries : ℤ
  pub audit_os : Opening
  pub overflow_os : Opening
  pub closes : Bool
  pub before : List Move
  pub tries : ℕ → Attempt
  pub boot_wall : ℤ
  pub round : ℕ → Round

-- Where `main` is: ended by `log.Fatalf` or a panic of `New`; ended by `log.Fatalf` with the map
-- unopened; ended by a panic on a nil reader; inside `Run`; or behind it, at `pl.Close()`.
pub data Stage : Type 0 where
  no_pipeline : NewResult → Stage
  no_map : OpenError → World → Stage
  nil_reader : World → Stage
  reading : World → Stage
  closing : World → Stage

-- `pl.HandleRaw` on the record with a given number, and what follows until the next.
unfoldable pub handle : Setting → Bytes → World × ℕ → World × ℕ
unfolding receive_raw run
handle s raw (w, i) =
    let r = s.round i in
    (run r.others (receive_raw s.boot_wall r.audit_write r.overflow_write raw w), i + 1)

abbrev pub stage_of : Bool → World → Stage
stage_of true w = closing w
stage_of false w = reading w

-- `main` behind `openWithRetry`.
unfoldable pub read_all :
    Setting → List Read → Option OpenError → Option Ingest.Reader → World → Stage
unfolding Ingest.run handle
read_all s reads (some e) reader w = no_map e w
read_all s reads none none w = nil_reader w
read_all s reads none (some r) w =
    let ((w', i), returned) = Ingest.run (handle s) reads (w, 0) in stage_of returned w'

-- `main` behind `pipeline.New`.
unfoldable pub started : Setting → List Read → NewResult → Stage
unfolding read_all open_with_retry start run
started s reads (NewResult.created q) =
    let o = open_with_retry s.tries s.open_retries in
    read_all s reads o.error o.reader (run s.before (start q))
started s reads (NewResult.no_audit e) = no_pipeline (NewResult.no_audit e)
started s reads (NewResult.no_overflow e log) = no_pipeline (NewResult.no_overflow e log)
started s reads NewResult.panicked = no_pipeline NewResult.panicked

unfoldable pub main : Setting → List Read → Stage
unfolding started new
main s reads = started s reads (new s.audit_os s.overflow_os s.closes s.config)
