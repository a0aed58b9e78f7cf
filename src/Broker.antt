-- ===== src/Broker.antt =====
-- broker/main.go: the defaults of the flags, and the retries that open the pinned map.
pub mod Startup
pub mod Observability
pub mod Main
use agentic_ebpf_patrol.Prelude.{
  ℕ, zero, suc, ◌+◌, ℤ, pos, Bool, true, false, ◌&&◌, Option, none, some, Bytes, codes,
}
use agentic_ebpf_patrol.Hunter.Client
use agentic_ebpf_patrol.Ingest.{Reader, OpenError, open_reader}
use agentic_ebpf_patrol.Pipeline.{Config}

-- The pipeline's configuration when no flag is given.
unfoldable pub default_config : Config
unfolding Client.new
default_config = record {
  hunter_client = Client.new (codes "http://localhost:8000") (pos 5_000_000_000) (pos 3);
  queue_size = pos 4096;
  workers = pos 8;
  overflow_path = codes "/var/lib/cyber-patrol/overflow.jsonl";
  audit_path = codes "/var/lib/cyber-patrol/audit.jsonl";
  replay_every = pos 30_000_000_000;
}

abbrev pub default_open_retries : ℤ
default_open_retries = pos 10

-- The rounds of `for i := 0; i < attempts; i++`.
abbrev pub rounds : ℤ → ℕ
rounds (pos n) = n
rounds (ℤ.negsuc n) = 0

-- What `ingest.Open` meets in the attempt with a given number.
pub record Attempt : Type 0 where
  pub loads : Bool
  pub attaches : Bool

-- The reader, the error, and the pauses of 2 s that were made.
pub record Opened : Type 0 where
  pub reader : Option Reader
  pub error : Option OpenError
  pub pauses : ℕ

-- The loop of `openWithRetry`: rounds left, `i`, `lastErr`, and the pauses so far.
unfoldable pub open_from : (ℕ → Attempt) → ℕ → ℕ → Option OpenError → ℕ → Opened
unfolding open_reader
open_from tries zero i last_err pauses_made = record {
  reader = none;
  error = last_err;
  pauses = pauses_made;
}
open_from tries (suc left) i last_err pauses_made =
    let (r, e) = open_reader (tries i).loads (tries i).attaches in
    let next = λ (x : OpenError). open_from tries left (i + 1) (some x) (pauses_made + 1) in
    elim e [
      | none ↦ record { reader = some r; error = none; pauses = pauses_made }
      | some x ↦ next x
    ]

unfoldable pub open_with_retry : (ℕ → Attempt) → ℤ → Opened
unfolding open_from
open_with_retry tries attempts = open_from tries (rounds attempts) 0 none 0
