-- ===== src/Pipeline/Counters.antt =====
-- broker/internal/pipeline/metrics.go: the counters, and what the metrics endpoint reports.
pub mod Encoding
pub mod Reads
use agentic_ebpf_patrol.Prelude.{ℕ, ◌+◌, ◌%◌, ◌^◌, List, [], ◌∷◌, Bytes, codes}

-- The fields are `atomic.Uint64`.
pub record Metrics : Type 0 where
  pub events_total : ℕ
  pub suspicious_total : ℕ
  pub queue_overflows : ℕ
  pub hunter_errors : ℕ
  pub events_lost : ℕ
  pub actions_kill : ℕ
  pub decode_errors : ℕ
  pub overflow_replays : ℕ

-- `c.Add(n)`
abbrev pub add : ℕ → ℕ → ℕ
add c n = (c + n) % 2 ^ 64

abbrev pub zero_metrics : Metrics
zero_metrics = record {
  events_total = 0;
  suspicious_total = 0;
  queue_overflows = 0;
  hunter_errors = 0;
  events_lost = 0;
  actions_kill = 0;
  decode_errors = 0;
  overflow_replays = 0;
}

-- The map that `MetricsHandler` encodes: the counters, the queue's length and its capacity.
unfoldable pub metrics_report : Metrics → ℕ → ℕ → List (Bytes × ℕ)
metrics_report m queue_depth queue_capacity =
    (codes "events_total", m.events_total)
    ∷ (codes "suspicious_total", m.suspicious_total)
    ∷ (codes "queue_overflows", m.queue_overflows)
    ∷ (codes "hunter_errors", m.hunter_errors)
    ∷ (codes "events_lost", m.events_lost)
    ∷ (codes "actions_kill", m.actions_kill)
    ∷ (codes "decode_errors", m.decode_errors)
    ∷ (codes "overflow_replays", m.overflow_replays)
    ∷ (codes "queue_depth", queue_depth)
    ∷ (codes "queue_capacity", queue_capacity)
    ∷ []
