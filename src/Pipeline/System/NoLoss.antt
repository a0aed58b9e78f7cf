-- ===== src/Pipeline/System/NoLoss.antt =====
-- broker/internal/pipeline/pipeline.go: which events a run passes over in silence.
use agentic_ebpf_patrol.Prelude.{Bool}
use agentic_ebpf_patrol.Pipeline.{Pipeline}
