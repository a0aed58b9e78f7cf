-- ===== src/Pipeline/System/Asked.antt =====
-- broker/internal/pipeline/pipeline.go: every move keeps the hunter's client.
use agentic_ebpf_patrol.Prelude.{ℕ, ◌≡◌, ap, ◌∙◌}
use agentic_ebpf_patrol.Hunter.Client.{Client}
use agentic_ebpf_patrol.Pipeline.{Pipeline}
use agentic_ebpf_patrol.Pipeline.System.Effects.{
  Effect, handle_event-Effect, evaluate-Effect, replay_one-Effect, drain_end-Effect,
  drain_begin-Effect,
}
use agentic_ebpf_patrol.Pipeline.System.Kept.{IsKept}

-- The pipeline asks this client.
abbrev pub Asks : Client → Pipeline → Type 0
Asks c q = q.cfg.hunter_client ≡ c

Effect-Asks :
    (c : Client) {q q' : Pipeline} {lost suspicious : ℕ}
    → Effect q q' lost suspicious
    → Asks c q
    → Asks c q'
Effect-Asks c e h = ap (λ x. x.hunter_client) e.same_cfg ∙ h

pub Asks-IsKept : (c : Client) → IsKept (Asks c)
Asks-IsKept c = record {
  by_event = λ aw ow ev q h. Effect-Asks c (handle_event-Effect aw ow ev q) h;
  by_short = λ q h. h;
  by_take = λ evs q h. h;
  by_evaluate = λ host call ev q h. Effect-Asks c (evaluate-Effect host call ev q) h;
  by_begin = λ os q h. Effect-Asks c (drain_begin-Effect os q) h;
  by_replay = λ call ev q h. Effect-Asks c (replay_one-Effect call ev q) h;
  by_end = λ removed n m q h. Effect-Asks c (drain_end-Effect removed n m q) h;
}
