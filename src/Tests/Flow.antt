-- ===== src/Tests/Flow.antt =====
-- One event through `HandleRaw`, a worker and the replay.
use agentic_ebpf_patrol.Prelude.{
  ℕ, zero, suc, ◌+◌, inl, inr, Option-cases, ◌<◌, ◌≡◌, ◌⊎◌, refl, pos, true, false, [], ◌∷◌, none,
  some, length, ok, err, codes,
}
use agentic_ebpf_patrol.Text.{trim_space}
use agentic_ebpf_patrol.Events.{Event, event_size, decode}
use agentic_ebpf_patrol.Hunter.{Verdict, action_kill}
use agentic_ebpf_patrol.Hunter.Client
use agentic_ebpf_patrol.Hunter.Client.Retry.{WinsAfter}
use agentic_ebpf_patrol.Hunter.Respond.{Response, kill_process}
use agentic_ebpf_patrol.Hunter.Respond.Safety.{IsTarget}
use agentic_ebpf_patrol.Pipeline.Log.{
  line, whole, partial, append, rotate, write_failed, json_event,
}
use agentic_ebpf_patrol.Pipeline.Log.Laws.{add_event, rotate_file, use_all, failed_write_is_final}
use agentic_ebpf_patrol.Pipeline.Counters.{add}
use agentic_ebpf_patrol.Pipeline.{Pipeline, ask, evaluate, handle_event, handle_raw}
use agentic_ebpf_patrol.Pipeline.Draining.{drain_overflow}
use agentic_ebpf_patrol.Pipeline.HandleRaw.{handle_raw-total, Ready}
use agentic_ebpf_patrol.Pipeline.Evaluate.{Answered, ask-Answered, evaluate-signals}
use agentic_ebpf_patrol.Pipeline.Replay.{drain_overflow_unread, HunterDown}
use agentic_ebpf_patrol.Pipeline.Replay.Kills.{evaluate_all, Vanished, replayed_kill-ignored}
use agentic_ebpf_patrol.Pipeline.Replay.Down.{drain_all, passes_while_down}
use agentic_ebpf_patrol.Tests.{
  raw_record, raw_record-IsByte, dropped, kill_verdict, host, answered_call, failed_call, pipeline,
  smooth, down,
}

handle_raw-total_example :
    ((length raw_record < event_size)
      × (handle_raw (pos 7) whole whole raw_record pipeline
          ≡ some (record pipeline {
            metrics = record (pipeline.metrics) {
              decode_errors = add pipeline.metrics.decode_errors 1;
            };
          })))
    ⊎ ((ev : Event) × (decode (pos 7) raw_record ≡ ok ev)
        × (handle_raw (pos 7) whole whole raw_record pipeline
            ≡ some (handle_event whole whole ev pipeline)))
handle_raw-total_example =
    handle_raw-total (pos 7) whole whole raw_record pipeline raw_record-IsByte

-- A queue that is full.
abbrev full_pipeline : Pipeline
full_pipeline = record pipeline { queue = dropped ∷ [] }

ask_answers : ask answered_call pipeline ≡ some kill_verdict
unfolding Client.evaluate
ask_answers = refl

abbrev response : Response
response = record { error = none; signalled = 42 ∷ [] }

dropped_killed : (evaluate host answered_call dropped pipeline).1 ≡ some response
unfolding evaluate trim_space
dropped_killed = refl

evaluate-signals_example :
    (v : Verdict) × Answered answered_call pipeline v
    × (v.action ≡ action_kill)
    × IsTarget host 42 (codes "sh")
evaluate-signals_example =
    evaluate-signals host answered_call dropped pipeline response dropped_killed (λ e. cc)

-- The overflow file holds an event.
abbrev spilled : Pipeline
spilled =
    let log = pipeline.overflow in
    record pipeline { overflow = record log { live = some (line dropped ∷ []) } }

replayed_kill-ignored_example :
    let calls = λ (i : ℕ). answered_call in
    ((evaluate_all host calls 0 (dropped ∷ []) spilled).1 ≡ kill_process host 42 (codes "sh") ∷ [])
    × ((evaluate_all host calls 0 (dropped ∷ []) spilled).0.metrics.actions_kill
        ≡ add spilled.metrics.actions_kill 1)
    × Vanished spilled (drain_overflow smooth calls spilled) 1
replayed_kill-ignored_example =
    replayed_kill-ignored smooth host (λ i. answered_call) dropped [] spilled
      (refl, refl, refl, refl) (λ i. (kill_verdict, ask_answers, refl)) (refl, refl, refl)

down-loses : (i k : ℕ) (v : Verdict) → ¬ WinsAfter down i k v
down-loses i zero v (s, a) = cc
down-loses i (suc k) v (s, f, w) = down-loses (i + 1) k v w

down-HunterDown : HunterDown (λ i. failed_call)
down-HunterDown = (
  λ i. refl,
  λ i q. elim (Option-cases (ask failed_call q)) [
    | inl n ↦ n
    | inr (v, n) ↦ let (k, below, w) = ask-Answered failed_call q n in absurd (down-loses 0 k v w)
  ],
)

-- Two passes.
passes_while_down_example :
    let q = drain_all ((smooth, λ i. failed_call) ∷ (smooth, λ i. failed_call) ∷ []) spilled in
    Ready q.overflow (line (json_event dropped) ∷ []) × (q.queue ≡ []) × (q.metrics.events_lost ≡ 0)
passes_while_down_example =
    passes_while_down (smooth, λ i. failed_call) ((smooth, λ i. failed_call) ∷ []) spilled
      (dropped ∷ []) ((refl, refl, refl, refl), down-HunterDown)
      (((refl, refl, refl, refl), down-HunterDown), tt) (refl, refl, refl)

drain_overflow_unread_example :
    let q = drain_overflow (record smooth { opened = false }) (λ i. answered_call) spilled in
    (q.overflow.live ≡ some [])
    × (q.overflow.aside ≡ none)
    × (q.queue ≡ [])
    × (q.metrics ≡ pipeline.metrics)
drain_overflow_unread_example =
    drain_overflow_unread (record smooth { opened = false }) (λ i. answered_call) spilled
      (line dropped ∷ []) (refl, refl, refl, refl, refl) (refl, refl, refl)

failed_write_is_final_example :
    let failed = (append partial dropped pipeline.overflow).0 in
    let later = use_all (rotate_file smooth.rotation ∷ add_event whole dropped ∷ []) failed in
    (later ≡ failed)
    × ((append whole dropped later).1 ≡ true)
    × ((rotate smooth.rotation later).1 ≡ err write_failed)
failed_write_is_final_example =
    failed_write_is_final partial dropped pipeline.overflow
      (rotate_file smooth.rotation ∷ add_event whole dropped ∷ []) whole dropped smooth.rotation
      (λ e. cc)
