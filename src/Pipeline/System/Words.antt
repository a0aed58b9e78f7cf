-- ===== src/Pipeline/System/Words.antt =====
-- broker/internal/pipeline/metrics.go: every counter stays a 64-bit number, whatever runs.
use agentic_ebpf_patrol.Prelude.{
  ℕ, ◌<◌, ◌^◌, ◌≡◌, inl, inr, Bool, length, ltb, arith, Bool-cases, Option-cases,
}
use agentic_ebpf_patrol.Events.{Event}
use agentic_ebpf_patrol.Triage.{is_suspicious}
use agentic_ebpf_patrol.Pipeline.Log.{Write}
use agentic_ebpf_patrol.Pipeline.Counters.{Metrics}
use agentic_ebpf_patrol.Pipeline.{
  Pipeline, Call, ask, spill, dispatch, handle_event, act_on, evaluate,
}
use agentic_ebpf_patrol.Pipeline.Draining.{Drain, drain_begin, replay_one, drain_end}
use agentic_ebpf_patrol.Pipeline.System.Kept.{IsKept}

-- The counters are 64-bit numbers.
abbrev pub Words : Metrics → Type 0
Words m =
    (m.events_total < 2 ^ 64)
    × (m.suspicious_total < 2 ^ 64)
    × (m.queue_overflows < 2 ^ 64)
    × (m.hunter_errors < 2 ^ 64)
    × (m.events_lost < 2 ^ 64)
    × (m.actions_kill < 2 ^ 64)
    × (m.decode_errors < 2 ^ 64)
    × (m.overflow_replays < 2 ^ 64)

-- The capacity, and the counters.
abbrev pub Sized : ℕ → Pipeline → Type 0
Sized k q = (q.capacity ≡ k) × Words q.metrics

module _ (k : ℕ) where
  spill-Sized : (w : Write) (ev : Event) (q : Pipeline) → Sized k q → Sized k (spill w ev q)
  unfolding spill
  spill-Sized w ev q s = ground arith

  dispatch-Sized : (w : Write) (ev : Event) (q : Pipeline) → Sized k q → Sized k (dispatch w ev q)
  unfolding dispatch
  dispatch-Sized w ev q s = elim (Bool-cases (ltb (length q.queue) q.capacity)) [
    | inl room ↦ rw (room, dispatch) s
    | inr full ↦ rw (full, dispatch) (spill-Sized w ev _ (ground arith))
  ]

  event-Sized :
      (aw ow : Write) (ev : Event) (q : Pipeline) → Sized k q → Sized k (handle_event aw ow ev q)
  unfolding handle_event
  event-Sized aw ow ev q s = elim (Bool-cases (is_suspicious ev)) [
    | inl y ↦ rw (y, handle_event) (dispatch-Sized ow ev _ (ground arith))
    | inr y ↦ rw (y, handle_event) (ground arith)
  ]

  evaluate-Sized :
      (host : _) (call : Call) (ev : Event) (q : Pipeline)
      → Sized k q
      → Sized k (evaluate host call ev q).0
  unfolding evaluate act_on
  evaluate-Sized host call ev q s = elim (Option-cases (ask call q)) [
    | inl n ↦ rw (n, evaluate, act_on) (spill-Sized call.write ev _ (ground arith))
    | inr (v, n) ↦ rw (n, evaluate, act_on) (ground arith)
  ]

  replay-Sized :
      (call : Call) (ev : Event) (q : Pipeline) → Sized k q → Sized k (replay_one call ev q).0
  unfolding replay_one
  replay-Sized call ev q s = elim (Option-cases (ask call q)) [
    | inl n ↦ rw (n, replay_one) (spill-Sized call.write ev q s)
    | inr (v, n) ↦ rw (n, replay_one) s
  ]

  begin-Sized : (os : Drain) (q : Pipeline) → Sized k q → Sized k (drain_begin os q).0
  unfolding drain_begin
  begin-Sized os q s = ground arith

  end-Sized :
      (removed : Bool) (n m : ℕ) (q : Pipeline) → Sized k q → Sized k (drain_end removed n m q)
  unfolding drain_end
  end-Sized removed n m q s = ground arith

  pub Sized-IsKept : IsKept (Sized k)
  Sized-IsKept = record {
    by_event = event-Sized;
    by_short = λ q s. ground arith;
    by_take = λ evs q s. s;
    by_evaluate = evaluate-Sized;
    by_begin = begin-Sized;
    by_replay = replay-Sized;
    by_end = end-Sized;
  }
