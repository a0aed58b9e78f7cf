-- ===== src/Pipeline/System/Balance.antt =====
-- broker/internal/pipeline/pipeline.go: the places of the accepted events, and how moves change them.
pub mod Handled
pub mod Passes
pub mod Steps
use agentic_ebpf_patrol.Prelude.{
  ℕ, zero, suc, ◌+◌, ◌≡◌, refl, ap, inl, inr, Bool, List, [], ◌∷◌, Option, none, some, Bytes,
  length, count, count-append, ltb, Bool-cases, Option-cases, Result-cases, arith, if◌then◌else◌, ℤ,
}
use agentic_ebpf_patrol.Events.{Event, decode}
use agentic_ebpf_patrol.Triage.{is_suspicious}
use agentic_ebpf_patrol.Hunter.Respond.{Host}
use agentic_ebpf_patrol.Pipeline.Log.{Entry, line, torn, Write, json_event}
use agentic_ebpf_patrol.Pipeline.{Pipeline, Call, ask, handle_event, audited, count_suspicious}
use agentic_ebpf_patrol.Pipeline.Draining.{Drain, drain_begin, replay_one}
use agentic_ebpf_patrol.Pipeline.System.{
  World, lines, file_lines, spill_loss, dispatch_loss, stranded, pick, Move, receive, take_event,
  judge, tick, replay, finish, receive_event, received, receive_raw, take_queued, judge_event,
  begin_pass, replay_event, replay_next, finish_pass, step, worker_count,
}
use agentic_ebpf_patrol.Pipeline.System.Counts.{
  HasFile, pass_lines, spill-queue, spill-overflow, append-count, dispatch-count, drain_begin-count,
  drain_begin-queue, drain_end-queue, drain_end-live, handle_raw-ok, handle_raw-err,
  handle_raw-panic, hunter_failed, evaluate-none, evaluate-some,
}

pub some_pair :
    {a b : Event} {xs ys : List Event}
    → ◌≡◌ {A = Option (Event × List Event)} (some (a, xs)) (some (b, ys))
    → (a ≡ b) × (xs ≡ ys)
some_pair e = (cc, cc)

pub pick-length :
    (i : ℕ) (evs : List Event) {ev : Event} {others : List Event}
    → pick i evs ≡ some (ev, others)
    → length evs ≡ suc (length others)
unfolding pick
pick-length i [] e = cc
pick-length zero (x ∷ evs) e = ground (arith, some_pair e)
pick-length (suc i) (x ∷ evs) e = elim (Option-cases (pick i evs)) [
  | inl n ↦ cc (rw (n, pick) at e)
  | inr ((y, rest), n) ↦
      let e' = rw (n, pick) at e in ground (arith, pick-length i evs n, some_pair e')
]

-- The events in all the places where an event can be, as far as they pass a test.
abbrev pub held : (Event → Bool) → World → ℕ
held p w =
    count p w.pipe.queue
    + count p w.in_hand
    + count p (file_lines w.pipe.overflow.live)
    + count p (pass_lines w.replaying)
    + count p w.settled
    + count p w.reported
    + count p w.abandoned

-- Every accepted event is in one place, and beside them `k` events from an earlier run are.
abbrev pub Balanced : (Event → Bool) → ℕ → World → Type 0
Balanced p k w = held p w ≡ count p w.accepted + k

pub pick-count :
    (p : Event → Bool) (i : ℕ) (evs : List Event) {ev : Event} {others : List Event}
    → pick i evs ≡ some (ev, others)
    → count p evs ≡ count p (ev ∷ []) + count p others
unfolding pick
pick-count p i [] e = cc
pick-count p zero (x ∷ evs) e = ground (arith, some_pair e)
pick-count p (suc i) (x ∷ evs) e = elim (Option-cases (pick i evs)) [
  | inl n ↦ cc (rw (n, pick) at e)
  | inr ((y, rest), n) ↦
      let e' = rw (n, pick) at e in ground (arith, pick-count p i evs n, some_pair e')
]
