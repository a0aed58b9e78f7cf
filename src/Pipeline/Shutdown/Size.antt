-- ===== src/Pipeline/Shutdown/Size.antt =====
-- broker/internal/pipeline/pipeline.go: what a move of the shutdown does to the sizes.
use agentic_ebpf_patrol.Prelude.{
  ℕ, ◌+◌, ◌-◌, ◌≤◌, ◌≡◌, inl, inr, refl, ap, Bool, List, [], ◌∷◌, Option, none, some, length,
  length-append, Option-cases, arith,
}
use agentic_ebpf_patrol.Events.{Event}
use agentic_ebpf_patrol.Hunter.Respond.{Host}
use agentic_ebpf_patrol.Pipeline.Log.{
  Entry, line, torn, AppendLog, Write, whole, nothing, partial, written, append, rotate, reopen,
  close, json_event,
}
use agentic_ebpf_patrol.Pipeline.{Pipeline, Call, ask, close_logs}
use agentic_ebpf_patrol.Pipeline.Draining.{Drain, content, drain_begin, replay_one}
use agentic_ebpf_patrol.Pipeline.System.{
  Replaying, World, begin_pass, judge_event, replay_event, finish_pass,
}
use agentic_ebpf_patrol.Pipeline.System.Counts.{
  drain_end-queue, drain_end-live, drain_begin-queue, spill-overflow, hunter_failed, evaluate-none,
  evaluate-some, replay_path-ne-nil,
}
use agentic_ebpf_patrol.Pipeline.System.Sound.{evaluate-queue, replay_one-queue}
use agentic_ebpf_patrol.Pipeline.Shutdown.{CanEnd}

abbrev pub pass_length : Option Replaying → ℕ
pass_length none = 0
pass_length (some r) = length r.entries + 1

-- The size of a world, as the measures see it: the file has at most so many lines.
abbrev pub Shape : World → ℕ → ℕ → ℕ → ℕ → Type 0
Shape w queued held pass filed =
    (length w.pipe.queue ≡ queued)
    × (length w.in_hand ≡ held)
    × (pass_length w.replaying ≡ pass)
    × (length (content w.pipe.overflow.live) ≤ filed)

written-length :
    (w : Write) (ev : Event) (file : Option (List Entry))
    → length (content (written w ev file)) ≤ length (content file) + 1
written-length whole ev none = omega arith
written-length whole ev (some es) = omega (arith, length-append es (line (json_event ev) ∷ []))
written-length nothing ev file = omega arith
written-length partial ev none = omega arith
written-length partial ev (some es) = omega (arith, length-append es (torn ∷ []))

append-length :
    (w : Write) (ev : Event) (log : AppendLog)
    → length (content (append w ev log).0.live) ≤ length (content log.live) + 1
unfolding append
append-length w ev log = ground (arith, written-length w ev log.live)

pub judge-Shape :
    (w : World) (host : Host) (call : Call) (ev : Event) (others : List Event)
    → Shape
        (judge_event host call ev others w)
        (length w.pipe.queue)
        (length others)
        (pass_length w.replaying)
        (length (content w.pipe.overflow.live) + 1)
unfolding judge_event
judge-Shape w host call ev others =
    let q = ap length (evaluate-queue host call ev w.pipe) in
    elim (Option-cases (ask call w.pipe)) [
      | inl n ↦
          let grown = append-length call.write ev w.pipe.overflow in
          let log = spill-overflow call.write ev (hunter_failed w.pipe) in
          rw (n, judge_event) (q, refl, refl, rw (evaluate-none host call ev w.pipe n, log) grown)
      | inr (v, n) ↦
          rw (n, judge_event)
            (q, refl, refl, rw ((evaluate-some host call ev w.pipe n).1) (omega arith))
    ]

pub replay-Shape :
    (w : World) (call : Call) (ev : Event) (es : List Entry) (counts : ℕ × ℕ)
    → Shape
        (replay_event call ev es counts w)
        (length w.pipe.queue)
        (length w.in_hand)
        (length es + 1)
        (length (content w.pipe.overflow.live) + 1)
unfolding replay_event replay_one
replay-Shape w call ev es counts =
    let q = ap length (replay_one-queue call ev w.pipe) in
    elim (Option-cases (ask call w.pipe)) [
      | inl n ↦
          let grown = append-length call.write ev w.pipe.overflow in
          rw (n, replay_event, replay_one)
            (rw (n, replay_one) at q, refl, refl, rw (spill-overflow call.write ev w.pipe) grown)
      | inr (v, n) ↦ rw (n, replay_event, replay_one) (refl, refl, refl, omega arith)
    ]

pub finish-Shape :
    (w : World) (removed : Bool) (es : List Entry) (counts : ℕ × ℕ)
    → CanEnd es
    → Shape
        (finish_pass removed es counts w)
        (length w.pipe.queue)
        (length w.in_hand)
        0
        (length (content w.pipe.overflow.live))
unfolding finish_pass
finish-Shape w removed [] counts c = (
  ap length (drain_end-queue removed counts.0 counts.1 w.pipe),
  refl,
  refl,
  rw (drain_end-live removed counts.0 counts.1 w.pipe) (omega arith),
)
finish-Shape w removed (torn ∷ es) counts c = (
  ap length (drain_end-queue removed counts.0 counts.1 w.pipe),
  refl,
  refl,
  rw (drain_end-live removed counts.0 counts.1 w.pipe) (omega arith),
)
finish-Shape w removed (line ev ∷ es) counts c = absurd c

drain_begin-length :
    (os : Drain) (q : Pipeline)
    → length (content (drain_begin os q).0.overflow.live) + length (content (drain_begin os q).1)
      ≤ length (content q.overflow.live)
unfolding drain_begin rotate reopen
drain_begin-length os q = ground (arith, replay_path-ne-nil q.overflow.path)

-- The lines of a pass that begins come out of the file.
pub begin-Shape :
    (w : World) (os : Drain)
    → w.replaying ≡ none
    → (length (begin_pass os w).pipe.queue ≡ length w.pipe.queue)
      × ((begin_pass os w).in_hand ≡ w.in_hand)
      × (length (content (begin_pass os w).pipe.overflow.live)
            + (pass_length (begin_pass os w).replaying - 1)
          ≤ length (content w.pipe.overflow.live))
unfolding begin_pass
begin-Shape w os idle =
    let q = ap length (drain_begin-queue os w.pipe) in
    let cut = drain_begin-length os w.pipe in
    elim (Option-cases (drain_begin os w.pipe).1) [
      | inl n ↦ rw (n, begin_pass, idle) (q, refl, omega (arith, rw n at cut))
      | inr (es, n) ↦ rw (n, begin_pass) (q, refl, omega (arith, rw n at cut))
    ]

pub close-Shape :
    (w : World) (a o : Bool)
    → Shape
        (record w { pipe = (close_logs a o w.pipe).0 })
        (length w.pipe.queue)
        (length w.in_hand)
        (pass_length w.replaying)
        (length (content w.pipe.overflow.live))
unfolding close_logs close
close-Shape w a o = (refl, refl, refl, ground arith)
