-- ===== src/Pipeline/System/Invariant.antt =====
-- What holds of the pipeline after any run of moves: the bounds, and the counters' meaning.
use agentic_ebpf_patrol.Prelude.{
  ℕ, ◌≤◌, ◌≡◌, refl, sym, ap, inl, inr, Bool, true, false, List, [], ◌∷◌, Bytes, length, append-nil,
  ltb→lt, ltb, Bool-cases, Option-cases, Result-cases, arith, ℤ,
}
use agentic_ebpf_patrol.Events.{Event, decode}
use agentic_ebpf_patrol.Triage.{is_suspicious}
use agentic_ebpf_patrol.Hunter.Respond.{Host}
use agentic_ebpf_patrol.Pipeline.Log.{Entry, line, torn, Write}
use agentic_ebpf_patrol.Pipeline.{Call, ask, handle_event}
use agentic_ebpf_patrol.Pipeline.Draining.{Drain, drain_begin, replay_one}
use agentic_ebpf_patrol.Pipeline.System.{
  World, spill_loss, dispatch_loss, pick, Move, receive, take_event, judge, tick, replay, finish,
  receive_event, received, receive_raw, take_queued, judge_event, begin_pass, replay_event,
  replay_next, finish_pass, step, worker_count,
}
use agentic_ebpf_patrol.Pipeline.System.Counts.{handle_raw-ok, handle_raw-err, handle_raw-panic}
use agentic_ebpf_patrol.Pipeline.System.Counts.{drain_begin-queue, drain_end-queue}
use agentic_ebpf_patrol.Pipeline.System.Balance.{pick-length}
use agentic_ebpf_patrol.Pipeline.System.Effects.{
  handle_event-Effect, undecoded-Effect, ask_loss, evaluate-Effect, replay_one-Effect,
  drain_end-Effect, drain_begin-Effect,
}
use agentic_ebpf_patrol.Pipeline.System.Sound.{
  IsSound, carry, evaluate-queue, handle_event-bounded, replay_one-queue, same-bounded,
}

receive_event-IsSound :
    (aw ow : Write) (ev : Event) (w : World)
    → IsSound w
    → IsSound (receive_event ow ev (handle_event aw ow ev w.pipe) w)
unfolding receive_event
receive_event-IsSound aw ow ev w s = elim (Bool-cases (is_suspicious ev)) [
  | inl y ↦ rw y (
      carry {w = w} (dispatch_loss ow ev w.pipe) (ev ∷ [])
        (rw y at (handle_event-Effect aw ow ev w.pipe))
        (handle_event-bounded aw ow ev w.pipe s.queue_bounded) (omega arith) refl refl s)
  | inr y ↦ rw y (
      carry {w = w} [] [] (rw y at (handle_event-Effect aw ow ev w.pipe))
        (handle_event-bounded aw ow ev w.pipe s.queue_bounded) (omega arith)
        (sym (append-nil w.reported)) (sym (append-nil w.accepted)) s)
]

receive-IsSound :
    (boot_wall : ℤ) (aw ow : Write) (raw : Bytes) (w : World)
    → IsSound w
    → IsSound (receive_raw boot_wall aw ow raw w)
unfolding receive_raw received
receive-IsSound boot_wall aw ow raw w s = elim (Result-cases (decode boot_wall raw)) [
  | inl (ev, d) ↦
      rw (handle_raw-ok boot_wall aw ow raw w.pipe d, d) (receive_event-IsSound aw ow ev w s)
  | inr (inl (x, d)) ↦
      rw (handle_raw-err boot_wall aw ow raw w.pipe d, d)
        (carry {w = w} [] [] (undecoded-Effect w.pipe) s.queue_bounded (omega arith)
          (sym (append-nil w.reported)) (sym (append-nil w.accepted)) s)
  | inr (inr d) ↦ rw (handle_raw-panic boot_wall aw ow raw w.pipe d) s
]

take-IsSound :
    (evs : List Event) (w : World) → w.pipe.queue ≡ evs → IsSound w → IsSound (take_queued evs w)
unfolding take_queued
take-IsSound [] w e s = s
take-IsSound (ev ∷ evs) w e s =
    elim (Bool-cases (ltb (length w.in_hand) (worker_count w.pipe.cfg.workers))) [
      | inl idle ↦ rw idle (record {
        has_log = s.has_log;
        queue_bounded = omega (arith, ap length e, s.queue_bounded);
        hands_bounded = ltb→lt (length w.in_hand) (worker_count w.pipe.cfg.workers) idle;
        lost_counted = s.lost_counted;
        suspicious_counted = s.suspicious_counted;
      })
      | inr busy ↦ rw busy s
    ]

judge-IsSound :
    (host : Host) (call : Call) (ev : Event) (others : List Event) (w : World)
    → length others ≤ length w.in_hand
    → IsSound w
    → IsSound (judge_event host call ev others w)
unfolding judge_event
judge-IsSound host call ev others w h s =
    let q = w.pipe in
    let e = evaluate-Effect host call ev q in
    let b = same-bounded e (evaluate-queue host call ev q) s.queue_bounded in
    elim (Option-cases (ask call q)) [
      | inl n ↦
          let e' = rw (n, ask_loss) at e in
          rw (n, judge_event)
            (carry {w = w} (spill_loss call.write ev q.overflow) [] e' b h refl
              (sym (append-nil w.accepted)) s)
      | inr (v, n) ↦
          let e' = rw (n, ask_loss) at e in
          rw (n, judge_event)
            (carry {w = w} [] [] e' b h (sym (append-nil w.reported)) (sym (append-nil w.accepted))
              s)
    ]

replay_event-IsSound :
    (call : Call) (ev : Event) (es : List Entry) (counts : ℕ × ℕ) (w : World)
    → IsSound w
    → IsSound (replay_event call ev es counts w)
unfolding replay_event
replay_event-IsSound call ev es counts w s =
    let q = w.pipe in
    let e = replay_one-Effect call ev q in
    let b = same-bounded e (replay_one-queue call ev q) s.queue_bounded in
    elim (Option-cases (ask call q)) [
      | inl n ↦
          let done : (replay_one call ev q).1 ≡ false = unfold replay_one in rw (n, replay_one) in
          rw (done, replay_event)
            (carry {w = w} (spill_loss call.write ev q.overflow) [] (rw (n, ask_loss) at e) b
              (omega arith) refl (sym (append-nil w.accepted)) s)
      | inr (v, n) ↦
          let done : (replay_one call ev q).1 ≡ true = unfold replay_one in rw (n, replay_one) in
          rw (done, replay_event)
            (carry {w = w} [] [] (rw (n, ask_loss) at e) b (omega arith)
              (sym (append-nil w.reported)) (sym (append-nil w.accepted)) s)
    ]

replay_next-IsSound :
    (call : Call) (es : List Entry) (counts : ℕ × ℕ) (w : World)
    → IsSound w
    → IsSound (replay_next call es counts w)
unfolding replay_next
replay_next-IsSound call [] counts w s = s
replay_next-IsSound call (torn ∷ es) counts w s = s
replay_next-IsSound call (line ev ∷ es) counts w s = replay_event-IsSound call ev es counts w s

begin-IsSound : (os : Drain) (w : World) → IsSound w → IsSound (begin_pass os w)
unfolding begin_pass
begin-IsSound os w s =
    let e = drain_begin-Effect os w.pipe in
    let b = same-bounded e (drain_begin-queue os w.pipe) s.queue_bounded in
    elim (Option-cases (drain_begin os w.pipe).1) [
      | inl n ↦
          rw (n, begin_pass)
            (carry {w = w} [] [] e b (omega arith) (sym (append-nil w.reported))
              (sym (append-nil w.accepted)) s)
      | inr (es, n) ↦
          rw (n, begin_pass)
            (carry {w = w} [] [] e b (omega arith) (sym (append-nil w.reported))
              (sym (append-nil w.accepted)) s)
    ]

finish-IsSound :
    (removed : Bool) (es : List Entry) (counts : ℕ × ℕ) (w : World)
    → IsSound w
    → IsSound (finish_pass removed es counts w)
unfolding finish_pass
finish-IsSound removed [] counts w s =
    let e = drain_end-Effect removed counts.0 counts.1 w.pipe in
    let b = same-bounded e (drain_end-queue removed counts.0 counts.1 w.pipe) s.queue_bounded in
    carry {w = w} [] [] e b (omega arith) (sym (append-nil w.reported))
      (sym (append-nil w.accepted)) s
finish-IsSound removed (torn ∷ es) counts w s =
    let e = drain_end-Effect removed counts.0 counts.1 w.pipe in
    let b = same-bounded e (drain_end-queue removed counts.0 counts.1 w.pipe) s.queue_bounded in
    carry {w = w} [] [] e b (omega arith) (sym (append-nil w.reported))
      (sym (append-nil w.accepted)) s
finish-IsSound removed (line ev ∷ es) counts w s = s

-- Every move keeps the invariant.
pub step-IsSound : (m : Move) (w : World) → IsSound w → IsSound (step m w)
unfolding step
step-IsSound (receive boot_wall aw ow raw) w s = receive-IsSound boot_wall aw ow raw w s
step-IsSound take_event w s = take-IsSound w.pipe.queue w refl s
step-IsSound (judge i host call) w s = elim (Option-cases (pick i w.in_hand)) [
  | inl n ↦ rw (n, step) s
  | inr ((ev, others), n) ↦
      rw (n, step)
        (judge-IsSound host call ev others w (omega (arith, pick-length i w.in_hand n)) s)
]
step-IsSound (tick os) w s = elim (Option-cases w.replaying) [
  | inl n ↦ rw (n, step) (begin-IsSound os w s)
  | inr (r, n) ↦ rw (n, step) s
]
step-IsSound (replay call) w s = elim (Option-cases w.replaying) [
  | inl n ↦ rw (n, step) s
  | inr (r, n) ↦ rw (n, step) (replay_next-IsSound call r.entries (r.replayed, r.respilled) w s)
]
step-IsSound (finish removed) w s = elim (Option-cases w.replaying) [
  | inl n ↦ rw (n, step) s
  | inr (r, n) ↦ rw (n, step) (finish-IsSound removed r.entries (r.replayed, r.respilled) w s)
]
