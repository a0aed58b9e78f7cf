-- ===== src/Pipeline/System/Kept.antt =====
-- broker/internal/pipeline/pipeline.go: what every operation on the pipeline keeps, every run keeps.
use agentic_ebpf_patrol.Prelude.{
  ℕ, ℤ, inl, inr, Bool, List, [], ◌∷◌, Bytes, length, ltb, Bool-cases, Option-cases, Result-cases,
}
use agentic_ebpf_patrol.Events.{Event, decode}
use agentic_ebpf_patrol.Triage.{is_suspicious}
use agentic_ebpf_patrol.Hunter.Respond.{Host}
use agentic_ebpf_patrol.Pipeline.Log.{Entry, line, torn, Write}
use agentic_ebpf_patrol.Pipeline.{Pipeline, Call, ask, handle_event, evaluate}
use agentic_ebpf_patrol.Pipeline.Draining.{Drain, drain_begin, replay_one, drain_end}
use agentic_ebpf_patrol.Pipeline.System.{
  World, pick, Move, receive, take_event, judge, tick, replay, finish, receive_event, received,
  receive_raw, take_queued, judge_event, begin_pass, replay_event, replay_next, finish_pass, step,
  run, worker_count,
}
use agentic_ebpf_patrol.Pipeline.System.Counts.{
  handle_raw-ok, handle_raw-err, handle_raw-panic, undecoded,
}

-- A property that each operation on the pipeline keeps.
pub record IsKept (Q : Pipeline → Type 0) : Type 0 where
  pub by_event : (aw ow : Write) (ev : Event) (q : Pipeline) → Q q → Q (handle_event aw ow ev q)
  pub by_short : (q : Pipeline) → Q q → Q (undecoded q)
  pub by_take : (evs : List Event) (q : Pipeline) → Q q → Q (record q { queue = evs })
  pub by_evaluate :
      (host : Host) (call : Call) (ev : Event) (q : Pipeline) → Q q → Q (evaluate host call ev q).0
  pub by_begin : (os : Drain) (q : Pipeline) → Q q → Q (drain_begin os q).0
  pub by_replay : (call : Call) (ev : Event) (q : Pipeline) → Q q → Q (replay_one call ev q).0
  pub by_end : (removed : Bool) (n m : ℕ) (q : Pipeline) → Q q → Q (drain_end removed n m q)

module _ (Q : Pipeline → Type 0) (kept : IsKept Q) where
  receive-kept :
      (boot_wall : ℤ) (aw ow : Write) (raw : Bytes) (w : World)
      → Q w.pipe
      → Q (receive_raw boot_wall aw ow raw w).pipe
  unfolding receive_raw received receive_event
  receive-kept boot_wall aw ow raw w s = elim (Result-cases (decode boot_wall raw)) [
    | inl (ev, d) ↦
        let s' = kept.by_event aw ow ev w.pipe s in
        elim (Bool-cases (is_suspicious ev)) [
          | inl y ↦ rw (handle_raw-ok boot_wall aw ow raw w.pipe d, d, y) s'
          | inr y ↦ rw (handle_raw-ok boot_wall aw ow raw w.pipe d, d, y) s'
        ]
    | inr (inl (x, d)) ↦
        rw (handle_raw-err boot_wall aw ow raw w.pipe d, d) (kept.by_short w.pipe s)
    | inr (inr d) ↦ rw (handle_raw-panic boot_wall aw ow raw w.pipe d) s
  ]

  take-kept : (evs : List Event) (w : World) → Q w.pipe → Q (take_queued evs w).pipe
  unfolding take_queued
  take-kept [] w s = s
  take-kept (ev ∷ evs) w s =
      elim (Bool-cases (ltb (length w.in_hand) (worker_count w.pipe.cfg.workers))) [
        | inl idle ↦ rw idle (kept.by_take evs w.pipe s)
        | inr busy ↦ rw busy s
      ]

  judge-kept :
      (host : Host) (call : Call) (ev : Event) (others : List Event) (w : World)
      → Q w.pipe
      → Q (judge_event host call ev others w).pipe
  unfolding judge_event
  judge-kept host call ev others w s =
      let s' = kept.by_evaluate host call ev w.pipe s in
      elim (Option-cases (ask call w.pipe)) [
        | inl n ↦ rw (n, judge_event) s'
        | inr (v, n) ↦ rw (n, judge_event) s'
      ]

  replay-kept :
      (call : Call) (es : List Entry) (counts : ℕ × ℕ) (w : World)
      → Q w.pipe
      → Q (replay_next call es counts w).pipe
  unfolding replay_next replay_event
  replay-kept call [] counts w s = s
  replay-kept call (torn ∷ es) counts w s = s
  replay-kept call (line ev ∷ es) counts w s =
      let s' = kept.by_replay call ev w.pipe s in
      elim (Bool-cases (replay_one call ev w.pipe).1) [
        | inl y ↦ rw (y, replay_event) s'
        | inr y ↦ rw (y, replay_event) s'
      ]

  begin-kept : (os : Drain) (w : World) → Q w.pipe → Q (begin_pass os w).pipe
  unfolding begin_pass
  begin-kept os w s =
      let s' = kept.by_begin os w.pipe s in
      elim (Option-cases (drain_begin os w.pipe).1) [
        | inl n ↦ rw (n, begin_pass) s'
        | inr (es, n) ↦ rw (n, begin_pass) s'
      ]

  finish-kept :
      (removed : Bool) (es : List Entry) (counts : ℕ × ℕ) (w : World)
      → Q w.pipe
      → Q (finish_pass removed es counts w).pipe
  unfolding finish_pass
  finish-kept removed [] counts w s = kept.by_end removed counts.0 counts.1 w.pipe s
  finish-kept removed (torn ∷ es) counts w s = kept.by_end removed counts.0 counts.1 w.pipe s
  finish-kept removed (line ev ∷ es) counts w s = s

  pub step-kept : (m : Move) (w : World) → Q w.pipe → Q (step m w).pipe
  unfolding step
  step-kept (receive boot_wall aw ow raw) w s = receive-kept boot_wall aw ow raw w s
  step-kept take_event w s = take-kept w.pipe.queue w s
  step-kept (judge i host call) w s = elim (Option-cases (pick i w.in_hand)) [
    | inl n ↦ rw (n, step) s
    | inr ((ev, others), n) ↦ rw (n, step) (judge-kept host call ev others w s)
  ]
  step-kept (tick os) w s = elim (Option-cases w.replaying) [
    | inl n ↦ rw (n, step) (begin-kept os w s)
    | inr (r, n) ↦ rw (n, step) s
  ]
  step-kept (replay call) w s = elim (Option-cases w.replaying) [
    | inl n ↦ rw (n, step) s
    | inr (r, n) ↦ rw (n, step) (replay-kept call r.entries (r.replayed, r.respilled) w s)
  ]
  step-kept (finish removed) w s = elim (Option-cases w.replaying) [
    | inl n ↦ rw (n, step) s
    | inr (r, n) ↦ rw (n, step) (finish-kept removed r.entries (r.replayed, r.respilled) w s)
  ]

  pub run-kept : (ms : List Move) (w : World) → Q w.pipe → Q (run ms w).pipe
  unfolding run
  run-kept [] w s = s
  run-kept (m ∷ ms) w s = run-kept ms (step m w) (step-kept m w s)
