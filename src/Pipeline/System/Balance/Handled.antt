-- ===== src/Pipeline/System/Balance/Handled.antt =====
-- broker/internal/pipeline/pipeline.go: the reader and the workers keep the balance.
use agentic_ebpf_patrol.Prelude.{
  ℕ, ◌+◌, ◌≡◌, ap, inl, inr, Bool, List, [], ◌∷◌, Bytes, length, count, count-append, ltb,
  Bool-cases, Option-cases, Result-cases, arith, if◌then◌else◌, ℤ,
}
use agentic_ebpf_patrol.Events.{Event, decode}
use agentic_ebpf_patrol.Triage.{is_suspicious}
use agentic_ebpf_patrol.Hunter.Respond.{Host}
use agentic_ebpf_patrol.Pipeline.Log.{Write, json_event}
use agentic_ebpf_patrol.Pipeline.{Pipeline, Call, ask, handle_event, audited, count_suspicious}
use agentic_ebpf_patrol.Pipeline.System.{
  World, file_lines, spill_loss, dispatch_loss, receive_event, received, receive_raw, take_queued,
  judge_event, worker_count,
}
use agentic_ebpf_patrol.Pipeline.System.Counts.{
  HasFile, spill-queue, spill-overflow, append-count, dispatch-count, handle_raw-ok, handle_raw-err,
  handle_raw-panic, hunter_failed, evaluate-none, evaluate-some,
}
use agentic_ebpf_patrol.Pipeline.System.Balance.{Balanced}

module _ (p : Event → Bool) (kept : (e : Event) → p (json_event e) ≡ p e) (k : ℕ) where
  pub handle_event-count :
      (aw ow : Write) (ev : Event) (q : Pipeline)
      → HasFile q.overflow
      → count p (handle_event aw ow ev q).queue
          + count p (file_lines (handle_event aw ow ev q).overflow.live)
          + (if is_suspicious ev then count p (dispatch_loss ow ev q) else 0)
        ≡ count p q.queue
          + count p (file_lines q.overflow.live)
          + (if is_suspicious ev then count p (ev ∷ []) else 0)
  unfolding handle_event
  handle_event-count aw ow ev q h = elim (Bool-cases (is_suspicious ev)) [
    | inl s ↦
        rw s (omega (arith, dispatch-count p kept ow ev (count_suspicious (audited aw ev q)) h))
    | inr s ↦ rw s (omega arith)
  ]

  pub receive_event-Balanced :
      (aw ow : Write) (ev : Event) (w : World)
      → HasFile w.pipe.overflow
      → Balanced p k w
      → Balanced p k (receive_event ow ev (handle_event aw ow ev w.pipe) w)
  unfolding receive_event
  receive_event-Balanced aw ow ev w h b = elim (Bool-cases (is_suspicious ev)) [
    | inl s ↦
        let c = rw s at (handle_event-count aw ow ev w.pipe h) in
        rw s (
          omega (
            arith,
            c,
            b,
            count-append p w.accepted (ev ∷ []),
            count-append p w.reported (dispatch_loss ow ev w.pipe),
          ))
    | inr s ↦ let c = rw s at (handle_event-count aw ow ev w.pipe h) in rw s (omega (arith, c, b))
  ]

  pub receive-Balanced :
      (boot_wall : ℤ) (aw ow : Write) (raw : Bytes) (w : World)
      → HasFile w.pipe.overflow
      → Balanced p k w
      → Balanced p k (receive_raw boot_wall aw ow raw w)
  unfolding receive_raw received
  receive-Balanced boot_wall aw ow raw w h b = elim (Result-cases (decode boot_wall raw)) [
    | inl (ev, d) ↦
        rw (handle_raw-ok boot_wall aw ow raw w.pipe d, d) (receive_event-Balanced aw ow ev w h b)
    | inr (inl (x, d)) ↦ rw (handle_raw-err boot_wall aw ow raw w.pipe d, d) b
    | inr (inr d) ↦ rw (handle_raw-panic boot_wall aw ow raw w.pipe d) b
  ]

  pub take-Balanced :
      (evs : List Event) (w : World)
      → w.pipe.queue ≡ evs
      → Balanced p k w
      → Balanced p k (take_queued evs w)
  unfolding take_queued
  take-Balanced [] w e b = b
  take-Balanced (ev ∷ evs) w e b =
      elim (Bool-cases (ltb (length w.in_hand) (worker_count w.pipe.cfg.workers))) [
        | inl idle ↦ rw idle (ground (arith, ap (count p) e))
        | inr busy ↦ rw busy b
      ]

  pub judge-Balanced :
      (host : Host) (call : Call) (ev : Event) (others : List Event) (w : World)
      → HasFile w.pipe.overflow
      → count p w.in_hand ≡ count p (ev ∷ []) + count p others
      → Balanced p k w
      → Balanced p k (judge_event host call ev others w)
  unfolding judge_event
  judge-Balanced host call ev others w h c b = elim (Option-cases (ask call w.pipe)) [
    | inl n ↦
        let q = w.pipe in
        let l = call.write in
        rw
          (
            n,
            judge_event,
            evaluate-none host call ev q n,
            spill-queue l ev (hunter_failed q),
            spill-overflow l ev (hunter_failed q),
          )
          (omega (
            arith,
            b,
            c,
            append-count p kept l ev q.overflow h,
            count-append p w.reported (spill_loss l ev q.overflow),
          ))
    | inr (v, n) ↦
        let (queue, overflow) = evaluate-some host call ev w.pipe n in
        rw (n, judge_event, queue, overflow)
          (omega (arith, b, c, count-append p w.settled (ev ∷ [])))
  ]
