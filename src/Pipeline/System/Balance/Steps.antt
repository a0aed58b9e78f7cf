-- ===== src/Pipeline/System/Balance/Steps.antt =====
-- broker/internal/pipeline/pipeline.go: every move keeps the balance.
use agentic_ebpf_patrol.Prelude.{ℕ, ◌≡◌, refl, ap, inl, inr, Bool, Option-cases}
use agentic_ebpf_patrol.Events.{Event}
use agentic_ebpf_patrol.Pipeline.Log.{json_event}
use agentic_ebpf_patrol.Pipeline.System.{
  World, pick, Move, receive, take_event, judge, tick, replay, finish, step,
}
use agentic_ebpf_patrol.Pipeline.System.Counts.{HasFile, pass_lines}
use agentic_ebpf_patrol.Pipeline.System.Balance.{Balanced, pick-count}
use agentic_ebpf_patrol.Pipeline.System.Balance.Handled.{
  receive-Balanced, take-Balanced, judge-Balanced,
}
use agentic_ebpf_patrol.Pipeline.System.Balance.Passes.{
  begin-Balanced, replay_next-Balanced, finish-Balanced,
}

module _ (p : Event → Bool) (kept : (e : Event) → p (json_event e) ≡ p e) (k : ℕ) where
  -- Every move keeps the balance.
  pub step-Balanced :
      (m : Move) (w : World) → HasFile w.pipe.overflow → Balanced p k w → Balanced p k (step m w)
  unfolding step
  step-Balanced (receive boot_wall aw ow raw) w h b =
      receive-Balanced p kept k boot_wall aw ow raw w h b
  step-Balanced take_event w h b = take-Balanced p kept k w.pipe.queue w refl b
  step-Balanced (judge i host call) w h b = elim (Option-cases (pick i w.in_hand)) [
    | inl n ↦ rw (n, step) b
    | inr ((ev, others), n) ↦
        rw (n, step)
          (judge-Balanced p kept k host call ev others w h (pick-count p i w.in_hand n) b)
  ]
  step-Balanced (tick os) w h b = elim (Option-cases w.replaying) [
    | inl n ↦ rw (n, step) (begin-Balanced p kept k os w n b)
    | inr (r, n) ↦ rw (n, step) b
  ]
  step-Balanced (replay call) w h b = elim (Option-cases w.replaying) [
    | inl n ↦ rw (n, step) b
    | inr (r, n) ↦
        rw (n, step)
          (replay_next-Balanced p kept k call r.entries (r.replayed, r.respilled) w h
            (ap pass_lines n) b)
  ]
  step-Balanced (finish removed) w h b = elim (Option-cases w.replaying) [
    | inl n ↦ rw (n, step) b
    | inr (r, n) ↦
        rw (n, step)
          (finish-Balanced p kept k removed r.entries (r.replayed, r.respilled) w (ap pass_lines n)
            b)
  ]
