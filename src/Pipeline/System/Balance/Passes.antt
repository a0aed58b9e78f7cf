-- ===== src/Pipeline/System/Balance/Passes.antt =====
-- broker/internal/pipeline/pipeline.go: the passes of the replay keep the balance.
use agentic_ebpf_patrol.Prelude.{
  ℕ, ◌≡◌, inl, inr, Bool, List, [], ◌∷◌, none, count-append, Option-cases, arith,
}
use agentic_ebpf_patrol.Events.{Event}
use agentic_ebpf_patrol.Pipeline.Log.{Entry, line, torn, json_event}
use agentic_ebpf_patrol.Pipeline.{Call, ask}
use agentic_ebpf_patrol.Pipeline.Draining.{Drain, drain_begin, replay_one}
use agentic_ebpf_patrol.Pipeline.System.{
  World, lines, spill_loss, stranded, begin_pass, replay_event, replay_next, finish_pass,
}
use agentic_ebpf_patrol.Pipeline.System.Counts.{
  HasFile, pass_lines, spill-queue, spill-overflow, append-count, drain_begin-count,
  drain_begin-queue, drain_end-queue, drain_end-live,
}
use agentic_ebpf_patrol.Pipeline.System.Balance.{Balanced}

module _ (p : Event → Bool) (kept : (e : Event) → p (json_event e) ≡ p e) (k : ℕ) where
  pub begin-Balanced :
      (os : Drain) (w : World)
      → w.replaying ≡ none
      → Balanced p k w
      → Balanced p k (begin_pass os w)
  unfolding begin_pass
  begin-Balanced os w r b = elim (Option-cases (drain_begin os w.pipe).1) [
    | inl n ↦
        let c = rw n at (drain_begin-count p kept os w.pipe) in
        rw (n, begin_pass, drain_begin-queue os w.pipe, r)
          (omega (arith, c, rw r at b, count-append p w.abandoned (stranded os w.pipe.overflow)))
    | inr (es, n) ↦
        let c = rw n at (drain_begin-count p kept os w.pipe) in
        rw (n, begin_pass, drain_begin-queue os w.pipe)
          (omega (arith, c, rw r at b, count-append p w.abandoned (stranded os w.pipe.overflow)))
  ]

  pub replay-Balanced :
      (call : Call) (ev : Event) (es : List Entry) (counts : ℕ × ℕ) (w : World)
      → HasFile w.pipe.overflow
      → pass_lines w.replaying ≡ ev ∷ lines es
      → Balanced p k w
      → Balanced p k (replay_event call ev es counts w)
  unfolding replay_event replay_one
  replay-Balanced call ev es counts w h r b = elim (Option-cases (ask call w.pipe)) [
    | inl n ↦
        let l = call.write in
        rw (n, replay_event, replay_one, spill-queue l ev w.pipe, spill-overflow l ev w.pipe)
          (omega (
            arith,
            rw r at b,
            append-count p kept l ev w.pipe.overflow h,
            count-append p (ev ∷ []) (lines es),
            count-append p w.reported (spill_loss l ev w.pipe.overflow),
          ))
    | inr (v, n) ↦
        rw (n, replay_event, replay_one)
          (omega (
            arith,
            rw r at b,
            count-append p (ev ∷ []) (lines es),
            count-append p w.settled (ev ∷ []),
          ))
  ]

  pub replay_next-Balanced :
      (call : Call) (es : List Entry) (counts : ℕ × ℕ) (w : World)
      → HasFile w.pipe.overflow
      → pass_lines w.replaying ≡ lines es
      → Balanced p k w
      → Balanced p k (replay_next call es counts w)
  unfolding replay_next
  replay_next-Balanced call [] counts w h r b = b
  replay_next-Balanced call (torn ∷ es) counts w h r b = b
  replay_next-Balanced call (line ev ∷ es) counts w h r b =
      replay-Balanced call ev es counts w h r b

  pub finish-Balanced :
      (removed : Bool) (es : List Entry) (counts : ℕ × ℕ) (w : World)
      → pass_lines w.replaying ≡ lines es
      → Balanced p k w
      → Balanced p k (finish_pass removed es counts w)
  unfolding finish_pass
  finish-Balanced removed [] counts w r b =
      rw
        (
          drain_end-queue removed counts.0 counts.1 w.pipe,
          drain_end-live removed counts.0 counts.1 w.pipe,
        )
        (omega (arith, rw r at b))
  finish-Balanced removed (torn ∷ es) counts w r b =
      rw
        (
          drain_end-queue removed counts.0 counts.1 w.pipe,
          drain_end-live removed counts.0 counts.1 w.pipe,
        )
        (omega (arith, rw r at b, count-append p w.abandoned (lines es)))
  finish-Balanced removed (line ev ∷ es) counts w r b = b
