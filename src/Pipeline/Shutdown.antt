-- ===== src/Pipeline/Shutdown.antt =====
-- broker/internal/pipeline/pipeline.go from the cancellation on: the reader has stopped, so nothing is
-- received any more; a worker that waits may return or take another event, the replay loop may return
-- or start another pass, and `Close` goes on once all have returned.
pub mod Size
pub mod Work
pub mod Ends
pub mod Remains
use agentic_ebpf_patrol.Prelude.{
  ℕ, suc, ◌+◌, ◌+◌, ◌-◌, ◌*◌, ◌<◌, ◌≤◌, ◌≡◌, ◌⊎◌, Bool, true, false, List, [], ◌∷◌, Option, none,
  some, length, if◌then◌else◌,
}
use agentic_ebpf_patrol.Events.{Event}
use agentic_ebpf_patrol.Hunter.Respond.{Host}
use agentic_ebpf_patrol.Pipeline.Log.{Entry, line, torn}
use agentic_ebpf_patrol.Pipeline.{Call, close_logs}
use agentic_ebpf_patrol.Pipeline.Draining.{Drain}
use agentic_ebpf_patrol.Pipeline.System.{
  Replaying, World, pick, begin_pass, judge_event, replay_event, finish_pass, worker_count,
}

-- `running` workers have not returned; the replay loop may have, and has begun `begun` passes since
-- the cancellation; `closed` says that `Close` has come past `wg.Wait()` and has closed the logs.
pub record Leaving : Type 0 where
  pub world : World
  pub running : ℕ
  pub loop_runs : Bool
  pub begun : ℕ
  pub closed : Bool

-- The moment of the cancellation.
abbrev pub leaving : World → Leaving
leaving w = record {
  world = w;
  running = worker_count w.pipe.cfg.workers;
  loop_runs = true;
  begun = 0;
  closed = false;
}

-- What is left of a pass when it can end: nothing, or a line that does not decode.
abbrev pub CanEnd : List Entry → Type 0
CanEnd [] = Unit {0}
CanEnd (torn ∷ es) = Unit {0}
CanEnd (line ev ∷ es) = ⊥

-- One move after the cancellation. In `worker` and in `replayLoop`, `select` takes either case if both
-- are ready.
pub data LeaveStep (s t : Leaving) : Type 0 where
  takes :
      (ev : Event) (evs : List Event)
      → s.world.pipe.queue ≡ ev ∷ evs
      → length s.world.in_hand < s.running
      → t ≡ record s {
        world = record (s.world) {
          pipe = record (s.world.pipe) { queue = evs };
          in_hand = ev ∷ s.world.in_hand;
        };
      }
      → LeaveStep s t
  judges :
      (i : ℕ) (host : Host) (call : Call) (ev : Event) (others : List Event)
      → pick i s.world.in_hand ≡ some (ev, others)
      → t ≡ record s { world = judge_event host call ev others s.world }
      → LeaveStep s t
  worker_returns :
      length s.world.in_hand < s.running → t ≡ record s { running = s.running - 1 } → LeaveStep s t
  replays :
      (call : Call) (r : Replaying) (ev : Event) (es : List Entry)
      → s.world.replaying ≡ some r
      → r.entries ≡ line ev ∷ es
      → t ≡ record s { world = replay_event call ev es (r.replayed, r.respilled) s.world }
      → LeaveStep s t
  pass_ends :
      (removed : Bool) (r : Replaying)
      → s.world.replaying ≡ some r
      → CanEnd r.entries
      → t ≡ record s { world = finish_pass removed r.entries (r.replayed, r.respilled) s.world }
      → LeaveStep s t
  begins :
      (os : Drain)
      → s.loop_runs ≡ true
      → s.world.replaying ≡ none
      → t ≡ record s { world = begin_pass os s.world; begun = s.begun + 1 }
      → LeaveStep s t
  loop_returns :
      s.loop_runs ≡ true
      → s.world.replaying ≡ none
      → t ≡ record s { loop_runs = false }
      → LeaveStep s t
  close_returns :
      (audit_closes overflow_closes : Bool)
      → s.running ≡ 0
      → s.loop_runs ≡ false
      → s.closed ≡ false
      → t ≡ record s {
        world = record (s.world) {
          pipe = (close_logs audit_closes overflow_closes s.world.pipe).0;
        };
        closed = true;
      }
      → LeaveStep s t

-- So many moves.
pub data LeaveSteps (s : Leaving) : ℕ → Leaving → Type 0 where
  here : LeaveSteps s 0 s
  next : {n : ℕ} {t u : Leaving} → LeaveSteps s n t → LeaveStep t u → LeaveSteps s (suc n) u
