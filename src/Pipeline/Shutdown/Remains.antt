-- ===== src/Pipeline/Shutdown/Remains.antt =====
-- broker/internal/pipeline/pipeline.go: where the accepted events are after a shutdown.
use mathlib.Core.Path.{subst}
use mathlib.Core.Bool.{false≢true}
use agentic_ebpf_patrol.Prelude.{
  ℕ, zero, suc, ◌+◌, ◌-◌, ◌≡◌, inl, inr, refl, sym, ap, ◌∙◌, Bool, true, false, List, [], ◌∷◌, none,
  length, count, Option-cases, arith,
}
use agentic_ebpf_patrol.Events.{Event}
use agentic_ebpf_patrol.Hunter.Respond.{Host}
use agentic_ebpf_patrol.Pipeline.Log.{Entry, line, torn, Opening, json_event, close}
use agentic_ebpf_patrol.Pipeline.{Config, NewResult, new, Pipeline, Call, ask, close_logs}
use agentic_ebpf_patrol.Pipeline.Draining.{Drain, drain_begin, replay_one}
use agentic_ebpf_patrol.Pipeline.System.{
  worker_count, World, Move, file_lines, lines, begin_pass, judge_event, replay_event, finish_pass,
  start, run,
}
use agentic_ebpf_patrol.Pipeline.System.Counts.{
  HasFile, pass_lines, append-HasFile, spill-overflow, drain_end-live, drain_end-is_open,
  evaluate-none, evaluate-some, hunter_failed,
}
use agentic_ebpf_patrol.Pipeline.System.Balance.Handled.{judge-Balanced}
use agentic_ebpf_patrol.Pipeline.System.Balance.Passes.{
  begin-Balanced, replay-Balanced, finish-Balanced,
}
use agentic_ebpf_patrol.Pipeline.System.Balance.{Balanced, pick-count}
use agentic_ebpf_patrol.Pipeline.System.Effects.{drain_begin-Effect}
use agentic_ebpf_patrol.Pipeline.System.Conservation.{run_from_new-Balanced, run_from_new-IsSound}
use agentic_ebpf_patrol.Pipeline.Shutdown.{
  Leaving, leaving, LeaveStep, takes, judges, worker_returns, replays, pass_ends, loop_returns,
  close_returns, begins, LeaveSteps, here, next,
}
use agentic_ebpf_patrol.Pipeline.Shutdown.Ends.{
  closed-HasLeft, leaving-IsOrderly, LeaveSteps-IsOrderly,
}

abbrev Logged : World → Type 0
Logged w = HasFile w.pipe.overflow

judge-Logged :
    (w : World) (host : Host) (call : Call) (ev : Event) (others : List Event)
    → Logged w
    → Logged (judge_event host call ev others w)
unfolding judge_event
judge-Logged w host call ev others h = elim (Option-cases (ask call w.pipe)) [
  | inl n ↦
      rw
        (
          n,
          judge_event,
          evaluate-none host call ev w.pipe n,
          spill-overflow call.write ev (hunter_failed w.pipe),
        )
        (append-HasFile call.write ev w.pipe.overflow h)
  | inr (v, n) ↦ rw (n, judge_event, (evaluate-some host call ev w.pipe n).1) h
]

replay-Logged :
    (w : World) (call : Call) (ev : Event) (es : List Entry) (counts : ℕ × ℕ)
    → Logged w
    → Logged (replay_event call ev es counts w)
unfolding replay_event replay_one
replay-Logged w call ev es counts h = elim (Option-cases (ask call w.pipe)) [
  | inl n ↦
      rw (n, replay_event, replay_one, spill-overflow call.write ev w.pipe)
        (append-HasFile call.write ev w.pipe.overflow h)
  | inr (v, n) ↦ rw (n, replay_event, replay_one) h
]

finish-Logged :
    (w : World) (removed : Bool) (es : List Entry) (counts : ℕ × ℕ)
    → Logged w
    → Logged (finish_pass removed es counts w)
unfolding finish_pass
finish-Logged w removed [] counts h =
    rw
      (
        drain_end-live removed counts.0 counts.1 w.pipe,
        drain_end-is_open removed counts.0 counts.1 w.pipe,
      )
      h
finish-Logged w removed (torn ∷ es) counts h =
    rw
      (
        drain_end-live removed counts.0 counts.1 w.pipe,
        drain_end-is_open removed counts.0 counts.1 w.pipe,
      )
      h
finish-Logged w removed (line ev ∷ es) counts h = h

begin-Logged : (w : World) (os : Drain) → Logged w → Logged (begin_pass os w)
unfolding begin_pass
begin-Logged w os h =
    let kept = (drain_begin-Effect os w.pipe).keeps_file h in
    elim (Option-cases (drain_begin os w.pipe).1) [
      | inl n ↦ rw (n, begin_pass) kept
      | inr (es, n) ↦ rw (n, begin_pass) kept
    ]

close-kept :
    (a o : Bool) (q : Pipeline)
    → ((close_logs a o q).0.overflow.live ≡ q.overflow.live)
      × ((close_logs a o q).0.overflow.is_open ≡ false)
      × ((close_logs a o q).0.metrics ≡ q.metrics)
      × ((close_logs a o q).0.queue ≡ q.queue)
unfolding close_logs close
close-kept a o q = (ground arith, ground arith, refl, refl)

module _ (p : Event → Bool) (kept : (e : Event) → p (json_event e) ≡ p e) (k : ℕ) where
  -- A world whose log has its file and whose events are all in their places.
  abbrev InPlace : Leaving → Type 0
  InPlace s = Logged s.world × Balanced p k s.world

  LeaveStep-InPlace : {s t : Leaving} → LeaveStep s t → InPlace s → InPlace t
  LeaveStep-InPlace (takes ev evs e h u) (l, b) =
      subst InPlace (sym u) (l, ground (arith, ap (count p) e))
  LeaveStep-InPlace {s} (judges i host call ev others e u) (h, b) = subst InPlace (sym u) (
    judge-Logged s.world host call ev others h,
    judge-Balanced p kept k host call ev others s.world h (pick-count p i s.world.in_hand e) b,
  )
  LeaveStep-InPlace (worker_returns h u) b = subst InPlace (sym u) b
  LeaveStep-InPlace {s} (replays call r ev es e l u) (h, b) = subst InPlace (sym u) (
    replay-Logged s.world call ev es (r.replayed, r.respilled) h,
    replay-Balanced p kept k call ev es (r.replayed, r.respilled) s.world h
        (ap pass_lines e ∙ ap lines l) b,
  )
  LeaveStep-InPlace {s} (pass_ends removed r e c u) (h, b) = subst InPlace (sym u) (
    finish-Logged s.world removed r.entries (r.replayed, r.respilled) h,
    finish-Balanced p kept k removed r.entries (r.replayed, r.respilled) s.world (ap pass_lines e)
        b,
  )
  LeaveStep-InPlace {s} (begins os l idle u) (h, b) =
      subst InPlace (sym u) (begin-Logged s.world os h, begin-Balanced p kept k os s.world idle b)
  LeaveStep-InPlace (loop_returns l e u) b = subst InPlace (sym u) b
  LeaveStep-InPlace {s} (close_returns a o n l c u) (h, b) =
      let (live, shut, counters, queue) = close-kept a o s.world.pipe in
      subst InPlace (sym u) (
        λ x. absurd (false≢true (sym shut ∙ x)),
        omega (arith, b, ap (count p) queue, ap (λ f. count p (file_lines f)) live),
      )

  LeaveSteps-InPlace : {s t : Leaving} {n : ℕ} → LeaveSteps s n t → InPlace s → InPlace t
  LeaveSteps-InPlace here b = b
  LeaveSteps-InPlace (next r m) b = LeaveStep-InPlace m (LeaveSteps-InPlace r b)

-- From a pipeline as `New` returns it, after any run, a cancellation, and any moves until `Close` has
-- returned, and for every test of events that JSON does not change: as many events that pass the test
-- were accepted, or stood in the overflow file at the start, as pass it in the queue, in the overflow
-- file, among those the hunter answered, those reported as lost, and those passed over with no count.
pub shutdown-Balanced :
    (audit_os overflow_os : Opening) (closes : Bool) (config : Config) (q : Pipeline)
    (ms : List Move) (n : ℕ) (t : Leaving) (p : Event → Bool)
    → new audit_os overflow_os closes config ≡ NewResult.created q
    → ((e : Event) → p (json_event e) ≡ p e)
    → LeaveSteps (leaving (run ms (start q))) n t
    → t.closed ≡ true
    → count p t.world.pipe.queue
        + count p (file_lines t.world.pipe.overflow.live)
        + count p t.world.settled
        + count p t.world.reported
        + count p t.world.abandoned
      ≡ count p t.world.accepted + count p (file_lines q.overflow.live)
shutdown-Balanced audit_os overflow_os closes config q ms n t p e kept r c =
    let s = run_from_new-IsSound audit_os overflow_os closes config q ms e in
    let b = run_from_new-Balanced audit_os overflow_os closes config q ms p e kept in
    let (_, placed) =
      LeaveSteps-InPlace p kept (count p (file_lines q.overflow.live)) r (s.has_log, b) in
    let (_, _, _, hands, pass) = closed-HasLeft (LeaveSteps-IsOrderly r (leaving-IsOrderly s)) c in
    omega (arith, placed, ap (count p) hands, ap (λ x. count p (pass_lines x)) pass)

-- What a shutdown leaves as it was.
abbrev pub Untouched : World → World → Type 0
Untouched w w' =
    (w'.pipe.queue ≡ w.pipe.queue)
    × (w'.pipe.overflow.live ≡ w.pipe.overflow.live)
    × (w'.pipe.metrics ≡ w.pipe.metrics)

-- `n` workers and the loop have not returned.
abbrev with_running : World → ℕ → Leaving
with_running w n = record { world = w; running = n; loop_runs = true; begun = 0; closed = false }

-- `k` workers return, one by one.
workers_return :
    (w : World) (k m n : ℕ)
    → w.in_hand ≡ []
    → m ≡ k + n
    → LeaveSteps (with_running w m) k (with_running w n)
workers_return w zero m n h e =
    let same : m ≡ n = omega arith in
    subst (λ x. LeaveSteps (with_running w m) 0 (with_running w x)) same here
workers_return w (suc k) m n h e =
    let less : n ≡ suc n - 1 = omega arith in
    next (workers_return w k m (suc n) h (omega arith))
      (worker_returns (omega (arith, ap length h)) (ap (with_running w) less))

-- From every state with no event in hand and no pass under way, a shutdown is possible in which
-- `Close` returns, and the queue is as it was, with no event of it written to the overflow file and
-- none counted.
pub shutdown-strands :
    (w : World)
    → w.in_hand ≡ []
    → w.replaying ≡ none
    → (n : ℕ) × (t : Leaving) × LeaveSteps (leaving w) n t × (t.closed ≡ true) × Untouched w t.world
shutdown-strands w h e =
    let workers = worker_count w.pipe.cfg.workers in
    let (live, shut, counters, queue) = close-kept true true w.pipe in
    let returned = workers_return w workers workers 0 h (omega arith) in
    (
      suc (suc workers),
      _,
      next (next returned (loop_returns refl e refl)) (close_returns true true refl refl refl refl),
      refl,
      (queue, live, counters),
    )
