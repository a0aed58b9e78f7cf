-- ===== src/Broker/Main/Accounts.antt =====
-- Where the suspicious records of a whole run of `main` are, up to its end.
use mathlib.Core.Path.{subst}
use mathlib.Core.Option.{none-ne-some, some-injective}
use agentic_ebpf_patrol.Prelude.{
  ℕ, ◌+◌, ◌≡◌, refl, sym, ap, ◌∙◌, inl, inr, Bool, true, List, Option, none, some, count,
  Option-cases, Bool-cases, arith,
}
use agentic_ebpf_patrol.Events.{Event}
use agentic_ebpf_patrol.Ingest
use agentic_ebpf_patrol.Ingest.{Read, OpenError}
use agentic_ebpf_patrol.Ingest.Order.{delivered, is_stopped}
use agentic_ebpf_patrol.Pipeline.Log.{Opening, json_event, new_append_log}
use agentic_ebpf_patrol.Pipeline.{Pipeline, NewResult, Config, new}
use agentic_ebpf_patrol.Pipeline.System.{World, start, run, file_lines}
use agentic_ebpf_patrol.Pipeline.Replay.Down.{json_event-json_event}
use agentic_ebpf_patrol.Pipeline.Shutdown.{
  Leaving, leaving, LeaveStep, takes, judges, worker_returns, replays, pass_ends, loop_returns,
  close_returns, begins, LeaveSteps, here, next,
}
use agentic_ebpf_patrol.Pipeline.Shutdown.Remains.{shutdown-Balanced}
use agentic_ebpf_patrol.Broker.{open_with_retry}
use agentic_ebpf_patrol.Broker.Main.{Setting, Stage, reading, closing, read_all, started, main}
use agentic_ebpf_patrol.Broker.Main.Reads.{moves_from, moves_of, run-append, read_all-moves}
use agentic_ebpf_patrol.Broker.Main.Accepted.{
  OneReader, begin_pass-accepted, finish_pass-accepted, judge_event-accepted, moves_of-accepted,
  replay_event-accepted, suspects,
}

-- The world of a stage behind `Run`.
abbrev behind_run : Stage → Option World
behind_run (Stage.no_pipeline r) = none
behind_run (Stage.no_map e w) = none
behind_run (Stage.nil_reader w) = none
behind_run (reading w) = none
behind_run (closing w) = some w

-- What it takes to come to `pl.Close()`.
read_all-closing :
    (s : Setting) (reads : List Read) (e : Option OpenError) (r : Option Ingest.Reader)
    (w w' : World)
    → read_all s reads e r w ≡ closing w'
    → run (moves_from s 0 (delivered reads)) w ≡ w'
unfolding read_all
read_all-closing s reads (some x) r w w' e = absurd (none-ne-some w' (ap behind_run e))
read_all-closing s reads none none w w' e = absurd (none-ne-some w' (ap behind_run e))
read_all-closing s reads none (some r) w w' e =
    let is = sym (read_all-moves s reads r w) ∙ e in
    elim (Bool-cases (is_stopped reads)) [
      | inl t ↦ some-injective _ _ (ap behind_run (rw t at is))
      | inr t ↦ absurd (none-ne-some w' (ap behind_run (rw t at is)))
    ]

started-closing :
    (s : Setting) (reads : List Read) (r : NewResult) (w : World)
    → started s reads r ≡ closing w
    → (q : Pipeline) × (r ≡ NewResult.created q)
      × (run (moves_of s (delivered reads)) (start q) ≡ w)
unfolding started
started-closing s reads (NewResult.created q) w e =
    let o = open_with_retry s.tries s.open_retries in
    let from : read_all s reads o.error o.reader (run s.before (start q)) ≡ closing w =
      unfold started in e in
    (
      q,
      refl,
      run-append s.before (moves_from s 0 (delivered reads)) (start q)
          ∙ read_all-closing s reads o.error o.reader (run s.before (start q)) w from,
    )
started-closing s reads (NewResult.no_audit x) w e = absurd (none-ne-some w (ap behind_run e))
started-closing s reads (NewResult.no_overflow x log) w e =
    absurd (none-ne-some w (ap behind_run e))
started-closing s reads NewResult.panicked w e = absurd (none-ne-some w (ap behind_run e))

pub main-closing :
    (s : Setting) (reads : List Read) (w : World)
    → main s reads ≡ closing w
    → (q : Pipeline) × (new s.audit_os s.overflow_os s.closes s.config ≡ NewResult.created q)
      × (run (moves_of s (delivered reads)) (start q) ≡ w)
unfolding main
main-closing s reads w e =
    started-closing s reads (new s.audit_os s.overflow_os s.closes s.config) w e

new-found :
    (audit_os overflow_os : Opening) (closes : Bool) (config : Config) {q : Pipeline}
    → new audit_os overflow_os closes config ≡ NewResult.created q
    → file_lines q.overflow.live ≡ file_lines overflow_os.found
unfolding new new_append_log
new-found audit_os overflow_os closes config e = elim (Option-cases overflow_os.found) [
  | inl n ↦ rw n (ground arith)
  | inr (es, n) ↦ rw n (ground arith)
]

-- What the shutdown of the goroutines does not change.
LeaveStep-accepted : {s t : Leaving} → LeaveStep s t → t.world.accepted ≡ s.world.accepted
LeaveStep-accepted (takes ev evs q h e) = ap (λ x. x.world.accepted) e
LeaveStep-accepted {s = s} (judges i host call ev others q e) =
    ap (λ x. x.world.accepted) e ∙ judge_event-accepted host call ev others s.world
LeaveStep-accepted (worker_returns h e) = ap (λ x. x.world.accepted) e
LeaveStep-accepted {s = s} (replays call r ev es g l e) =
    ap (λ x. x.world.accepted) e
    ∙ replay_event-accepted call ev es (r.replayed, r.respilled) s.world
LeaveStep-accepted {s = s} (pass_ends removed r g l e) =
    ap (λ x. x.world.accepted) e
    ∙ finish_pass-accepted removed r.entries (r.replayed, r.respilled) s.world
LeaveStep-accepted {s} (begins os l idle e) =
    ap (λ x. x.world.accepted) e ∙ begin_pass-accepted os s.world
LeaveStep-accepted (loop_returns l g e) = ap (λ x. x.world.accepted) e
LeaveStep-accepted (close_returns a o r l c e) = ap (λ x. x.world.accepted) e

LeaveSteps-accepted :
    {s t : Leaving} {n : ℕ} → LeaveSteps s n t → t.world.accepted ≡ s.world.accepted
LeaveSteps-accepted here = refl
LeaveSteps-accepted (next r m) = LeaveStep-accepted m ∙ LeaveSteps-accepted r

-- A test of an event as JSON leaves it.
abbrev pub after_json : (Event → Bool) → Event → Bool
after_json p e = p (json_event e)

after_json-json_event :
    (p : Event → Bool) (e : Event) → after_json p (json_event e) ≡ after_json p e
after_json-json_event p e = ap p (json_event-json_event e)

-- A whole run of the broker in which no goroutine but the reader hands over records: `main` comes to
-- `pl.Close()` and, after some moves of the goroutines, `Close` returns. Then, for every test of
-- events as JSON leaves them, as many suspicious events of the delivered records and events of the
-- overflow file at the start pass it as pass it in the queue, in the overflow file, among those the
-- hunter answered, those reported as lost, and those passed over with no count.
pub main-Balanced :
    (s : Setting) (reads : List Read) (w : World) (n : ℕ) (t : Leaving) (test : Event → Bool)
    → OneReader s
    → main s reads ≡ closing w
    → LeaveSteps (leaving w) n t
    → t.closed ≡ true
    → let p = after_json test in
      count p t.world.pipe.queue
        + count p (file_lines t.world.pipe.overflow.live)
        + count p t.world.settled
        + count p t.world.reported
        + count p t.world.abandoned
      ≡ count p (suspects s.boot_wall (delivered reads)) + count p (file_lines s.overflow_os.found)
main-Balanced s reads w n t test o e r c =
    let (q, made, ran) = main-closing s reads w e in
    let r' = subst (λ x. LeaveSteps (leaving x) n t) (sym ran) r in
    let b =
      shutdown-Balanced s.audit_os s.overflow_os s.closes s.config q (moves_of s (delivered reads))
        n t (after_json test) made (after_json-json_event test) r' c in
    let accepted =
      LeaveSteps-accepted r
      ∙ ap (λ x. x.accepted) (sym ran)
      ∙ moves_of-accepted s (delivered reads) q o in
    let found = new-found s.audit_os s.overflow_os s.closes s.config made in
    b ∙ rw (accepted, found) refl
