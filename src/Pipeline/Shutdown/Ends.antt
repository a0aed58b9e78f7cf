-- ===== src/Pipeline/Shutdown/Ends.antt =====
-- broker/internal/pipeline/pipeline.go: how long a shutdown can take, and how it ends.
use agentic_ebpf_patrol.Prelude.{
  ◌+◌, ℕ, zero, suc, ◌≤◌, ◌*◌, ◌≡◌, ◌≢◌, inl, inr, refl, sym, ap, ◌∙◌, Bool, true, false, List, [],
  ◌∷◌, Option, none, some, length, Bool-cases, Option-cases, arith,
}
use mathlib.Core.Path.{subst}
use mathlib.Core.Bool.{false≢true}
use agentic_ebpf_patrol.Events.{Event}
use agentic_ebpf_patrol.Hunter.Client.{Wake, Reply}
use agentic_ebpf_patrol.Hunter.Respond.{Host}
use agentic_ebpf_patrol.Pipeline.Log.{Opening, Entry, line, torn, Write}
use agentic_ebpf_patrol.Pipeline.{Config, NewResult, new, Pipeline, Call}
use agentic_ebpf_patrol.Pipeline.System.{Replaying, World, Move, start, run, pick}
use agentic_ebpf_patrol.Pipeline.System.Balance.{pick-length}
use agentic_ebpf_patrol.Pipeline.System.Conservation.{run_from_new-IsSound}
use agentic_ebpf_patrol.Pipeline.System.Sound.{IsSound}
use agentic_ebpf_patrol.Pipeline.Shutdown.{
  Leaving, leaving, CanEnd, LeaveStep, takes, judges, worker_returns, replays, pass_ends,
  loop_returns, close_returns, begins, LeaveSteps, here, next,
}
use agentic_ebpf_patrol.Pipeline.Shutdown.Size.{
  begin-Shape, finish-Shape, judge-Shape, pass_length, replay-Shape,
}
use agentic_ebpf_patrol.Pipeline.Shutdown.Work.{IsOrderly, backlog, LeaveSteps-bounded, work_left}

pass_none : (r : Option Replaying) → pass_length r ≡ 0 → r ≡ none
pass_none none e = refl
pass_none (some r) e = absurd (omega arith)

some_pass : (r : Replaying) → ◌≢◌ {A = Option Replaying} (some r) none
some_pass r e = cc

empty_of_length : (evs : List Event) → length evs ≤ 0 → evs ≡ []
empty_of_length [] h = refl
empty_of_length (ev ∷ evs) h = absurd (omega arith)

LeaveStep-IsOrderly : {s t : Leaving} → LeaveStep s t → IsOrderly s → IsOrderly t
LeaveStep-IsOrderly (takes ev evs e h u) v =
    subst IsOrderly (sym u) (record { hands = omega arith; pass = v.pass; last = v.last })
LeaveStep-IsOrderly {s} (judges i host call ev others e u) v =
    let (q, h, p, f) = judge-Shape s.world host call ev others in
    subst IsOrderly (sym u) (record {
      hands = omega (arith, v.hands, h, pick-length i s.world.in_hand e);
      pass = λ l. pass_none _ (p ∙ ap pass_length (v.pass l));
      last = v.last;
    })
LeaveStep-IsOrderly (worker_returns h u) v = subst IsOrderly (sym u) (record {
  hands = omega arith;
  pass = v.pass;
  last = λ c. let (n, l) = v.last c in (omega arith, l);
})
LeaveStep-IsOrderly {s} (replays call r ev es e l u) v =
    let (q, h, p, f) = replay-Shape s.world call ev es (r.replayed, r.respilled) in
    subst IsOrderly (sym u) (record {
      hands = omega (arith, v.hands, h);
      pass = λ x. absurd (some_pass r (sym e ∙ v.pass x));
      last = v.last;
    })
LeaveStep-IsOrderly {s} (pass_ends removed r e c u) v =
    let (q, h, p, f) = finish-Shape s.world removed r.entries (r.replayed, r.respilled) c in
    subst IsOrderly (sym u)
      (record { hands = omega (arith, v.hands, h); pass = λ l. pass_none _ p; last = v.last })
LeaveStep-IsOrderly {s} (begins os l idle u) v =
    let (q, h, f) = begin-Shape s.world os idle in
    subst IsOrderly (sym u) (record {
      hands = omega (arith, v.hands, ap length h);
      pass = λ x. absurd (false≢true (sym x ∙ l));
      last = v.last;
    })
LeaveStep-IsOrderly (loop_returns l e u) v =
    subst IsOrderly (sym u)
      (record { hands = v.hands; pass = λ _. e; last = λ c. let (n, x) = v.last c in (n, refl) })
LeaveStep-IsOrderly {s} (close_returns a o n l c u) v =
    subst IsOrderly (sym u) (record { hands = v.hands; pass = v.pass; last = λ _. (n, l) })

pub LeaveSteps-IsOrderly : {s t : Leaving} {n : ℕ} → LeaveSteps s n t → IsOrderly s → IsOrderly t
LeaveSteps-IsOrderly here v = v
LeaveSteps-IsOrderly (next r m) v = LeaveStep-IsOrderly m (LeaveSteps-IsOrderly r v)

-- Some answers of the system, to name a move.
abbrev any_host : Host
any_host = record { read_comm = λ pid. none; deliver = λ pid. false }

abbrev any_call : Call
any_call = record {
  body = none;
  around = record { wake = λ i. Wake.elapsed; reply = λ i. Reply.no_response };
  write = Write.whole;
}

-- A pass under way can go on.
pass_progress :
    (s : Leaving) (r : Replaying) (es : List Entry)
    → s.world.replaying ≡ some r
    → r.entries ≡ es
    → (t : Leaving) × LeaveStep s t
pass_progress s r [] e l = (_, pass_ends true r e (subst CanEnd (sym l) tt) refl)
pass_progress s r (torn ∷ es) e l = (_, pass_ends true r e (subst CanEnd (sym l) tt) refl)
pass_progress s r (line ev ∷ es) e l = (_, replays any_call r ev es e l refl)

-- The replay loop can return or go on, and behind it `Close`.
loop_progress : (s : Leaving) → s.running ≡ 0 → s.closed ≡ false → (t : Leaving) × LeaveStep s t
loop_progress s n c = elim (Bool-cases s.loop_runs) [
  | inr l ↦ (_, close_returns true true n l c refl)
  | inl l ↦ elim (Option-cases s.world.replaying) [
    | inl e ↦ (_, loop_returns l e refl)
    | inr (r, e) ↦ pass_progress s r r.entries e refl
  ]
]

-- As long as `Close` has not returned, some goroutine can go on.
progress :
    (s : Leaving) (hands : List Event) (n : ℕ)
    → s.world.in_hand ≡ hands
    → s.running ≡ n
    → s.closed ≡ false
    → (t : Leaving) × LeaveStep s t
progress s (ev ∷ others) n h r c =
    (_, judges 0 any_host any_call ev others (rw h (unfold pick in refl)) refl)
progress s [] zero h r c = loop_progress s r c
progress s [] (suc n) h r c = (_, worker_returns (omega (arith, ap length h)) refl)

-- What it means that `Close` has returned.
abbrev pub HasLeft : Leaving → Type 0
HasLeft t =
    (t.closed ≡ true)
    × (t.running ≡ 0)
    × (t.loop_runs ≡ false)
    × (t.world.in_hand ≡ [])
    × (t.world.replaying ≡ none)

pub closed-HasLeft : {t : Leaving} → IsOrderly t → t.closed ≡ true → HasLeft t
closed-HasLeft v c =
    let (none_runs, loop_gone) = v.last c in
    (c, none_runs, loop_gone, empty_of_length _ (omega (arith, v.hands)), v.pass loop_gone)

pub leaving-IsOrderly : {w : World} → IsSound w → IsOrderly (leaving w)
leaving-IsOrderly s = record {
  hands = s.hands_bounded;
  pass = λ l. absurd (false≢true (sym l));
  last = λ c. absurd (false≢true c);
}

-- From a pipeline as `New` returns it, which has run in any way until the cancellation: a sequence of
-- moves after it, in any order and with any answers of the system and of the hunter, is never longer
-- than the work that was left and, for each pass that the replay loop begins in it, two moves and one
-- for each event that was queued or in hand and each line of the overflow file and of the pass under
-- way. Where it can go no further, `Close` has returned, with no worker and no replay loop running,
-- no event in a worker's hands and no pass under way.
pub shutdown-ends :
    (audit_os overflow_os : Opening) (closes : Bool) (config : Config) (q : Pipeline)
    (ms : List Move) (n : ℕ) (t : Leaving)
    → new audit_os overflow_os closes config ≡ NewResult.created q
    → LeaveSteps (leaving (run ms (start q))) n t
    → (n ≤ work_left (leaving (run ms (start q))) + t.begun * (backlog (run ms (start q)) + 2))
      × (((u : Leaving) → ¬ LeaveStep t u) → HasLeft t)
shutdown-ends audit_os overflow_os closes config q ms n t e r =
    let v = leaving-IsOrderly (run_from_new-IsSound audit_os overflow_os closes config q ms e) in
    let v' = LeaveSteps-IsOrderly r v in
    let (bound, _) = LeaveSteps-bounded (backlog (run ms (start q))) r (omega arith) in
    (
      omega (arith, bound),
      λ stuck. elim (Bool-cases t.closed) [
        | inr c ↦
            let (u, m) = progress t t.world.in_hand t.running refl refl c in absurd (stuck u m)
        | inl c ↦ closed-HasLeft v' c
      ],
    )
