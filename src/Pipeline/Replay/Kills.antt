-- ===== src/Pipeline/Replay/Kills.antt =====
-- broker/internal/pipeline/pipeline.go: kill verdicts for events of the queue and for replayed ones.
use agentic_ebpf_patrol.Prelude.{
  ℕ, ◌+◌, ◌%◌, ◌^◌, ◌≡◌, refl, ap, ◌∙◌, true, List, [], ◌∷◌, map, Bool, suc, Option, none, some,
  length, arith,
}
use agentic_ebpf_patrol.Events.{Event}
use agentic_ebpf_patrol.Hunter.{Verdict, action_kill}
use agentic_ebpf_patrol.Hunter.Respond.{Host, Response, kill_process}
use agentic_ebpf_patrol.Pipeline.Log.{line}
use agentic_ebpf_patrol.Pipeline.Counters.{add}
use agentic_ebpf_patrol.Pipeline.{Pipeline, Call, ask, act_on, evaluate}
use agentic_ebpf_patrol.Pipeline.Draining.{
  Drain, drain_begin, replay_one, replay_all, drain_end, drain_overflow, tally,
}
use agentic_ebpf_patrol.Pipeline.HandleRaw.{Ready}
use agentic_ebpf_patrol.Pipeline.Replay.{Rotates, as_lines, drain_begin-Rotates}

-- The pipeline's hunter answers every call with a kill.
abbrev pub KillsAll : Pipeline → (ℕ → Call) → Type 0
KillsAll q calls = (i : ℕ) → (v : Verdict) × (ask (calls i) q ≡ some v) × (v.action ≡ action_kill)

-- A worker evaluates these events, one after another: the pipeline, and the responses.
pub evaluate_all : Host → (ℕ → Call) → ℕ → List Event → Pipeline → Pipeline × List Response
unfolding evaluate
evaluate_all host calls i [] q = (q, [])
evaluate_all host calls i (ev ∷ evs) q =
    let (q1, response) = evaluate host (calls i) ev q in
    let (q2, responses) = evaluate_all host calls (i + 1) evs q1 in
    (q2, elim response [ none ↦ responses | some r ↦ r ∷ responses ])

-- The counter `ActionsKill` after `n` more kills.
abbrev pub counted : Pipeline → ℕ → Pipeline
counted q n = record q {
  metrics = record (q.metrics) { actions_kill = (q.metrics.actions_kill + n) % 2 ^ 64 };
}

evaluate-kills :
    (host : Host) (calls : ℕ → Call) (i : ℕ) (ev : Event) (q : Pipeline)
    → KillsAll q calls
    → evaluate host (calls i) ev q ≡ (counted q 1, some (kill_process host ev.pid ev.comm))
unfolding evaluate act_on
evaluate-kills host calls i ev q all = let (v, n, k) = all i in rw (n, act_on, k) refl

replay_one-kills :
    (calls : ℕ → Call) (i : ℕ) (ev : Event) (q : Pipeline)
    → KillsAll q calls
    → replay_one (calls i) ev q ≡ (q, true)
unfolding replay_one
replay_one-kills calls i ev q all = let (v, n, k) = all i in rw (n, replay_one) refl

evaluate_all-responses :
    (host : Host) (calls : ℕ → Call) (i : ℕ) (evs : List Event) (q : Pipeline)
    → KillsAll q calls
    → (evaluate_all host calls i evs q).1 ≡ map (λ ev. kill_process host ev.pid ev.comm) evs
unfolding evaluate_all
evaluate_all-responses host calls i [] q all = refl
evaluate_all-responses host calls i (ev ∷ evs) q all =
    let rest = evaluate_all-responses host calls (i + 1) evs (counted q 1) all in
    ap
      (λ (t : Pipeline × Option Response).
        let later = (evaluate_all host calls (i + 1) evs t.0).1 in
        elim t.1 as (λ o. List Response) [ none ↦ later | some r ↦ r ∷ later ])
      (evaluate-kills host calls i ev q all)
    ∙ ap (λ rs. kill_process host ev.pid ev.comm ∷ rs) rest

evaluate_all-counted :
    (host : Host) (calls : ℕ → Call) (i : ℕ) (ev : Event) (evs : List Event) (q : Pipeline)
    → KillsAll q calls
    → (evaluate_all host calls i (ev ∷ evs) q).0.metrics.actions_kill
      ≡ (q.metrics.actions_kill + length (ev ∷ evs)) % 2 ^ 64
unfolding evaluate_all
evaluate_all-counted host calls i ev [] q all = rw (evaluate-kills host calls i ev q all) refl
evaluate_all-counted host calls i ev (next ∷ evs) q all =
    let rest = evaluate_all-counted host calls (i + 1) next evs (counted q 1) all in
    rw (evaluate-kills host calls i ev q all) (rest ∙ (omega arith))

replay_all-line :
    (calls : ℕ → Call) (i : ℕ) (ev : Event) (evs : List Event) (counts : ℕ × ℕ) (q : Pipeline)
    → KillsAll q calls
    → replay_all calls i (line ev ∷ as_lines evs) counts q
      ≡ replay_all calls (i + 1) (as_lines evs) (tally true counts) q
unfolding replay_all
replay_all-line calls i ev evs counts q all =
    ap (λ (t : Pipeline × Bool). replay_all calls (i + 1) (as_lines evs) (tally t.1 counts) t.0)
      (replay_one-kills calls i ev q all)

replayed : Pipeline → ℕ → ℕ → Pipeline × (ℕ × ℕ)
replayed q n m = (q, (n, m))

-- The loop of the replay over the same events: nothing changes but the number of replayed events.
replay_all-kills :
    (calls : ℕ → Call) (i : ℕ) (evs : List Event) (n m : ℕ) (q : Pipeline)
    → KillsAll q calls
    → replay_all calls i (as_lines evs) (n, m) q ≡ replayed q (n + length evs) m
unfolding replayed
replay_all-kills calls i [] n m q all =
    let e : n ≡ n + 0 = omega arith in unfold replay_all in ap (λ k. replayed q k m) e
replay_all-kills calls i (ev ∷ evs) n m q all =
    let e : (n + 1) + length evs ≡ n + length (ev ∷ evs) = omega arith in
    replay_all-line calls i ev evs (n, m) q all
    ∙ (replay_all-kills calls (i + 1) evs (n + 1) m q all ∙ ap (λ k. replayed q k m) e)

-- What a pass leaves: the log is empty and takes writes, the events are gone and counted as replayed,
-- and no kill is counted.
abbrev pub Vanished : Pipeline → Pipeline → ℕ → Type 0
Vanished q q' n =
    Ready q'.overflow []
    × (q'.queue ≡ q.queue)
    × (q'.metrics.actions_kill ≡ q.metrics.actions_kill)
    × (q'.metrics.overflow_replays ≡ add q.metrics.overflow_replays n)

drain_end-Vanished :
    (removed : Bool) (n : ℕ) (q : Pipeline)
    → Ready q.overflow []
    → Vanished q (drain_end removed (suc n) 0 q) (suc n)
unfolding drain_end
drain_end-Vanished removed n q r =
    ((ground arith, ground arith, ground arith), ground arith, ground arith, ground arith)

drain_begin-KillsAll :
    (os : Drain) (calls : ℕ → Call) (q : Pipeline)
    → KillsAll q calls
    → KillsAll (drain_begin os q).0 calls
unfolding drain_begin
drain_begin-KillsAll os calls q all i =
    let (v, n, k) = all i in
    let same : (drain_begin os q).0.cfg ≡ q.cfg = ground arith in (v, rw same n, k)

drain_begin-metrics : (os : Drain) (q : Pipeline) → (drain_begin os q).0.metrics ≡ q.metrics
unfolding drain_begin
drain_begin-metrics os q = ground arith

pass-Vanished :
    (os : Drain) (calls : ℕ → Call) (ev : Event) (evs : List Event) (q : Pipeline)
    → Rotates os
    → KillsAll q calls
    → Ready q.overflow (as_lines (ev ∷ evs))
    → Vanished q (drain_overflow os calls q) (length (ev ∷ evs))
unfolding replayed drain_overflow
pass-Vanished os calls ev evs q k all r =
    let (b, (ready, same_queue, same_lost)) = drain_begin-Rotates os q (as_lines (ev ∷ evs)) k r in
    let q1 = (drain_begin os q).0 in
    let counters = drain_begin-metrics os q in
    let whole : 0 + suc (length evs) ≡ suc (length evs) = omega arith in
    let loop : replay_all calls 0 (as_lines (ev ∷ evs)) (0, 0) q1 ≡ (q1, (suc (length evs), 0)) =
      replay_all-kills calls 0 (ev ∷ evs) 0 0 q1 (drain_begin-KillsAll os calls q all)
      ∙ ap (λ k. replayed q1 k 0) whole in
    let (r', queue', kills', replays') = drain_end-Vanished os.removed (length evs) q1 ready in
    rw (b, drain_overflow, loop)
      (
        r',
        queue' ∙ same_queue,
        kills' ∙ ap (λ m. m.actions_kill) counters,
        replays' ∙ ap (λ m. add m.overflow_replays (suc (length evs))) counters,
      )

-- The hunter answers every call with a kill, for any events, one at least. Where workers evaluate
-- the events, each is handed to `KillProcess` and counted in `ActionsKill`, modulo 2^64. Where the
-- events stand in the overflow file and a pass replays them, they leave the file, are counted as
-- replayed, and no kill is counted; the system moves the file aside, gives a fresh one and opens the
-- old one.
pub replayed_kill-ignored :
    (os : Drain) (host : Host) (calls : ℕ → Call) (ev : Event) (evs : List Event) (q : Pipeline)
    → Rotates os
    → KillsAll q calls
    → Ready q.overflow (as_lines (ev ∷ evs))
    → ((evaluate_all host calls 0 (ev ∷ evs) q).1
        ≡ map (λ e. kill_process host e.pid e.comm) (ev ∷ evs))
      × ((evaluate_all host calls 0 (ev ∷ evs) q).0.metrics.actions_kill
          ≡ add q.metrics.actions_kill (length (ev ∷ evs)))
      × Vanished q (drain_overflow os calls q) (length (ev ∷ evs))
replayed_kill-ignored os host calls ev evs q k all r = (
  evaluate_all-responses host calls 0 (ev ∷ evs) q all,
  evaluate_all-counted host calls 0 ev evs q all,
  pass-Vanished os calls ev evs q k all r,
)
