-- ===== src/Pipeline/Shutdown/Work.antt =====
-- broker/internal/pipeline/pipeline.go: the work that is left of a shutdown.
use agentic_ebpf_patrol.Prelude.{
  ℕ, ◌+◌, ◌-◌, ◌*◌, ◌<◌, ◌≤◌, ◌≡◌, ap, Bool, true, false, none, length, arith,
}
use agentic_ebpf_patrol.Pipeline.Draining.{content}
use agentic_ebpf_patrol.Pipeline.System.{World}
use agentic_ebpf_patrol.Pipeline.System.Balance.{pick-length}
use agentic_ebpf_patrol.Pipeline.Shutdown.{
  Leaving, LeaveStep, takes, judges, worker_returns, replays, pass_ends, loop_returns,
  close_returns, begins, LeaveSteps, here, next,
}
use agentic_ebpf_patrol.Pipeline.Shutdown.Size.{
  pass_length, judge-Shape, replay-Shape, finish-Shape, begin-Shape, close-Shape,
}

abbrev pub bit : Bool → ℕ
bit true = 1
bit false = 0

-- What is left to do at most: three moves for a queued event, two for one in hand, one for each
-- worker, each line of the pass and its end, the return of the loop, and the return of `Close`.
abbrev pub work_left : Leaving → ℕ
work_left s =
    3 * length s.world.pipe.queue
    + 2 * length s.world.in_hand
    + s.running
    + pass_length s.world.replaying
    + bit s.loop_runs
    + (1 - bit s.closed)

-- Each event in hand has a worker, and a pass has its loop; `Close` has not returned before them.
pub record IsOrderly (s : Leaving) : Type 0 where
  pub hands : length s.world.in_hand ≤ s.running
  pub pass : s.loop_runs ≡ false → s.world.replaying ≡ none
  pub last : s.closed ≡ true → (s.running ≡ 0) × (s.loop_runs ≡ false)

-- The events and lines that moves after the cancellation may still go through.
abbrev pub backlog : World → ℕ
backlog w =
    length w.pipe.queue
    + length w.in_hand
    + length (content w.pipe.overflow.live)
    + (pass_length w.replaying - 1)

-- The moves that a begun pass allows.
abbrev pub pass_cost : ℕ → Leaving → ℕ
pass_cost c s = s.begun * (c + 2)

-- Every move leaves less to do, but for the pass that it begins, and no more to go through.
abbrev Falls : ℕ → Leaving → Leaving → Type 0
Falls c s t = (work_left t + pass_cost c s < work_left s + pass_cost c t) × (backlog t.world ≤ c)

LeaveStep-Falls : {s t : Leaving} (c : ℕ) → LeaveStep s t → backlog s.world ≤ c → Falls c s t
LeaveStep-Falls c (takes ev evs e h u) b =
    let same = ap (pass_cost c) u in
    (
      omega (arith, ap work_left u, ap length e, same),
      omega (arith, ap (λ x. backlog x.world) u, ap length e),
    )
LeaveStep-Falls {s} c (judges i host call ev others e u) b =
    let (q, h, p, f) = judge-Shape s.world host call ev others in
    let one = pick-length i s.world.in_hand e in
    let same = ap (pass_cost c) u in
    (
      omega (arith, ap work_left u, q, h, p, one, same),
      omega (arith, ap (λ x. backlog x.world) u, q, h, p, f, one),
    )
LeaveStep-Falls c (worker_returns h u) b =
    let same = ap (pass_cost c) u in
    (omega (arith, ap work_left u, h, same), omega (arith, ap (λ x. backlog x.world) u))
LeaveStep-Falls {s} c (replays call r ev es e l u) b =
    let (q, h, p, f) = replay-Shape s.world call ev es (r.replayed, r.respilled) in
    let same = ap (pass_cost c) u in
    (
      omega (arith, ap work_left u, q, h, p, ap pass_length e, ap length l, same),
      omega (arith, ap (λ x. backlog x.world) u, q, h, p, f, ap pass_length e, ap length l),
    )
LeaveStep-Falls {s} c (pass_ends removed r e k u) b =
    let (q, h, p, f) = finish-Shape s.world removed r.entries (r.replayed, r.respilled) k in
    let same = ap (pass_cost c) u in
    (
      omega (arith, ap work_left u, q, h, p, ap pass_length e, same),
      omega (arith, ap (λ x. backlog x.world) u, q, h, p, f),
    )
LeaveStep-Falls {s} c (begins os l idle u) b =
    let (q, h, f) = begin-Shape s.world os idle in
    let more : (s.begun + 1) * (c + 2) ≡ s.begun * (c + 2) + (c + 2) = grind arith in
    let one = ap (pass_cost c) u in
    let hands = ap length h in
    (
      omega (arith, ap work_left u, q, hands, f, ap pass_length idle, more, one),
      omega (arith, ap (λ x. backlog x.world) u, q, hands, f),
    )
LeaveStep-Falls c (loop_returns l e u) b =
    let same = ap (pass_cost c) u in
    (omega (arith, ap work_left u, ap bit l, same), omega (arith, ap (λ x. backlog x.world) u))
LeaveStep-Falls {s} c (close_returns a o n l k u) b =
    let (q, h, p, f) = close-Shape s.world a o in
    let same = ap (pass_cost c) u in
    (
      omega (arith, ap work_left u, q, h, p, ap bit k, same),
      omega (arith, ap (λ x. backlog x.world) u, q, h, p, f),
    )

-- The moves are bounded by the work at the start and the passes begun on the way.
pub LeaveSteps-bounded :
    {s t : Leaving} {n : ℕ} (c : ℕ)
    → LeaveSteps s n t
    → backlog s.world ≤ c
    → (n + work_left t + pass_cost c s ≤ work_left s + pass_cost c t) × (backlog t.world ≤ c)
LeaveSteps-bounded c here b = (omega arith, b)
LeaveSteps-bounded c (next r m) b =
    let (bound, b') = LeaveSteps-bounded c r b in
    let (falls, b'') = LeaveStep-Falls c m b' in (omega (arith, bound, falls), b'')
