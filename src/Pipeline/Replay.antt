-- ===== src/Pipeline/Replay.antt =====
-- broker/internal/pipeline/pipeline.go: what a pass over the overflow file does.
pub mod Leftover
pub mod Down
pub mod Kills
use agentic_ebpf_patrol.Prelude.{
  ℕ, ◌+◌, ◌≡◌, refl, ◌∙◌, Bool, true, false, List, [], ◌∷◌, ◌++◌, append-nil, append_assoc, none,
  some, arith,
}
use agentic_ebpf_patrol.Events.{Event}
use agentic_ebpf_patrol.Hunter.{Verdict, action_kill}
use agentic_ebpf_patrol.Hunter.Respond.{Host, kill_process}
use agentic_ebpf_patrol.Pipeline.Log.{Entry, line, whole, append, rotate, reopen, json_event}
use agentic_ebpf_patrol.Pipeline.Counters.{add}
use agentic_ebpf_patrol.Pipeline.{
  Config, NewResult, new, Pipeline, Call, ask, spill, act_on, evaluate,
}
use agentic_ebpf_patrol.Pipeline.Draining.{
  content, Drain, drain_begin, replay_one, replay_all, drain_end, drain_overflow, tally,
}
use agentic_ebpf_patrol.Pipeline.HandleRaw.{Ready}
use agentic_ebpf_patrol.Pipeline.System.Counts.{replay_path-ne-nil}

-- The system moves the overflow file aside and gives a fresh one, but the old one does not open.
abbrev pub Unreadable : Drain → Type 0
Unreadable os =
    (os.rotation.closes ≡ true)
    × (os.rotation.renames ≡ true)
    × (os.rotation.reopens ≡ true)
    × (os.opened ≡ false)
    × (os.removed ≡ true)

-- If the rotated file does not open, then all its events are gone: no file and no queue holds them,
-- and no counter has changed.
pub drain_overflow_unread :
    (os : Drain) (calls : ℕ → Call) (q : Pipeline) (es : List Entry)
    → Unreadable os
    → Ready q.overflow es
    → let q' = drain_overflow os calls q in
      (q'.overflow.live ≡ some [])
      × (q'.overflow.aside ≡ none)
      × (q'.queue ≡ q.queue)
      × (q'.metrics ≡ q.metrics)
unfolding drain_overflow drain_begin rotate reopen
drain_overflow_unread os calls q es (c, m, r, o, d) (f, i, l) =
    let p = replay_path-ne-nil q.overflow.path in
    (ground (arith, p), ground (arith, p), ground (arith, p), ground (arith, p))

-- Every call of the hunter fails, and every write of the overflow log succeeds.
abbrev pub HunterDown : (ℕ → Call) → Type 0
HunterDown calls =
    ((i : ℕ) → (calls i).write ≡ whole) × ((i : ℕ) (q : Pipeline) → ask (calls i) q ≡ none)

-- The lines of a file that was read and written again.
abbrev pub rewritten : List Event → List Entry
rewritten [] = []
rewritten (ev ∷ evs) = line (json_event ev) ∷ rewritten evs

abbrev pub as_lines : List Event → List Entry
as_lines [] = []
as_lines (ev ∷ evs) = line ev ∷ as_lines evs

-- The log has these lines and takes writes, and the queue and the count of lost events stand.
abbrev pub Respilled : Pipeline → Pipeline → List Entry → Type 0
Respilled q q' es =
    Ready q'.overflow es × (q'.queue ≡ q.queue) × (q'.metrics.events_lost ≡ q.metrics.events_lost)

spill-Respilled :
    (ev : Event) (q : Pipeline) (es : List Entry)
    → Ready q.overflow es
    → Respilled q (spill whole ev q) (es ++ line (json_event ev) ∷ [])
unfolding spill append
spill-Respilled ev q es (f, o, l) =
    ((ground arith, ground arith, ground arith), ground arith, ground arith)

replay_one-down :
    (calls : ℕ → Call) (i : ℕ) (ev : Event) (q : Pipeline)
    → HunterDown calls
    → replay_one (calls i) ev q ≡ (spill whole ev q, false)
unfolding replay_one
replay_one-down calls i ev q (w, n) = rw (n i q, replay_one, w i)

replay_all-line :
    (calls : ℕ → Call) (i : ℕ) (ev : Event) (es : List Entry) (counts : ℕ × ℕ) (q : Pipeline)
    → HunterDown calls
    → replay_all calls i (line ev ∷ es) counts q
      ≡ replay_all calls (i + 1) es (tally false counts) (spill whole ev q)
replay_all-line calls i ev es counts q d =
    let e = replay_one-down calls i ev q d in unfold replay_all in rw e

replay_all-down :
    (calls : ℕ → Call) (i : ℕ) (evs : List Event) (counts : ℕ × ℕ) (q : Pipeline) (es : List Entry)
    → HunterDown calls
    → Ready q.overflow es
    → Respilled q (replay_all calls i (as_lines evs) counts q).0 (es ++ rewritten evs)
replay_all-down calls i [] counts q es d r = unfold replay_all in rw append-nil (r, refl, refl)
replay_all-down calls i (ev ∷ evs) counts q es d r =
    let q1 = spill whole ev q in
    let es1 = es ++ line (json_event ev) ∷ [] in
    let (r1, queue1, lost1) = spill-Respilled ev q es r in
    let (r2, queue2, lost2) = replay_all-down calls (i + 1) evs (tally false counts) q1 es1 d r1 in
    rw (replay_all-line calls i ev (as_lines evs) counts q d) (
      rw (append_assoc es (line (json_event ev) ∷ []) (rewritten evs)) at r2,
      queue2 ∙ queue1,
      lost2 ∙ lost1,
    )

-- The system moves the overflow file aside, gives a fresh one and opens the old one.
abbrev pub Rotates : Drain → Type 0
Rotates os =
    (os.rotation.closes ≡ true)
    × (os.rotation.renames ≡ true)
    × (os.rotation.reopens ≡ true)
    × (os.opened ≡ true)

pub drain_begin-Rotates :
    (os : Drain) (q : Pipeline) (es : List Entry)
    → Rotates os
    → Ready q.overflow es
    → ((drain_begin os q).1 ≡ some es) × Respilled q (drain_begin os q).0 []
unfolding drain_begin rotate reopen
drain_begin-Rotates os q es (c, m, r, o) (f, i, l) =
    let p = replay_path-ne-nil q.overflow.path in
    (
      ground (arith, p),
      (
        (ground (arith, p), ground (arith, p), ground (arith, p)),
        ground (arith, p),
        ground (arith, p),
      ),
    )

drain_end-Respilled :
    (removed : Bool) (n m : ℕ) (q q' : Pipeline) (es : List Entry)
    → Respilled q q' es
    → Respilled q (drain_end removed n m q') es
unfolding drain_end
drain_end-Respilled removed n m q q' es ((f, o, l), same_queue, same_lost) =
    ((ground arith, ground arith, ground arith), ground arith, ground arith)

-- A pass over a file of whole lines while the hunter is down and the disk works.
pub drain_overflow-Respilled :
    (os : Drain) (calls : ℕ → Call) (q : Pipeline) (evs : List Event)
    → Rotates os
    → HunterDown calls
    → Ready q.overflow (as_lines evs)
    → Respilled q (drain_overflow os calls q) (rewritten evs)
drain_overflow-Respilled os calls q evs k d r =
    let (b, (r1, queue1, lost1)) = drain_begin-Rotates os q (as_lines evs) k r in
    let q1 = (drain_begin os q).0 in
    let (r2, queue2, lost2) = replay_all-down calls 0 evs (0, 0) q1 [] d r1 in
    let (q2, counts) = replay_all calls 0 (as_lines evs) (0, 0) q1 in
    unfold drain_overflow in
    rw (b, drain_overflow)
      (drain_end-Respilled os.removed counts.0 counts.1 q q2 (rewritten evs)
        (r2, queue2 ∙ queue1, lost2 ∙ lost1))
