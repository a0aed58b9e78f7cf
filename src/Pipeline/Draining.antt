-- ===== src/Pipeline/Draining.antt =====
-- broker/internal/pipeline/pipeline.go: `drainOverflow`, the replay of the overflow file.
use agentic_ebpf_patrol.Prelude.{
  ℕ, ◌+◌, Bool, true, false, not, List, [], ◌∷◌, Option, none, some, bytes_eq, ok, err, panic, ltb,
  if◌then◌else◌,
}
use agentic_ebpf_patrol.Events.{Event}
use agentic_ebpf_patrol.Pipeline.Counters.{add}
use agentic_ebpf_patrol.Pipeline.Log.{Entry, line, torn, Rotation, rotate}
use agentic_ebpf_patrol.Pipeline.{Pipeline, Call, ask, spill}

-- What the system answers in `drainOverflow`: in `rotate`, when the rotated file is opened, and when
-- it is removed.
pub record Drain : Type 0 where
  pub rotation : Rotation
  pub opened : Bool
  pub removed : Bool

-- `os.Remove(rotated)`
abbrev pub remove_aside : Bool → Pipeline → Pipeline
remove_aside true p = let log = p.overflow in record p { overflow = record log { aside = none } }
remove_aside false p = p

abbrev pub content : Option (List Entry) → List Entry
content none = []
content (some es) = es

-- The start of `drainOverflow`: the pipeline, and the entries of the rotated file, or `none` if the
-- function returns at once. The `Remove` is deferred before the file is opened.
unfoldable pub drain_begin : Drain → Pipeline → Pipeline × Option (List Entry)
unfolding rotate
drain_begin os p =
    let (log, result) = rotate os.rotation p.overflow in
    let rotated = record p { overflow = log } in
    elim result [
      | err e ↦ (rotated, none)
      | panic ↦ (rotated, none)
      | ok path ↦
          if bytes_eq path []
          then (rotated, none)
          else if not os.opened
          then (remove_aside os.removed rotated, none)
          else (rotated, some (content log.aside))
    ]

-- One round of the loop, for an event that was read: the pipeline, and whether it was replayed.
unfoldable pub replay_one : Call → Event → Pipeline → Pipeline × Bool
replay_one call ev p = elim (ask call p) [
  | none ↦ (spill call.write ev p, false)
  | some v ↦ (p, true)
]

-- The end of `drainOverflow`.
unfoldable pub drain_end : Bool → ℕ → ℕ → Pipeline → Pipeline
drain_end removed replayed respilled p =
    let m = p.metrics in
    remove_aside removed (
      if ltb 0 (replayed + respilled)
      then record p { metrics = record m { overflow_replays = add m.overflow_replays replayed } }
      else p)

abbrev pub tally : Bool → ℕ × ℕ → ℕ × ℕ
tally true (replayed, respilled) = (replayed + 1, respilled)
tally false (replayed, respilled) = (replayed, respilled + 1)

-- The loop over the entries, up to the first that does not decode: `calls i` is what the `i`th call
-- of the hunter meets.
unfoldable pub replay_all : (ℕ → Call) → ℕ → List Entry → ℕ × ℕ → Pipeline → Pipeline × (ℕ × ℕ)
replay_all calls i [] counts p = (p, counts)
replay_all calls i (torn ∷ es) counts p = (p, counts)
replay_all calls i (line ev ∷ es) counts p =
    let (p', done) = replay_one (calls i) ev p in replay_all calls (i + 1) es (tally done counts) p'

-- `drainOverflow`, with nothing running beside it.
unfoldable pub drain_overflow : Drain → (ℕ → Call) → Pipeline → Pipeline
drain_overflow os calls p =
    let (p', started) = drain_begin os p in
    elim started [
      | none ↦ p'
      | some es ↦
          let (q, counts) = replay_all calls 0 es (0, 0) p' in
          drain_end os.removed counts.0 counts.1 q
    ]
