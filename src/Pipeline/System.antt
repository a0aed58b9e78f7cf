-- ===== src/Pipeline/System.antt =====
-- The goroutines of the pipeline as moves in any order: the ring buffer reader that feeds
-- `HandleRaw`, the workers of `Start`, and the replay loop. A run is a list of moves; a move that is
-- not possible changes nothing.
pub mod Counts
pub mod Balance
pub mod Effects
pub mod Sound
pub mod Invariant
pub mod Kept
pub mod Words
pub mod Conservation
pub mod Intact
pub mod NoLoss
pub mod Ledger
pub mod Grows
pub mod Asked
pub mod Refinement
pub mod Answered
use agentic_ebpf_patrol.Prelude.{
  ℕ, zero, suc, ◌+◌, ℤ, pos, Bool, true, false, not, ◌&&◌, List, [], ◌∷◌, ◌++◌, Option, none, some,
  Bytes, length, ok, err, panic, ltb, if◌then◌else◌,
}
use agentic_ebpf_patrol.Events.{Event, Decoded, decode}
use agentic_ebpf_patrol.Triage.{is_suspicious}
use agentic_ebpf_patrol.Hunter.Respond.{Host}
use agentic_ebpf_patrol.Pipeline.Log.{AppendLog, Entry, line, torn, Write, append}
use agentic_ebpf_patrol.Pipeline.{Pipeline, Call, ask, spill, handle_raw, evaluate}
use agentic_ebpf_patrol.Pipeline.Draining.{Drain, drain_begin, replay_one, drain_end, tally}

-- The pass of the replay loop that is under way: the entries left, and its two counters.
pub record Replaying : Type 0 where
  pub entries : List Entry
  pub replayed : ℕ
  pub respilled : ℕ

-- `in_hand` holds the events that workers have taken and not finished. The last four fields are a
-- record of the past that no code reads: the suspicious events that were decoded, those that the
-- hunter answered, those that were counted as lost, and those that were passed over with no count.
pub record World : Type 0 where
  pub pipe : Pipeline
  pub in_hand : List Event
  pub replaying : Option Replaying
  pub accepted : List Event
  pub settled : List Event
  pub reported : List Event
  pub abandoned : List Event

-- The workers that `Start` launches.
abbrev pub worker_count : ℤ → ℕ
worker_count (pos n) = n
worker_count (ℤ.negsuc n) = 0

unfoldable pub start : Pipeline → World
start p = record {
  pipe = p;
  in_hand = [];
  replaying = none;
  accepted = [];
  settled = [];
  reported = [];
  abandoned = [];
}

-- The events of a file.
abbrev pub lines : List Entry → List Event
lines [] = []
lines (torn ∷ es) = lines es
lines (line ev ∷ es) = ev ∷ lines es

abbrev pub file_lines : Option (List Entry) → List Event
file_lines none = []
file_lines (some es) = lines es

-- The event, if its spill returns an error.
abbrev pub spill_loss : Write → Event → AppendLog → List Event
spill_loss w ev log = if (append w ev log).1 then ev ∷ [] else []

-- The event, if neither the queue nor the overflow log takes it.
abbrev pub dispatch_loss : Write → Event → Pipeline → List Event
dispatch_loss w ev p = if ltb (length p.queue) p.capacity then [] else spill_loss w ev p.overflow

abbrev pub has_file : Option (List Entry) → Bool
has_file none = false
has_file (some es) = true

-- The file was moved aside, and the pass ends before it is read.
abbrev pub is_stranded : Drain → AppendLog → Bool
is_stranded os log =
    (not log.writer_failed && (log.is_open && os.rotation.closes))
    && ((has_file log.live && os.rotation.renames) && not (os.rotation.reopens && os.opened))

abbrev pub stranded : Drain → AppendLog → List Event
stranded os log = if is_stranded os log then file_lines log.live else []

-- One event out of the hands of the workers.
unfoldable pub pick : ℕ → List Event → Option (Event × List Event)
pick i [] = none
pick zero (ev ∷ evs) = some (ev, evs)
pick (suc i) (ev ∷ evs) = elim (pick i evs) [ none ↦ none | some (e, rest) ↦ some (e, ev ∷ rest) ]

-- The reader hands over a record; a worker takes an event off the queue; a worker is done with one;
-- the ticker starts a pass; the pass handles one event; the pass ends.
pub data Move : Type 0 where
  receive : ℤ → Write → Write → Bytes → Move
  take_event : Move
  judge : ℕ → Host → Call → Move
  tick : Drain → Move
  replay : Call → Move
  finish : Bool → Move

-- `HandleRaw` on a record that decodes to `ev`.
unfoldable pub receive_event : Write → Event → Pipeline → World → World
receive_event overflow_write ev p w =
    if is_suspicious ev
    then record w {
      pipe = p;
      accepted = w.accepted ++ ev ∷ [];
      reported = w.reported ++ dispatch_loss overflow_write ev w.pipe;
    }
    else record w { pipe = p }

unfoldable pub received : Option Pipeline → Decoded Event → Write → World → World
unfolding receive_event
received none decoded overflow_write w = w
received (some p) (ok ev) overflow_write w = receive_event overflow_write ev p w
received (some p) (err e) overflow_write w = record w { pipe = p }
received (some p) panic overflow_write w = w

unfoldable pub receive_raw : ℤ → Write → Write → Bytes → World → World
unfolding received
receive_raw boot_wall audit_write overflow_write raw w =
    received (handle_raw boot_wall audit_write overflow_write raw w.pipe) (decode boot_wall raw)
      overflow_write w

-- `case ev := <-p.queue`, for a worker that waits.
unfoldable pub take_queued : List Event → World → World
take_queued [] w = w
take_queued (ev ∷ evs) w =
    if ltb (length w.in_hand) (worker_count w.pipe.cfg.workers)
    then record w { pipe = record (w.pipe) { queue = evs }; in_hand = ev ∷ w.in_hand }
    else w

unfoldable pub judge_event : Host → Call → Event → List Event → World → World
judge_event host call ev others w =
    let p = (evaluate host call ev w.pipe).0 in
    elim (ask call w.pipe) [
      | none ↦ record w {
        pipe = p;
        in_hand = others;
        reported = w.reported ++ spill_loss call.write ev w.pipe.overflow;
      }
      | some v ↦ record w { pipe = p; in_hand = others; settled = w.settled ++ ev ∷ [] }
    ]

unfoldable pub begin_pass : Drain → World → World
begin_pass os w =
    let (p, started) = drain_begin os w.pipe in
    let gone = w.abandoned ++ stranded os w.pipe.overflow in
    elim started [
      | none ↦ record w { pipe = p; abandoned = gone }
      | some es ↦ record w {
        pipe = p;
        replaying = some (record { entries = es; replayed = 0; respilled = 0 });
        abandoned = gone;
      }
    ]

unfoldable pub replay_event : Call → Event → List Entry → ℕ × ℕ → World → World
replay_event call ev es counts w =
    let (p, done) = replay_one call ev w.pipe in
    let counts' = tally done counts in
    let pass : Option Replaying =
      some (record { entries = es; replayed = counts'.0; respilled = counts'.1 }) in
    if done
    then record w { pipe = p; replaying = pass; settled = w.settled ++ ev ∷ [] }
    else record w {
      pipe = p;
      replaying = pass;
      reported = w.reported ++ spill_loss call.write ev w.pipe.overflow;
    }

unfoldable pub replay_next : Call → List Entry → ℕ × ℕ → World → World
unfolding replay_event
replay_next call [] counts w = w
replay_next call (torn ∷ es) counts w = w
replay_next call (line ev ∷ es) counts w = replay_event call ev es counts w

-- The loop breaks at the end, or at an entry that does not decode; the rest is passed over.
unfoldable pub finish_pass : Bool → List Entry → ℕ × ℕ → World → World
finish_pass removed [] counts w = record w {
  pipe = drain_end removed counts.0 counts.1 w.pipe;
  replaying = none;
}
finish_pass removed (torn ∷ es) counts w = record w {
  pipe = drain_end removed counts.0 counts.1 w.pipe;
  replaying = none;
  abandoned = w.abandoned ++ lines es;
}
finish_pass removed (line ev ∷ es) counts w = w

unfoldable pub step : Move → World → World
unfolding receive_raw handle_raw take_queued pick judge_event evaluate begin_pass drain_begin
    replay_next replay_one finish_pass drain_end
step (receive boot_wall audit_write overflow_write raw) w =
    receive_raw boot_wall audit_write overflow_write raw w
step take_event w = take_queued w.pipe.queue w
step (judge i host call) w = elim (pick i w.in_hand) [
  | none ↦ w
  | some (ev, others) ↦ judge_event host call ev others w
]
step (tick os) w = elim w.replaying [ none ↦ begin_pass os w | some r ↦ w ]
step (replay call) w = elim w.replaying [
  | none ↦ w
  | some r ↦ replay_next call r.entries (r.replayed, r.respilled) w
]
step (finish removed) w = elim w.replaying [
  | none ↦ w
  | some r ↦ finish_pass removed r.entries (r.replayed, r.respilled) w
]

unfoldable pub run : List Move → World → World
unfolding step
run [] w = w
run (m ∷ ms) w = run ms (step m w)
