-- ===== src/Pipeline/Replay/Down.antt =====
-- broker/internal/pipeline/pipeline.go: the passes of the replay while the hunter is down.
use agentic_ebpf_patrol.Prelude.{ℕ, ◌≡◌, refl, ap, ◌∙◌, List, [], ◌∷◌, map, All}
use agentic_ebpf_patrol.Text.Utf8.{json_string}
use agentic_ebpf_patrol.Text.Utf8.Again.{json_string-json_string}
use agentic_ebpf_patrol.Events.{Event}
use agentic_ebpf_patrol.Pipeline.Log.{line, json_event}
use agentic_ebpf_patrol.Pipeline.{Pipeline, Call}
use agentic_ebpf_patrol.Pipeline.Draining.{Drain, drain_overflow}
use agentic_ebpf_patrol.Pipeline.HandleRaw.{Ready}
use agentic_ebpf_patrol.Pipeline.Replay.{
  Rotates, HunterDown, Respilled, rewritten, as_lines, drain_overflow-Respilled,
}

-- What one pass meets.
abbrev pub Pass : Type 0
Pass = Drain × (ℕ → Call)

abbrev pub IsDown : Pass → Type 0
IsDown (os, calls) = Rotates os × HunterDown calls

-- Passes one after the other, with nothing running beside them.
unfoldable pub drain_all : List Pass → Pipeline → Pipeline
unfolding drain_overflow
drain_all [] q = q
drain_all ((os, calls) ∷ passes) q = drain_all passes (drain_overflow os calls q)

map-json_string :
    (args : List (List ℕ)) → map json_string (map json_string args) ≡ map json_string args
map-json_string [] = refl
map-json_string (a ∷ args) = rw (json_string-json_string a, map-json_string args) refl

-- JSON changes nothing in an event that it has read.
pub json_event-json_event : (e : Event) → json_event (json_event e) ≡ json_event e
unfolding json_event
json_event-json_event e =
    rw
      (
        json_string-json_string e.comm,
        json_string-json_string e.filename,
        map-json_string e.args,
        json_string-json_string e.command_line,
      )
      refl

rewritten_again : (evs : List Event) → rewritten (map json_event evs) ≡ rewritten evs
rewritten_again [] = refl
rewritten_again (ev ∷ evs) = rw (json_event-json_event ev, rewritten_again evs) refl

rewritten_lem : (evs : List Event) → rewritten evs ≡ as_lines (map json_event evs)
rewritten_lem [] = refl
rewritten_lem (ev ∷ evs) = ap (λ es. line (json_event ev) ∷ es) (rewritten_lem evs)

drain_all-Respilled :
    (passes : List Pass) (q q' : Pipeline) (evs : List Event)
    → All IsDown passes
    → Respilled q q' (rewritten evs)
    → Respilled q (drain_all passes q') (rewritten evs)
unfolding drain_all
drain_all-Respilled [] q q' evs d r = r
drain_all-Respilled ((os, calls) ∷ passes) q q' evs ((k, down), d) (ready, queue, lost) =
    let (ready1, queue1, lost1) =
      drain_overflow-Respilled os calls q' (map json_event evs) k down
        (rw (rewritten_lem evs) at ready) in
    drain_all-Respilled passes q (drain_overflow os calls q') evs d
      (rw (rewritten_again evs) at ready1, queue1 ∙ queue, lost1 ∙ lost)

-- Passes over a file of whole lines while the hunter is down and the disk works, one or more, one
-- after the other: afterwards the overflow file holds the same events in the same order, each changed
-- only by one way through JSON, however many passes there were; the queue is as it was, no event is
-- counted as lost, and the log takes writes.
pub passes_while_down :
    (first : Pass) (more : List Pass) (q : Pipeline) (evs : List Event)
    → IsDown first
    → All IsDown more
    → Ready q.overflow (as_lines evs)
    → let q' = drain_all (first ∷ more) q in
      Ready q'.overflow (rewritten evs)
      × (q'.queue ≡ q.queue)
      × (q'.metrics.events_lost ≡ q.metrics.events_lost)
unfolding drain_all
passes_while_down (os, calls) more q evs (k, down) d r =
    drain_all-Respilled more q (drain_overflow os calls q) evs d
      (drain_overflow-Respilled os calls q evs k down r)
