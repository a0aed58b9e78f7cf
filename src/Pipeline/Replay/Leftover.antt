-- ===== src/Pipeline/Replay/Leftover.antt =====
-- broker/internal/pipeline/pipeline.go and appendlog.go: the file `path + ".replay"` at a start.
use agentic_ebpf_patrol.Prelude.{◌≡◌, ◌∙◌, Bool, List, [], some, inl, inr, Option-cases, arith}
use agentic_ebpf_patrol.Pipeline.Log.{Opening, Entry, new_append_log, rotate, reopen}
use agentic_ebpf_patrol.Pipeline.{Config, NewResult, new, Pipeline}
use agentic_ebpf_patrol.Pipeline.Draining.{content, Drain, drain_begin}
use agentic_ebpf_patrol.Pipeline.HandleRaw.{Ready}
use agentic_ebpf_patrol.Pipeline.System.Counts.{replay_path-ne-nil}
use agentic_ebpf_patrol.Pipeline.Replay.{Rotates, drain_begin-Rotates}

-- The overflow log of a pipeline as `New` returns it.
new-overflow :
    (audit_os overflow_os : Opening) (closes : Bool) (config : Config) (q : Pipeline)
    → new audit_os overflow_os closes config ≡ NewResult.created q
    → (q.overflow.aside ≡ overflow_os.found_aside)
      × (q.queue ≡ [])
      × Ready q.overflow (content overflow_os.found)
unfolding new new_append_log
new-overflow audit_os overflow_os closes config q e = elim (Option-cases overflow_os.found) [
  | inl n ↦ rw n (ground arith, ground arith, (ground arith, ground arith, ground arith))
  | inr (es, n) ↦ rw n (ground arith, ground arith, (ground arith, ground arith, ground arith))
]

drain_begin-aside :
    (os : Drain) (q : Pipeline) (es : List Entry)
    → Rotates os
    → Ready q.overflow es
    → (drain_begin os q).0.overflow.aside ≡ some es
unfolding drain_begin rotate reopen
drain_begin-aside os q es (c, m, r, o) (f, i, l) =
    let p = replay_path-ne-nil q.overflow.path in ground (arith, p)

-- A broker starts where an earlier one left a file that its replay had moved aside, and the first
-- tick of the replay loop moves the overflow file aside: the pass reads the overflow file alone, and
-- the file that the earlier broker left is replaced by it, its events in no file and no queue.
pub leftover_file-overwritten :
    (audit_os overflow_os : Opening) (closes : Bool) (config : Config) (q : Pipeline)
    (left : List Entry) (os : Drain)
    → new audit_os overflow_os closes config ≡ NewResult.created q
    → overflow_os.found_aside ≡ some left
    → Rotates os
    → let q' = (drain_begin os q).0 in
      (q.overflow.aside ≡ some left)
      × ((drain_begin os q).1 ≡ some (content overflow_os.found))
      × (q'.overflow.aside ≡ some (content overflow_os.found))
      × (q'.overflow.live ≡ some [])
      × (q'.queue ≡ [])
leftover_file-overwritten audit_os overflow_os closes config q left os e f k =
    let (a, empty, r) = new-overflow audit_os overflow_os closes config q e in
    let (b, ((f1, i1, live1), queue1, lost1)) =
      drain_begin-Rotates os q (content overflow_os.found) k r in
    (a ∙ f, b, drain_begin-aside os q (content overflow_os.found) k r, live1, queue1 ∙ empty)
