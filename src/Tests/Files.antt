-- ===== src/Tests/Files.antt =====
-- Calls of the log that fail, and a start beside a file that was left.
use agentic_ebpf_patrol.Prelude.{◌≡◌, refl, true, false, [], ◌∷◌, none, some, err}
use agentic_ebpf_patrol.Pipeline.Log.{
  LogError, line, torn, whole, append, Rotation, rotate, Opening,
}
use agentic_ebpf_patrol.Pipeline.Log.Laws.{add_event, rotate_file, use_all, failed_reopen_is_final}
use agentic_ebpf_patrol.Pipeline.{Pipeline, NewResult, new}
use agentic_ebpf_patrol.Pipeline.Draining.{drain_begin}
use agentic_ebpf_patrol.Pipeline.Replay.Leftover.{leftover_file-overwritten}
use agentic_ebpf_patrol.Tests.{dropped, config, opening, pipeline, smooth}

abbrev no_reopen : Rotation
no_reopen = record { closes = true; renames = true; reopens = false }

failed_reopen_is_final_example :
    let later =
      use_all
        (add_event whole dropped ∷ rotate_file smooth.rotation ∷ [])
        (rotate no_reopen pipeline.overflow).0 in
    (later.live ≡ none)
    × (later.aside ≡ some [])
    × ((append whole dropped later).1 ≡ true)
    × ((e : LogError) × ((rotate smooth.rotation later).1 ≡ err e))
failed_reopen_is_final_example =
    failed_reopen_is_final no_reopen pipeline.overflow []
      (add_event whole dropped ∷ rotate_file smooth.rotation ∷ []) whole dropped smooth.rotation
      refl refl refl refl refl refl

-- An event waits in the overflow file, and another in the file that was moved aside.
abbrev leftover : Opening
leftover = record {
  dir = opening.dir;
  dir_made = true;
  opened = true;
  found = some (line dropped ∷ []);
  found_aside = some (line dropped ∷ torn ∷ []);
}

abbrev restarted : Pipeline
restarted = record pipeline {
  overflow = record (pipeline.overflow) {
    live = some (line dropped ∷ []);
    aside = some (line dropped ∷ torn ∷ []);
  };
}

restarted-new : new opening leftover true config ≡ NewResult.created restarted
unfolding new
restarted-new = refl

leftover_file-overwritten_example :
    (restarted.overflow.aside ≡ some (line dropped ∷ torn ∷ []))
    × ((drain_begin smooth restarted).1 ≡ some (line dropped ∷ []))
    × ((drain_begin smooth restarted).0.overflow.aside ≡ some (line dropped ∷ []))
    × ((drain_begin smooth restarted).0.overflow.live ≡ some [])
    × ((drain_begin smooth restarted).0.queue ≡ [])
leftover_file-overwritten_example =
    leftover_file-overwritten opening leftover true config restarted (line dropped ∷ torn ∷ [])
      smooth restarted-new refl (refl, refl, refl, refl)
