-- ===== src/Tests/Hunting.antt =====
-- The client of the hunter, the kill, the opening of the ring buffer and its reader.
use agentic_ebpf_patrol.Prelude.{
  ℕ, zero, suc, ◌<◌, ◌≤◌, ◌≡◌, ◌↔◌, ◌⊎◌, refl, pos, true, false, List, [], ◌∷◌, ◌++◌, none, some,
  Bytes, length, codes, All, arith,
}
use agentic_ebpf_patrol.Text.Trim.{BeginsClean, EndsClean}
use agentic_ebpf_patrol.Hunter.Client.{verdict, evaluate}
use agentic_ebpf_patrol.Hunter.Client.Retry.{WinsAfter, evaluate-verdict_iff}
use agentic_ebpf_patrol.Hunter.Client.Backoff.{
  Scheduled, IsRequest, evaluate-Scheduled, evaluate-Sends,
}
use agentic_ebpf_patrol.Hunter.Respond.{Host, KillError, kill_process}
use agentic_ebpf_patrol.Hunter.Respond.Safety.{IsTarget, kill_process-safe, untrimmed-spared}
use agentic_ebpf_patrol.Ingest.{Read, sample, failed, run}
use agentic_ebpf_patrol.Ingest.Order.{handle_all, delivered, is_stopped, run-delivered}
use agentic_ebpf_patrol.Broker.{Attempt, open_with_retry}
use agentic_ebpf_patrol.Broker.Startup.{StartsUp, open_with_retry-StartsUp}
use agentic_ebpf_patrol.Tests.{client, answering, kill_verdict, host}

evaluate-verdict_iff_example :
    ((evaluate client answering (some (codes "{}"))).0 ≡ verdict kill_verdict)
    ↔ ((k : ℕ) × (k < 2) × WinsAfter answering 0 k kill_verdict)
evaluate-verdict_iff_example = evaluate-verdict_iff client answering (codes "{}") kill_verdict

second_attempt_answers : (evaluate client answering (some (codes "{}"))).0 ≡ verdict kill_verdict
unfolding evaluate
second_attempt_answers = refl

evaluate-Scheduled_example : Scheduled 1 (evaluate client answering (some (codes "{}"))).1
evaluate-Scheduled_example = evaluate-Scheduled client answering (codes "{}") 1 refl (omega arith)

evaluate-Sends_example :
    All (IsRequest client (codes "{}")) (evaluate client answering (some (codes "{}"))).1.requests
    × (length (evaluate client answering (some (codes "{}"))).1.requests ≤ 2)
evaluate-Sends_example = evaluate-Sends client answering (codes "{}")

kill_process-safe_example :
    (IsTarget host 42 (codes "sh") × ((kill_process host 42 (codes "sh")).signalled ≡ 42 ∷ []))
    ⊎ ((¬ IsTarget host 42 (codes "sh"))
        × ((kill_process host 42 (codes "sh")).signalled ≡ [])
        × ((e : KillError) × ((kill_process host 42 (codes "sh")).error ≡ some e)))
kill_process-safe_example = kill_process-safe host 42 (codes "sh")

-- A process that is called ` sh`.
abbrev spaced : Host
spaced = record { read_comm = λ pid. some (codes " sh" ++ 10 ∷ []); deliver = λ pid. true }

spaced_not_clean : ¬ (BeginsClean (codes " sh") × EndsClean (codes " sh"))
spaced_not_clean = λ (b, e). cc

untrimmed-spared_example : (kill_process spaced 42 (codes " sh")).signalled ≡ []
untrimmed-spared_example = untrimmed-spared spaced 42 (codes " sh") spaced_not_clean

-- Two records, an error between them, and the error after the cancellation.
abbrev reads : List Read
reads =
    sample (codes "a") ∷ failed false ∷ sample (codes "b") ∷ failed true ∷ sample (codes "c") ∷ []

abbrev collect : Bytes → List Bytes → List Bytes
collect raw seen = raw ∷ seen

run-delivered_example :
    run collect reads [] ≡ (handle_all collect (delivered reads) [], is_stopped reads)
run-delivered_example = run-delivered collect reads []

-- The map appears at the second attempt.
abbrev late_map : ℕ → Attempt
late_map zero = record { loads = false; attaches = true }
late_map (suc i) = record { loads = true; attaches = true }

open_with_retry-StartsUp_example : StartsUp late_map 3 0 none 0 (open_with_retry late_map (pos 3))
open_with_retry-StartsUp_example = open_with_retry-StartsUp late_map (pos 3)
