-- ===== src/Ingest/Order.antt =====
-- The records that `Run` hands over.
use agentic_ebpf_patrol.Prelude.{◌≡◌, refl, Bool, true, false, List, [], ◌∷◌, Bytes}
use agentic_ebpf_patrol.Ingest.{Read, sample, failed, run}

-- The records before the first error that finds the context cancelled.
abbrev pub delivered : List Read → List Bytes
delivered [] = []
delivered (sample raw ∷ reads) = raw ∷ delivered reads
delivered (failed true ∷ reads) = []
delivered (failed false ∷ reads) = delivered reads

abbrev pub is_stopped : List Read → Bool
is_stopped [] = false
is_stopped (sample raw ∷ reads) = is_stopped reads
is_stopped (failed true ∷ reads) = true
is_stopped (failed false ∷ reads) = is_stopped reads

-- The handler called on each record in turn.
abbrev pub handle_all {ℓ} : {S : Type ℓ} → (Bytes → S → S) → List Bytes → S → S
handle_all handle [] s = s
handle_all handle (raw ∷ raws) s = handle_all handle raws (handle raw s)

-- Whatever the reads give, `Run` hands over every record before the first error that finds the
-- context cancelled, once, in order, and none behind it; it returns exactly at that error, and no
-- other error ends it.
pub run-delivered {ℓ} :
    {S : Type ℓ} (handle : Bytes → S → S) (reads : List Read) (s : S)
    → run handle reads s ≡ (handle_all handle (delivered reads) s, is_stopped reads)
unfolding run
run-delivered handle [] s = refl
run-delivered handle (sample raw ∷ reads) s = run-delivered handle reads (handle raw s)
run-delivered handle (failed true ∷ reads) s = refl
run-delivered handle (failed false ∷ reads) s = run-delivered handle reads s
