-- ===== src/Ingest.antt =====
-- broker/internal/ingest/ringbuf_reader.go: the reader of the pinned ring buffer. The map and the
-- ring buffer are the cilium/ebpf library's: what they answer is an argument.
pub mod Order
use agentic_ebpf_patrol.Prelude.{
  Bool, true, false, not, ◌&&◌, List, [], ◌∷◌, Option, none, some, Bytes, Result, ok, err,
  if◌then◌else◌,
}

pub data OpenError : Type 0 where
  load_pinned_map attach_reader : OpenError

-- Which of the two handles is open.
pub record Reader : Type 0 where
  pub map_open : Bool
  pub ring_open : Bool

-- `Open`, given whether `LoadPinnedMap` and `NewReader` succeed: the handles as they are left, and
-- the error.
unfoldable pub open_reader : Bool → Bool → Reader × Option OpenError
open_reader loads attaches =
    if not loads
    then (record { map_open = false; ring_open = false }, some load_pinned_map)
    else if not attaches
    then (record { map_open = false; ring_open = false }, some attach_reader)
    else (record { map_open = true; ring_open = true }, none)

-- `Close`, given the errors of the two handles: both are closed, and the first error is returned.
unfoldable pub close_reader {ℓ} : {E : Type ℓ} → Option E → Option E → Reader → Reader × Option E
close_reader none map_error r = (record r { map_open = false; ring_open = false }, map_error)
close_reader (some e) map_error r = (record r { map_open = false; ring_open = false }, some e)

-- What one `Read` gives: a record, or an error, with whether the context is cancelled by then.
pub data Read : Type 0 where
  sample : Bytes → Read
  failed : Bool → Read

-- The loop of `Run` over what the reads give, with a handler that changes a state: the state, and
-- whether `Run` has returned.
unfoldable pub run {ℓ} : {S : Type ℓ} → (Bytes → S → S) → List Read → S → S × Bool
run handle [] s = (s, false)
run handle (sample raw ∷ reads) s = run handle reads (handle raw s)
run handle (failed true ∷ reads) s = (s, true)
run handle (failed false ∷ reads) s = run handle reads s
