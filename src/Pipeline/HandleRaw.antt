-- ===== src/Pipeline/HandleRaw.antt =====
-- What `HandleRaw` does with a record.
use agentic_ebpf_patrol.Prelude.{
  ◌<◌, ◌≡◌, refl, ◌⊎◌, inl, inr, ℤ, true, false, List, [], ◌∷◌, ◌++◌, some, Bytes, length, All, ok,
  ltb, Bool-cases,
}
use agentic_ebpf_patrol.Events.{Event, event_size, decode}
use agentic_ebpf_patrol.Events.Bounds.{IsByte, decode-total}
use agentic_ebpf_patrol.Triage.{is_suspicious}
use agentic_ebpf_patrol.Pipeline.Log.{AppendLog, Entry, line, Write, whole, append, json_event}
use agentic_ebpf_patrol.Pipeline.Counters.{add}
use agentic_ebpf_patrol.Pipeline.{Pipeline, spill, dispatch, handle_event, handle_raw}

-- A record below 504 bytes is counted as a decode error and changes nothing else; any other is
-- handled as the event that it decodes to. In no case does `HandleRaw` panic.
pub handle_raw-total :
    (boot_wall : ℤ) (aw ow : Write) (raw : Bytes) (q : Pipeline)
    → All IsByte raw
    → ((length raw < event_size)
        × (handle_raw boot_wall aw ow raw q
            ≡ some (record q {
              metrics = record (q.metrics) { decode_errors = add q.metrics.decode_errors 1 };
            })))
      ⊎ ((ev : Event) × (decode boot_wall raw ≡ ok ev)
          × (handle_raw boot_wall aw ow raw q ≡ some (handle_event aw ow ev q)))
unfolding handle_raw
handle_raw-total boot_wall aw ow raw q k = elim (decode-total boot_wall raw k) [
  | inl (short, d) ↦ inl (short, rw (d, handle_raw))
  | inr (ev, full, d, fits) ↦ inr (ev, d, rw (d, handle_raw))
]

-- The audit write, well or badly ended, has no part in what becomes of the event.
pub handle_event-audit :
    (w v ow : Write) (ev : Event) (q : Pipeline)
    → ((handle_event w ow ev q).queue ≡ (handle_event v ow ev q).queue)
      × ((handle_event w ow ev q).overflow ≡ (handle_event v ow ev q).overflow)
      × ((handle_event w ow ev q).metrics ≡ (handle_event v ow ev q).metrics)
unfolding handle_event dispatch spill
handle_event-audit w v ow ev q = elim (Bool-cases (is_suspicious ev)) [
  | inr n ↦ rw n (refl, refl, refl)
  | inl y ↦ elim (Bool-cases (ltb (length q.queue) q.capacity)) [
    | inl room ↦ rw (y, room) (refl, refl, refl)
    | inr full ↦ elim (Bool-cases (append ow ev q.overflow).1) [
      | inl f ↦ rw (y, full, f) (refl, refl, refl)
      | inr f ↦ rw (y, full, f) (refl, refl, refl)
    ]
  ]
]

-- A log that takes writes.
abbrev pub Ready : AppendLog → List Entry → Type 0
Ready log es = (log.writer_failed ≡ false) × (log.is_open ≡ true) × (log.live ≡ some es)

pub append-Ready :
    (ev : Event) (log : AppendLog) (es : List Entry)
    → Ready log es
    → ((append whole ev log).0.live ≡ some (es ++ line (json_event ev) ∷ []))
      × ((append whole ev log).1 ≡ false)
unfolding append
append-Ready ev log es (f, o, l) = (rw (f, o, l), rw (f, o))

handle_event-audit_log :
    (w ow : Write) (ev : Event) (q : Pipeline)
    → (handle_event w ow ev q).audit ≡ (append w ev q.audit).0
unfolding handle_event dispatch spill
handle_event-audit_log w ow ev q = elim (Bool-cases (is_suspicious ev)) [
  | inr n ↦ rw n
  | inl y ↦ elim (Bool-cases (ltb (length q.queue) q.capacity)) [
    | inl room ↦ rw (y, room)
    | inr full ↦ elim (Bool-cases (append ow ev q.overflow).1) [
      | inl f ↦ rw (y, full, f)
      | inr f ↦ rw (y, full, f)
    ]
  ]
]

-- Every decoded event is the next line of the audit log, suspicious or not, if the log takes writes
-- and this write succeeds.
pub handle_event-audited :
    (ow : Write) (ev : Event) (q : Pipeline) (es : List Entry)
    → Ready q.audit es
    → (handle_event whole ow ev q).audit.live ≡ some (es ++ line (json_event ev) ∷ [])
handle_event-audited ow ev q es r =
    rw (handle_event-audit_log whole ow ev q) (append-Ready ev q.audit es r).0

-- What becomes of one event: it is queued, it is the next line of the overflow file, or it is
-- counted as lost.
abbrev pub IsQueued : Event → Pipeline → Pipeline → Type 0
IsQueued ev q q' =
    (q'.queue ≡ q.queue ++ ev ∷ [])
    × (q'.overflow ≡ q.overflow)
    × (q'.metrics.events_lost ≡ q.metrics.events_lost)

abbrev pub IsSpilled : Event → Pipeline → Pipeline → Type 0
IsSpilled ev q q' =
    (q'.queue ≡ q.queue)
    × (q'.overflow ≡ (append whole ev q.overflow).0)
    × (q'.metrics.events_lost ≡ q.metrics.events_lost)

abbrev pub IsCounted : Pipeline → Pipeline → Type 0
IsCounted q q' = (q'.queue ≡ q.queue) × (q'.metrics.events_lost ≡ add q.metrics.events_lost 1)
