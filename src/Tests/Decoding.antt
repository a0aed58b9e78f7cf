-- ===== src/Tests/Decoding.antt =====
-- Decoding and triage of the record for `/tmp/x`.
use agentic_ebpf_patrol.Prelude.{
  none, ◌≤ℤ◌, [], ◌∷◌, ◌+ℤ◌, ◌<◌, ◌≤◌, ◌≡◌, ◌↔◌, ◌⊎◌, refl, inr, pos, true, ok, err, length, codes,
  arith,
}
use agentic_ebpf_patrol.Text.{trim_space, join}
use agentic_ebpf_patrol.Events.{Event, event_size, short_record, decode}
use agentic_ebpf_patrol.Events.Bounds.{IsWellFormed, decode-total}
use agentic_ebpf_patrol.Events.Clock.{
  no_number, elapsed_ns, decode_anchored, anchor_after, decode_anchored-ordered,
}
use agentic_ebpf_patrol.Triage.{is_suspicious}
use agentic_ebpf_patrol.Triage.Names.{BaseOf}
use agentic_ebpf_patrol.Triage.Spec.{Heuristic, is_suspicious_iff}
use agentic_ebpf_patrol.Tests.{raw_record, raw_record-IsByte, dropped}

decode-total_example :
    (length raw_record < event_size)
      × (decode (pos 7) raw_record ≡ err (short_record (length raw_record)))
    ⊎ ((e : Event) × (event_size ≤ length raw_record)
        × (decode (pos 7) raw_record ≡ ok e)
        × IsWellFormed e)
decode-total_example = decode-total (pos 7) raw_record raw_record-IsByte

-- The record decodes to the event that the other tests use.
decode_record : decode (pos 0) raw_record ≡ ok (record dropped { timestamp = pos 0 +ℤ pos 0 })
unfolding decode trim_space join
decode_record = refl

dropped-BaseOf : BaseOf dropped.filename (codes "x")
dropped-BaseOf = ((λ e. cc, tt), inr (codes "/tmp", refl))

is_suspicious_iff_example : (is_suspicious dropped ≡ true) ↔ Heuristic dropped (codes "x")
is_suspicious_iff_example = is_suspicious_iff dropped (codes "x") dropped-BaseOf

dropped_suspected : is_suspicious dropped ≡ true
unfolding is_suspicious
dropped_suspected = refl

-- The wall clock goes back by an hour between the two records.
decode_anchored-ordered_example :
    let (first, anchor) =
      decode_anchored (elapsed_ns (pos 60_000_000_000)) (pos 7_200_000_000_000) raw_record none in
    let later = anchor_after ((no_number, pos 5, []) ∷ []) anchor in
    let second = (decode_anchored no_number (pos 3_600_000_000_000) raw_record later).0 in
    (e e' : Event) × (first ≡ ok e) × (second ≡ ok e') × (e.timestamp ≤ℤ e'.timestamp)
decode_anchored-ordered_example =
    decode_anchored-ordered (elapsed_ns (pos 60_000_000_000)) no_number (pos 7_200_000_000_000)
      (pos 3_600_000_000_000) raw_record raw_record ((no_number, pos 5, []) ∷ []) none (omega arith)
      (omega arith) (omega arith) (omega arith)
