-- ===== src/Pipeline/System/Sound.antt =====
-- The invariant of the pipeline, and what each operation does to the queue.
use agentic_ebpf_patrol.Prelude.{
  ℕ, ◌%◌, ◌^◌, ◌≤◌, ◌≡◌, ap, inl, inr, List, [], ◌∷◌, ◌++◌, length, length-append, ltb→lt, ltb,
  Bool-cases, Option-cases, arith,
}
use agentic_ebpf_patrol.Events.{Event}
use agentic_ebpf_patrol.Triage.{is_suspicious}
use agentic_ebpf_patrol.Hunter.Respond.{Host}
use agentic_ebpf_patrol.Pipeline.Log.{Write}
use agentic_ebpf_patrol.Pipeline.{
  Pipeline, Call, ask, dispatch, handle_event, audited, count_suspicious, evaluate,
}
use agentic_ebpf_patrol.Pipeline.Draining.{replay_one}
use agentic_ebpf_patrol.Pipeline.Counters.{add}
use agentic_ebpf_patrol.Pipeline.System.{World, worker_count}
use agentic_ebpf_patrol.Pipeline.System.Counts.{HasFile, hunter_failed}
use agentic_ebpf_patrol.Pipeline.System.Counts.{spill-queue, evaluate-none, evaluate-some}
use agentic_ebpf_patrol.Pipeline.System.Effects.{Effect, handle_event-Effect}

-- The overflow log has a file while it is open; the queue and the workers keep to their bounds; two
-- counters tell, modulo 2^64, how many events were accepted and how many were reported as lost.
pub record IsSound (w : World) : Type 0 where
  pub has_log : HasFile w.pipe.overflow
  pub queue_bounded : length w.pipe.queue ≤ w.pipe.capacity
  pub hands_bounded : length w.in_hand ≤ worker_count w.pipe.cfg.workers
  pub lost_counted : w.pipe.metrics.events_lost ≡ length w.reported % 2 ^ 64
  pub suspicious_counted : w.pipe.metrics.suspicious_total ≡ length w.accepted % 2 ^ 64

-- How an effect carries the invariant over.
pub carry :
    {w w' : World} (lost accepted : List Event)
    → Effect w.pipe w'.pipe (length lost) (length accepted)
    → length w'.pipe.queue ≤ w'.pipe.capacity
    → length w'.in_hand ≤ length w.in_hand
    → w'.reported ≡ w.reported ++ lost
    → w'.accepted ≡ w.accepted ++ accepted
    → IsSound w
    → IsSound w'
carry {w = w} {w'} lost accepted e q h r a s =
    let workers = ap (λ c. worker_count c.workers) e.same_cfg in
    record {
      has_log = e.keeps_file s.has_log;
      queue_bounded = q;
      hands_bounded = rw workers (omega (arith, h, s.hands_bounded));
      lost_counted =
          rw (r, length-append w.reported lost) (e.counts_lost (length w.reported) s.lost_counted);
      suspicious_counted =
          rw (a, length-append w.accepted accepted)
            (e.counts_suspicious (length w.accepted) s.suspicious_counted);
    }

dispatch-bounded :
    (w : Write) (ev : Event) (q : Pipeline)
    → length q.queue ≤ q.capacity
    → length (dispatch w ev q).queue ≤ q.capacity
unfolding dispatch
dispatch-bounded w ev q h = elim (Bool-cases (ltb (length q.queue) q.capacity)) [
  | inl room ↦
      rw room
        (omega (arith, ltb→lt (length q.queue) q.capacity room, length-append q.queue (ev ∷ [])))
  | inr full ↦
      let m = q.metrics in
      rw
        (
          full,
          spill-queue w ev
              (record q { metrics = record m { queue_overflows = add m.queue_overflows 1 } }),
        )
        h
]

pub handle_event-bounded :
    (aw ow : Write) (ev : Event) (q : Pipeline)
    → length q.queue ≤ q.capacity
    → length (handle_event aw ow ev q).queue ≤ (handle_event aw ow ev q).capacity
handle_event-bounded aw ow ev q h =
    let capacity = (handle_event-Effect aw ow ev q).same_capacity in
    rw capacity (
      unfold handle_event in
      elim (Bool-cases (is_suspicious ev)) [
        | inl y ↦ rw y (dispatch-bounded ow ev (count_suspicious (audited aw ev q)) h)
        | inr y ↦ rw y h
      ])

pub evaluate-queue :
    (host : Host) (call : Call) (ev : Event) (q : Pipeline)
    → (evaluate host call ev q).0.queue ≡ q.queue
evaluate-queue host call ev q = elim (Option-cases (ask call q)) [
  | inl n ↦ rw (evaluate-none host call ev q n) (spill-queue call.write ev (hunter_failed q))
  | inr (v, n) ↦ (evaluate-some host call ev q n).0
]

pub replay_one-queue :
    (call : Call) (ev : Event) (q : Pipeline) → (replay_one call ev q).0.queue ≡ q.queue
unfolding replay_one
replay_one-queue call ev q = elim (Option-cases (ask call q)) [
  | inl n ↦ rw (n, replay_one) (spill-queue call.write ev q)
  | inr (v, n) ↦ rw (n, replay_one)
]

-- The queue is as it was, and so is its bound.
pub same-bounded :
    {q q' : Pipeline} {lost suspicious : ℕ}
    → Effect q q' lost suspicious
    → q'.queue ≡ q.queue
    → length q.queue ≤ q.capacity
    → length q'.queue ≤ q'.capacity
same-bounded e same h = omega (arith, ap length same, e.same_capacity, h)
