-- ===== src/Pipeline/System/Effects.antt =====
-- What each operation does to the bounds and to two of the counters.
use agentic_ebpf_patrol.Prelude.{
  ℕ, ◌+◌, ◌%◌, ◌^◌, ◌≡◌, refl, inl, inr, Bool, List, [], none, some, bytes_eq, length, ltb,
  Bool-cases, Option-cases, arith, if◌then◌else◌,
}
use agentic_ebpf_patrol.Events.{Event}
use agentic_ebpf_patrol.Triage.{is_suspicious}
use agentic_ebpf_patrol.Hunter.{action_kill}
use agentic_ebpf_patrol.Hunter.Respond.{Host}
use agentic_ebpf_patrol.Pipeline.Log.{Write, append}
use agentic_ebpf_patrol.Pipeline.{
  Pipeline, Call, ask, spill, dispatch, handle_event, audited, count_suspicious, act_on, evaluate,
}
use agentic_ebpf_patrol.Pipeline.Draining.{Drain, drain_begin, replay_one, drain_end}
use agentic_ebpf_patrol.Pipeline.Counters.{add}
use agentic_ebpf_patrol.Pipeline.System.{spill_loss, dispatch_loss}
use agentic_ebpf_patrol.Pipeline.System.Counts.{
  HasFile, append-HasFile, rotate-HasFile, undecoded, hunter_failed, drain_end-is_open,
  drain_end-live,
}

-- What a change of the pipeline keeps, beside the queue, and how far it moves two counters: by
-- `lost` and by `suspicious`.
pub record Effect (q q' : Pipeline) (lost suspicious : ℕ) : Type 0 where
  pub same_cfg : q'.cfg ≡ q.cfg
  pub same_capacity : q'.capacity ≡ q.capacity
  pub keeps_file : HasFile q.overflow → HasFile q'.overflow
  pub counts_lost :
      (n : ℕ) → q.metrics.events_lost ≡ n % 2 ^ 64 → q'.metrics.events_lost ≡ (n + lost) % 2 ^ 64
  pub counts_suspicious :
      (n : ℕ)
      → q.metrics.suspicious_total ≡ n % 2 ^ 64
      → q'.metrics.suspicious_total ≡ (n + suspicious) % 2 ^ 64

pub spill-Effect :
    (w : Write) (ev : Event) (q : Pipeline)
    → Effect q (spill w ev q) (length (spill_loss w ev q.overflow)) 0
unfolding spill
spill-Effect w ev q = elim (Bool-cases (append w ev q.overflow).1) [
  | inl f ↦ record {
    same_cfg = rw f;
    same_capacity = rw f;
    keeps_file = λ h. rw f (append-HasFile w ev q.overflow h);
    counts_lost = λ n e. rw f (omega arith);
    counts_suspicious = λ n e. rw f (omega arith);
  }
  | inr f ↦ record {
    same_cfg = rw f;
    same_capacity = rw f;
    keeps_file = λ h. rw f (append-HasFile w ev q.overflow h);
    counts_lost = λ n e. rw f (omega arith);
    counts_suspicious = λ n e. rw f (omega arith);
  }
]

pub dispatch-Effect :
    (w : Write) (ev : Event) (q : Pipeline)
    → Effect q (dispatch w ev q) (length (dispatch_loss w ev q)) 0
unfolding dispatch
dispatch-Effect w ev q = elim (Bool-cases (ltb (length q.queue) q.capacity)) [
  | inl room ↦ rw room (record {
    same_cfg = refl;
    same_capacity = refl;
    keeps_file = λ h. h;
    counts_lost = λ n e. omega arith;
    counts_suspicious = λ n e. omega arith;
  })
  | inr full ↦
      let m = q.metrics in
      let e =
        spill-Effect w ev
          (record q { metrics = record m { queue_overflows = add m.queue_overflows 1 } }) in
      rw full (record {
        same_cfg = e.same_cfg;
        same_capacity = e.same_capacity;
        keeps_file = e.keeps_file;
        counts_lost = e.counts_lost;
        counts_suspicious = e.counts_suspicious;
      })
]

pub handle_event-Effect :
    (aw ow : Write) (ev : Event) (q : Pipeline)
    → Effect q
        (handle_event aw ow ev q)
        (if is_suspicious ev then length (dispatch_loss ow ev q) else 0)
        (if is_suspicious ev then 1 else 0)
unfolding handle_event
handle_event-Effect aw ow ev q = elim (Bool-cases (is_suspicious ev)) [
  | inl s ↦
      let e = dispatch-Effect ow ev (count_suspicious (audited aw ev q)) in
      rw s (record {
        same_cfg = e.same_cfg;
        same_capacity = e.same_capacity;
        keeps_file = e.keeps_file;
        counts_lost = e.counts_lost;
        counts_suspicious = λ n h. omega (arith, e.counts_suspicious (n + 1) (omega arith));
      })
  | inr s ↦ rw s (record {
    same_cfg = refl;
    same_capacity = refl;
    keeps_file = λ h. h;
    counts_lost = λ n h. omega arith;
    counts_suspicious = λ n h. omega arith;
  })
]

-- Nothing that the invariant speaks of has changed.
still :
    (q q' : Pipeline)
    → q'.cfg ≡ q.cfg
    → q'.capacity ≡ q.capacity
    → (HasFile q.overflow → HasFile q'.overflow)
    → q'.metrics.events_lost ≡ q.metrics.events_lost
    → q'.metrics.suspicious_total ≡ q.metrics.suspicious_total
    → Effect q q' 0 0
still q q' c k f l s = record {
  same_cfg = c;
  same_capacity = k;
  keeps_file = f;
  counts_lost = λ n h. omega arith;
  counts_suspicious = λ n h. omega arith;
}

pub undecoded-Effect : (q : Pipeline) → Effect q (undecoded q) 0 0
undecoded-Effect q = still q (undecoded q) refl refl (λ h. h) refl refl

-- The losses of one evaluation.
abbrev pub ask_loss : Call → Event → Pipeline → List Event
ask_loss call ev q = elim (ask call q) [ none ↦ spill_loss call.write ev q.overflow | some v ↦ [] ]

pub evaluate-Effect :
    (host : Host) (call : Call) (ev : Event) (q : Pipeline)
    → Effect q (evaluate host call ev q).0 (length (ask_loss call ev q)) 0
unfolding evaluate act_on
evaluate-Effect host call ev q = elim (Option-cases (ask call q)) [
  | inl n ↦
      let e = spill-Effect call.write ev (hunter_failed q) in
      rw (n, act_on, ask_loss)
        (record {
          same_cfg = e.same_cfg;
          same_capacity = e.same_capacity;
          keeps_file = e.keeps_file;
          counts_lost = e.counts_lost;
          counts_suspicious = e.counts_suspicious;
        })
  | inr (v, n) ↦ elim (Bool-cases (bytes_eq v.action action_kill)) [
    | inl k ↦ rw (n, act_on, ask_loss, k) (still q _ refl refl (λ h. h) refl refl)
    | inr k ↦ rw (n, act_on, ask_loss, k) (still q q refl refl (λ h. h) refl refl)
  ]
]

pub replay_one-Effect :
    (call : Call) (ev : Event) (q : Pipeline)
    → Effect q (replay_one call ev q).0 (length (ask_loss call ev q)) 0
unfolding replay_one
replay_one-Effect call ev q = elim (Option-cases (ask call q)) [
  | inl n ↦ rw (n, replay_one, ask_loss) (spill-Effect call.write ev q)
  | inr (v, n) ↦ rw (n, replay_one, ask_loss) (still q q refl refl (λ h. h) refl refl)
]

pub drain_end-Effect :
    (removed : Bool) (n m : ℕ) (q : Pipeline) → Effect q (drain_end removed n m q) 0 0
drain_end-Effect removed n m q =
    still q (drain_end removed n m q) (unfold drain_end in ground arith)
      (unfold drain_end in ground arith)
      (λ h. rw (drain_end-is_open removed n m q, drain_end-live removed n m q) h)
      (unfold drain_end in ground arith) (unfold drain_end in ground arith)

pub drain_begin-Effect : (os : Drain) (q : Pipeline) → Effect q (drain_begin os q).0 0 0
drain_begin-Effect os q =
    still q (drain_begin os q).0 (unfold drain_begin in ground arith)
      (unfold drain_begin in ground arith)
      (λ h. unfold drain_begin in ground (arith, rotate-HasFile os.rotation q.overflow h))
      (unfold drain_begin in ground arith) (unfold drain_begin in ground arith)
