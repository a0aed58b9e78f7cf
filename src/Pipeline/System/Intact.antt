-- ===== src/Pipeline/System/Intact.antt =====
-- The overflow log holds whole lines while its writer works.
use mathlib.Core.Bool.{false≢true}
use agentic_ebpf_patrol.Prelude.{
  ◌≡◌, refl, sym, inl, inr, Bool, true, false, not, List, [], ◌∷◌, ◌++◌, Option, none, some, length,
  ltb, Bool-cases, Option-cases, arith,
}
use agentic_ebpf_patrol.Events.{Event}
use agentic_ebpf_patrol.Triage.{is_suspicious}
use agentic_ebpf_patrol.Hunter.Respond.{Host}
use agentic_ebpf_patrol.Pipeline.Log.{
  AppendLog, Entry, line, torn, Write, whole, nothing, partial, is_whole, append, rotate, reopen,
  written, json_event,
}
use agentic_ebpf_patrol.Pipeline.{
  Pipeline, Call, ask, spill, dispatch, handle_event, audited, count_suspicious, evaluate,
}
use agentic_ebpf_patrol.Pipeline.Draining.{Drain, drain_begin, content}
use agentic_ebpf_patrol.Pipeline.Counters.{add}
use agentic_ebpf_patrol.Pipeline.System.{
  Replaying, World, stranded, Move, receive, take_event, judge, tick, replay, finish,
}
use agentic_ebpf_patrol.Pipeline.System.Counts.{
  spill-overflow, hunter_failed, evaluate-none, evaluate-some, replay_path-ne-nil,
}

-- Every entry decodes.
abbrev pub no_torn : List Entry → Bool
no_torn [] = true
no_torn (torn ∷ es) = false
no_torn (line ev ∷ es) = no_torn es

abbrev pub pass_entries : Option Replaying → List Entry
pass_entries none = []
pass_entries (some r) = r.entries

-- While its writer works, the log holds whole lines.
abbrev pub Intact : AppendLog → Type 0
Intact log = log.writer_failed ≡ false → no_torn (content log.live) ≡ true

-- In a tick a file that was moved aside is replaced and opened: the system does not fail between.
abbrev pub IsKind : Move → Type 0
IsKind (receive boot_wall aw ow raw) = Unit
IsKind take_event = Unit
IsKind (judge i host call) = Unit
IsKind (tick os) = (os.rotation.reopens ≡ true) × (os.opened ≡ true)
IsKind (replay call) = Unit
IsKind (finish removed) = Unit

pub record IsLossless (w : World) : Type 0 where
  pub intact : Intact w.pipe.overflow
  pub pass_intact : no_torn (pass_entries w.replaying) ≡ true
  pub none_abandoned : w.abandoned ≡ []

no_torn-append :
    (es : List Entry) (ev : Event) → no_torn es ≡ true → no_torn (es ++ line ev ∷ []) ≡ true
no_torn-append [] ev h = refl
no_torn-append (torn ∷ es) ev h = h
no_torn-append (line e ∷ es) ev h = no_torn-append es ev h

written-intact :
    (ev : Event) (file : Option (List Entry))
    → no_torn (content file) ≡ true
    → no_torn (content (written whole ev file)) ≡ true
written-intact ev none h = refl
written-intact ev (some es) h = no_torn-append es (json_event ev) h

append-Intact : (w : Write) (ev : Event) (log : AppendLog) → Intact log → Intact (append w ev log).0
unfolding append
append-Intact w ev log h = elim (Bool-cases log.writer_failed) [
  | inl f ↦ rw f (λ c. absurd (false≢true (sym c)))
  | inr f ↦ elim (Bool-cases log.is_open) [
    | inl o ↦ rw (f, o) (by_write w (h f))
    | inr o ↦ rw (f, o) (λ c. absurd (false≢true (sym c)))
  ]
]
  where
    by_write :
        (v : Write)
        → no_torn (content log.live) ≡ true
        → not (is_whole v) ≡ false
        → no_torn (content (written v ev log.live)) ≡ true
    by_write whole i c = written-intact ev log.live i
    by_write nothing i c = cc
    by_write partial i c = cc

pub spill-Intact :
    (w : Write) (ev : Event) (q : Pipeline) → Intact q.overflow → Intact (spill w ev q).overflow
spill-Intact w ev q h = rw (spill-overflow w ev q) (append-Intact w ev q.overflow h)

dispatch-Intact :
    (w : Write) (ev : Event) (q : Pipeline) → Intact q.overflow → Intact (dispatch w ev q).overflow
unfolding dispatch
dispatch-Intact w ev q h = elim (Bool-cases (ltb (length q.queue) q.capacity)) [
  | inl room ↦ rw room h
  | inr full ↦
      let m = q.metrics in
      rw full (
        spill-Intact w ev
          (record q { metrics = record m { queue_overflows = add m.queue_overflows 1 } }) h)
]

pub handle_event-Intact :
    (aw ow : Write) (ev : Event) (q : Pipeline)
    → Intact q.overflow
    → Intact (handle_event aw ow ev q).overflow
unfolding handle_event
handle_event-Intact aw ow ev q h = elim (Bool-cases (is_suspicious ev)) [
  | inl y ↦ rw y (dispatch-Intact ow ev (count_suspicious (audited aw ev q)) h)
  | inr y ↦ rw y h
]

pub evaluate-Intact :
    (host : Host) (call : Call) (ev : Event) (q : Pipeline)
    → Intact q.overflow
    → Intact (evaluate host call ev q).0.overflow
evaluate-Intact host call ev q h = elim (Option-cases (ask call q)) [
  | inl n ↦ rw (evaluate-none host call ev q n) (spill-Intact call.write ev (hunter_failed q) h)
  | inr (v, n) ↦ rw ((evaluate-some host call ev q n).1) h
]

-- The start of a pass: what it leaves at the path, what it hands over, and what it strands.
pub drain_begin-Intact :
    (os : Drain) (q : Pipeline)
    → os.rotation.reopens ≡ true
    → os.opened ≡ true
    → Intact q.overflow
    → Intact (drain_begin os q).0.overflow
      × (no_torn (content (drain_begin os q).1) ≡ true)
      × (stranded os q.overflow ≡ [])
drain_begin-Intact os q r o h = (
  unfold drain_begin rotate reopen in ground (arith, replay_path-ne-nil q.overflow.path),
  unfold drain_begin rotate reopen in ground (arith, replay_path-ne-nil q.overflow.path),
  ground arith,
)
