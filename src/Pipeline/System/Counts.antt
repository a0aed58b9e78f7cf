-- ===== src/Pipeline/System/Counts.antt =====
-- What the parts of a move do to the counts of events in the queue and in the overflow file.
use agentic_ebpf_patrol.Prelude.{
  ℕ, ℤ, ◌+◌, ◌≡◌, refl, ap, ◌∙◌, inl, inr, Bool, true, false, List, [], ◌∷◌, ◌++◌, Option, none,
  some, Bytes, codes, length, count, count-append, bytes_eq, ok, err, panic, ltb, Bool-cases,
  Option-cases, arith, if◌then◌else◌,
}
use mathlib.Core.Bool.{false≢true}
use agentic_ebpf_patrol.Events.{Event, DecodeError, decode}
use agentic_ebpf_patrol.Hunter.{Verdict, action_kill}
use agentic_ebpf_patrol.Pipeline.Counters.{add}
use agentic_ebpf_patrol.Hunter.Respond.{Host}
use agentic_ebpf_patrol.Pipeline.Log.{
  AppendLog, Entry, line, torn, Write, whole, nothing, partial, written, is_whole, append, Rotation,
  rotate, reopen, created, json_event,
}
use agentic_ebpf_patrol.Pipeline.{
  Pipeline, Call, ask, spill, dispatch, handle_event, handle_raw, act_on, evaluate,
}
use agentic_ebpf_patrol.Pipeline.Draining.{Drain, drain_begin, drain_end, content}
use agentic_ebpf_patrol.Pipeline.System.{
  Replaying, lines, file_lines, spill_loss, dispatch_loss, has_file, stranded,
}

-- An open log has a file.
abbrev pub HasFile : AppendLog → Type 0
HasFile log = log.is_open ≡ true → has_file log.live ≡ true

abbrev pub pass_lines : Option Replaying → List Event
pass_lines none = []
pass_lines (some r) = lines r.entries

lines-append : (es : List Entry) (ev : Event) → lines (es ++ line ev ∷ []) ≡ lines es ++ ev ∷ []
lines-append [] ev = refl
lines-append (torn ∷ es) ev = lines-append es ev
lines-append (line e ∷ es) ev = ap (λ t. e ∷ t) (lines-append es ev)

lines-append_torn : (es : List Entry) → lines (es ++ torn ∷ []) ≡ lines es
lines-append_torn [] = refl
lines-append_torn (torn ∷ es) = lines-append_torn es
lines-append_torn (line e ∷ es) = ap (λ t. e ∷ t) (lines-append_torn es)

no_file : (log : AppendLog) → log.live ≡ none → has_file log.live ≡ true → ⊥
no_file log n h = ground arith

has_file-written :
    (w : Write) (ev : Event) (file : Option (List Entry))
    → has_file (written w ev file) ≡ has_file file
has_file-written whole ev none = refl
has_file-written whole ev (some es) = refl
has_file-written nothing ev file = refl
has_file-written partial ev none = refl
has_file-written partial ev (some es) = refl

pub append-HasFile :
    (w : Write) (ev : Event) (log : AppendLog) → HasFile log → HasFile (append w ev log).0
unfolding append
append-HasFile w ev log h = elim (Bool-cases log.writer_failed) [
  | inl f ↦ rw f h
  | inr f ↦ elim (Bool-cases log.is_open) [
    | inl o ↦ rw (f, o) (λ _. has_file-written w ev log.live ∙ h o)
    | inr o ↦ rw (f, o) (λ c. absurd (false≢true c))
  ]
]

pub created-has_file : (file : Option (List Entry)) → has_file (created file) ≡ true
created-has_file none = refl
created-has_file (some es) = refl

pub rotate-HasFile : (os : Rotation) (log : AppendLog) → HasFile log → HasFile (rotate os log).0
unfolding rotate reopen
rotate-HasFile os log h = ground arith

pub replay_path-ne-nil : (path : Bytes) → bytes_eq (path ++ codes ".replay") [] ≡ false
replay_path-ne-nil [] = refl
replay_path-ne-nil (c ∷ path) = refl

-- What `spill` leaves and changes.
pub spill-queue : (w : Write) (ev : Event) (p : Pipeline) → (spill w ev p).queue ≡ p.queue
unfolding spill
spill-queue w ev p = elim (Bool-cases (append w ev p.overflow).1) [ inl f ↦ rw f | inr f ↦ rw f ]

pub spill-overflow :
    (w : Write) (ev : Event) (p : Pipeline) → (spill w ev p).overflow ≡ (append w ev p.overflow).0
unfolding spill
spill-overflow w ev p = elim (Bool-cases (append w ev p.overflow).1) [ inl f ↦ rw f | inr f ↦ rw f ]

pub drain_begin-queue : (os : Drain) (q : Pipeline) → (drain_begin os q).0.queue ≡ q.queue
unfolding drain_begin
drain_begin-queue os q = ground arith

-- The end of a pass leaves the queue and the log at the path.
pub drain_end-queue :
    (removed : Bool) (n m : ℕ) (q : Pipeline) → (drain_end removed n m q).queue ≡ q.queue
unfolding drain_end
drain_end-queue removed n m q = ground arith

pub drain_end-live :
    (removed : Bool) (n m : ℕ) (q : Pipeline)
    → (drain_end removed n m q).overflow.live ≡ q.overflow.live
unfolding drain_end
drain_end-live removed n m q = ground arith

pub drain_end-writer :
    (removed : Bool) (n m : ℕ) (q : Pipeline)
    → (drain_end removed n m q).overflow.writer_failed ≡ q.overflow.writer_failed
unfolding drain_end
drain_end-writer removed n m q = ground arith

pub drain_end-is_open :
    (removed : Bool) (n m : ℕ) (q : Pipeline)
    → (drain_end removed n m q).overflow.is_open ≡ q.overflow.is_open
unfolding drain_end
drain_end-is_open removed n m q = ground arith

-- What `HandleRaw` is on a record that decodes, and on one that does not.
pub handle_raw-ok :
    (boot_wall : ℤ) (aw ow : Write) (raw : Bytes) (q : Pipeline) {ev : Event}
    → decode boot_wall raw ≡ ok ev
    → handle_raw boot_wall aw ow raw q ≡ some (handle_event aw ow ev q)
unfolding handle_raw
handle_raw-ok boot_wall aw ow raw q d = rw (d, handle_raw)

abbrev pub undecoded : Pipeline → Pipeline
undecoded q =
    let m = q.metrics in record q { metrics = record m { decode_errors = add m.decode_errors 1 } }

pub handle_raw-err :
    (boot_wall : ℤ) (aw ow : Write) (raw : Bytes) (q : Pipeline) {e : DecodeError}
    → decode boot_wall raw ≡ err e
    → handle_raw boot_wall aw ow raw q ≡ some (undecoded q)
unfolding handle_raw
handle_raw-err boot_wall aw ow raw q d = rw (d, handle_raw)

pub handle_raw-panic :
    (boot_wall : ℤ) (aw ow : Write) (raw : Bytes) (q : Pipeline)
    → decode boot_wall raw ≡ panic
    → handle_raw boot_wall aw ow raw q ≡ none
unfolding handle_raw
handle_raw-panic boot_wall aw ow raw q d = rw (d, handle_raw)

-- What `evaluate` leaves, by the hunter's answer.
abbrev pub hunter_failed : Pipeline → Pipeline
hunter_failed q =
    let m = q.metrics in record q { metrics = record m { hunter_errors = add m.hunter_errors 1 } }

pub evaluate-none :
    (host : Host) (call : Call) (ev : Event) (q : Pipeline)
    → ask call q ≡ none
    → (evaluate host call ev q).0 ≡ spill call.write ev (hunter_failed q)
unfolding evaluate act_on
evaluate-none host call ev q n = rw (n, act_on)

pub evaluate-some :
    (host : Host) (call : Call) (ev : Event) (q : Pipeline) {v : Verdict}
    → ask call q ≡ some v
    → ((evaluate host call ev q).0.queue ≡ q.queue)
      × ((evaluate host call ev q).0.overflow ≡ q.overflow)
unfolding evaluate act_on
evaluate-some host call ev q {v} n = elim (Bool-cases (bytes_eq v.action action_kill)) [
  | inl k ↦ rw (n, act_on, k) (refl, refl)
  | inr k ↦ rw (n, act_on, k) (refl, refl)
]

-- A test of events that the way through JSON does not change.
module _ (p : Event → Bool) (kept : (e : Event) → p (json_event e) ≡ p e) where
  written-count :
      (w : Write) (ev : Event) (es : List Entry)
      → count p (file_lines (written w ev (some es)))
        ≡ (if is_whole w then count p (ev ∷ []) + count p (lines es) else count p (lines es))
  written-count whole ev es =
      rw (lines-append es (json_event ev))
        (ground (arith, count-append p (lines es) (json_event ev ∷ []), kept ev))
  written-count nothing ev es = refl
  written-count partial ev es = rw (lines-append_torn es)

  -- A spilled event is in the file or among the losses.
  pub append-count :
      (w : Write) (ev : Event) (log : AppendLog)
      → HasFile log
      → count p (file_lines (append w ev log).0.live) + count p (spill_loss w ev log)
        ≡ count p (ev ∷ []) + count p (file_lines log.live)
  unfolding append
  append-count w ev log h = elim (Bool-cases log.writer_failed) [
    | inl f ↦ rw f (ground arith)
    | inr f ↦ elim (Bool-cases log.is_open) [
      | inr o ↦ rw (f, o) (ground arith)
      | inl o ↦ elim (Option-cases log.live) [
        | inl n ↦ absurd (no_file log n (h o))
        | inr (es, n) ↦ rw (f, o, n) (ground (arith, written-count w ev es))
      ]
    ]
  ]

  pub dispatch-count :
      (w : Write) (ev : Event) (q : Pipeline)
      → HasFile q.overflow
      → count p (dispatch w ev q).queue
          + count p (file_lines (dispatch w ev q).overflow.live)
          + count p (dispatch_loss w ev q)
        ≡ count p q.queue + count p (file_lines q.overflow.live) + count p (ev ∷ [])
  unfolding dispatch
  dispatch-count w ev q h = elim (Bool-cases (ltb (length q.queue) q.capacity)) [
    | inl room ↦ rw room (omega (arith, count-append p q.queue (ev ∷ [])))
    | inr full ↦
        let m = q.metrics in
        let q' : Pipeline = record q {
          metrics = record m { queue_overflows = add m.queue_overflows 1 };
        } in
        rw (full, spill-queue w ev q', spill-overflow w ev q')
          (omega (arith, append-count w ev q.overflow h))
  ]

  pub drain_begin-count :
      (os : Drain) (q : Pipeline)
      → count p (file_lines (drain_begin os q).0.overflow.live)
          + count p (lines (content (drain_begin os q).1))
          + count p (stranded os q.overflow)
        ≡ count p (file_lines q.overflow.live)
  unfolding drain_begin rotate reopen
  drain_begin-count os q = ground (arith, replay_path-ne-nil q.overflow.path)
