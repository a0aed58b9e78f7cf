-- ===== src/Broker/Main/Accepted.antt =====
-- Which events the moves of a run of `main` accept.
use agentic_ebpf_patrol.Prelude.{
  ℕ, ◌+◌, ◌≡◌, refl, ap, ◌∙◌, inl, inr, ℤ, Bool, List, [], ◌∷◌, ◌++◌, append-nil, append_assoc,
  Bytes, ok, err, panic, All, Option-cases, Result-cases, Bool-cases, arith, if◌then◌else◌,
}
use agentic_ebpf_patrol.Events.{Event, Decoded, decode}
use agentic_ebpf_patrol.Triage.{is_suspicious}
use agentic_ebpf_patrol.Hunter.Respond.{Host}
use agentic_ebpf_patrol.Pipeline.Log.{Write, Entry}
use agentic_ebpf_patrol.Pipeline.{Pipeline, Call, ask}
use agentic_ebpf_patrol.Pipeline.Draining.{Drain, drain_begin}
use agentic_ebpf_patrol.Pipeline.System.{
  World, Move, receive, take_event, judge, tick, replay, finish, receive_raw, received,
  receive_event, take_queued, pick, judge_event, begin_pass, replay_event, replay_next, finish_pass,
  step, start, run,
}
use agentic_ebpf_patrol.Pipeline.System.Counts.{handle_raw-ok, handle_raw-err, handle_raw-panic}
use agentic_ebpf_patrol.Broker.Main.{Setting}
use agentic_ebpf_patrol.Broker.Main.Reads.{moves_from, moves_of, run-append}

-- The event of a record, if it decodes and is suspicious.
abbrev pub suspect : Decoded Event → List Event
suspect (ok ev) = if is_suspicious ev then ev ∷ [] else []
suspect (err e) = []
suspect panic = []

-- The suspicious events of the records, in order.
abbrev pub suspects : ℤ → List Bytes → List Event
suspects boot_wall [] = []
suspects boot_wall (raw ∷ raws) = suspect (decode boot_wall raw) ++ suspects boot_wall raws

-- A move of a goroutine that is not the reader.
abbrev pub IsOther : Move → Type 0
IsOther (receive boot_wall audit_write overflow_write raw) = ⊥
IsOther take_event = Unit {0}
IsOther (judge i host call) = Unit {0}
IsOther (tick os) = Unit {0}
IsOther (replay call) = Unit {0}
IsOther (finish removed) = Unit {0}

take_queued-accepted : (evs : List Event) (w : World) → (take_queued evs w).accepted ≡ w.accepted
unfolding take_queued
take_queued-accepted [] w = refl
take_queued-accepted (ev ∷ evs) w = ground arith

pub judge_event-accepted :
    (host : Host) (call : Call) (ev : Event) (others : List Event) (w : World)
    → (judge_event host call ev others w).accepted ≡ w.accepted
unfolding judge_event
judge_event-accepted host call ev others w = elim (Option-cases (ask call w.pipe)) [
  | inl a ↦ rw (a, judge_event) refl
  | inr (v, a) ↦ rw (a, judge_event) refl
]

pub begin_pass-accepted : (os : Drain) (w : World) → (begin_pass os w).accepted ≡ w.accepted
unfolding begin_pass
begin_pass-accepted os w = elim (Option-cases (drain_begin os w.pipe).1) [
  | inl d ↦ rw (d, begin_pass) refl
  | inr (es, d) ↦ rw (d, begin_pass) refl
]

pub replay_event-accepted :
    (call : Call) (ev : Event) (es : List Entry) (counts : ℕ × ℕ) (w : World)
    → (replay_event call ev es counts w).accepted ≡ w.accepted
unfolding replay_event
replay_event-accepted call ev es counts w = ground arith

replay_next-accepted :
    (call : Call) (es : List Entry) (counts : ℕ × ℕ) (w : World)
    → (replay_next call es counts w).accepted ≡ w.accepted
unfolding replay_next
replay_next-accepted call [] counts w = refl
replay_next-accepted call (Entry.torn ∷ es) counts w = refl
replay_next-accepted call (Entry.line ev ∷ es) counts w = replay_event-accepted call ev es counts w

pub finish_pass-accepted :
    (removed : Bool) (es : List Entry) (counts : ℕ × ℕ) (w : World)
    → (finish_pass removed es counts w).accepted ≡ w.accepted
unfolding finish_pass
finish_pass-accepted removed [] counts w = refl
finish_pass-accepted removed (Entry.torn ∷ es) counts w = refl
finish_pass-accepted removed (Entry.line ev ∷ es) counts w = refl

step-accepted : (m : Move) (w : World) → IsOther m → (step m w).accepted ≡ w.accepted
unfolding step
step-accepted (receive boot_wall aw ow raw) w o = absurd o
step-accepted take_event w o = take_queued-accepted w.pipe.queue w
step-accepted (judge i host call) w o = elim (Option-cases (pick i w.in_hand)) [
  | inl n ↦ rw (n, step) refl
  | inr ((ev, others), n) ↦ rw (n, step) (judge_event-accepted host call ev others w)
]
step-accepted (tick os) w o = elim (Option-cases w.replaying) [
  | inr (r, n) ↦ rw (n, step) refl
  | inl n ↦ rw (n, step) (begin_pass-accepted os w)
]
step-accepted (replay call) w o = elim (Option-cases w.replaying) [
  | inl n ↦ rw (n, step) refl
  | inr (r, n) ↦ rw (n, step) (replay_next-accepted call r.entries (r.replayed, r.respilled) w)
]
step-accepted (finish removed) w o = elim (Option-cases w.replaying) [
  | inl n ↦ rw (n, step) refl
  | inr (r, n) ↦ rw (n, step) (finish_pass-accepted removed r.entries (r.replayed, r.respilled) w)
]

run-accepted : (ms : List Move) (w : World) → All IsOther ms → (run ms w).accepted ≡ w.accepted
unfolding run
run-accepted [] w o = refl
run-accepted (m ∷ ms) w (o, os) = run-accepted ms (step m w) os ∙ step-accepted m w o

receive_raw-accepted :
    (boot_wall : ℤ) (aw ow : Write) (raw : Bytes) (w : World)
    → (receive_raw boot_wall aw ow raw w).accepted ≡ w.accepted ++ suspect (decode boot_wall raw)
unfolding receive_raw received receive_event
receive_raw-accepted boot_wall aw ow raw w = elim (Result-cases (decode boot_wall raw)) [
  | inl (ev, d) ↦
      rw (handle_raw-ok boot_wall aw ow raw w.pipe d, d)
        (elim (Bool-cases (is_suspicious ev)) [
          | inl y ↦ rw y refl
          | inr y ↦ rw (y, append-nil) refl
        ])
  | inr (inl (x, d)) ↦ rw (handle_raw-err boot_wall aw ow raw w.pipe d, d, append-nil) refl
  | inr (inr d) ↦ rw (handle_raw-panic boot_wall aw ow raw w.pipe d, d, append-nil) refl
]

-- No goroutine but the reader hands over records.
abbrev pub OneReader : Setting → Type 0
OneReader s = All IsOther s.before × ((i : ℕ) → All IsOther (s.round i).others)

moves_from-accepted :
    (s : Setting) (raws : List Bytes) (i : ℕ) (w : World)
    → ((j : ℕ) → All IsOther (s.round j).others)
    → (run (moves_from s i raws) w).accepted ≡ w.accepted ++ suspects s.boot_wall raws
unfolding run step
moves_from-accepted s [] i w o = rw append-nil refl
moves_from-accepted s (raw ∷ raws) i w o =
    let r = s.round i in
    let w1 = receive_raw s.boot_wall r.audit_write r.overflow_write raw w in
    let w2 = run r.others w1 in
    let here = receive_raw-accepted s.boot_wall r.audit_write r.overflow_write raw w in
    let between = run-accepted r.others w1 (o i) in
    let later = moves_from-accepted s raws (i + 1) w2 o in
    rw (run-append r.others (moves_from s (i + 1) raws) w1) (
      later
      ∙ ap (λ a. a ++ suspects s.boot_wall raws) (between ∙ here)
      ∙ append_assoc w.accepted (suspect (decode s.boot_wall raw)) (suspects s.boot_wall raws))

pub moves_of-accepted :
    (s : Setting) (raws : List Bytes) (q : Pipeline)
    → OneReader s
    → (run (moves_of s raws) (start q)).accepted ≡ suspects s.boot_wall raws
moves_of-accepted s raws q (before, between) =
    let fresh : (start q).accepted ≡ [] = unfold start in refl in
    rw (run-append s.before (moves_from s 0 raws) (start q)) (
      moves_from-accepted s raws 0 (run s.before (start q)) between
      ∙ ap (λ a. a ++ suspects s.boot_wall raws) (run-accepted s.before (start q) before ∙ fresh))
