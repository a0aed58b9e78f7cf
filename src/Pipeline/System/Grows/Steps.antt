-- ===== src/Pipeline/System/Grows/Steps.antt =====
-- broker/internal/pipeline/pipeline.go: each move of the goroutines, by what it offers and closes.
use mathlib.Core.Path.{subst}
use agentic_ebpf_patrol.Hunter.{Verdict}
use agentic_ebpf_patrol.Prelude.{
  not, true, ℕ, ◌≡◌, refl, inl, inr, Bool, List, [], ◌∷◌, Result-cases, ℤ, Bytes, Option, none,
  some, length, ltb, Bool-cases, Option-cases,
}
use agentic_ebpf_patrol.Events.{Event, decode}
use agentic_ebpf_patrol.Triage.{is_suspicious}
use agentic_ebpf_patrol.Hunter.Respond.{Host}
use agentic_ebpf_patrol.Pipeline.Log.{Entry, line, torn, Write}
use agentic_ebpf_patrol.Pipeline.{Call, ask}
use agentic_ebpf_patrol.Pipeline.Draining.{Drain, drain_begin, replay_one}
use agentic_ebpf_patrol.Pipeline.System.{
  Replaying, World, lines, spill_loss, dispatch_loss, stranded, pick, Move, receive, take_event,
  judge, tick, replay, finish, receive_event, received, receive_raw, take_queued, judge_event,
  begin_pass, replay_event, replay_next, finish_pass, step, worker_count,
}
use agentic_ebpf_patrol.Pipeline.System.Counts.{handle_raw-ok, handle_raw-err, handle_raw-panic}
use agentic_ebpf_patrol.Pipeline.System.Ledger.{offered_by, replies}
use agentic_ebpf_patrol.Pipeline.System.Grows.{
  Grows, unchanged, quiet, answers, loses, forgets, still,
}
use agentic_ebpf_patrol.Hunter.Client.{Client}
use agentic_ebpf_patrol.Pipeline.System.Asked.{Asks}

-- `c` is the client that the pipeline asks.
module _ (c : Client) (w : World) (asks : Asks c w.pipe) where
  receive-Grows :
      (boot_wall : ℤ) (aw ow : Write) (raw : Bytes)
      → Grows c (receive boot_wall aw ow raw) w (receive_raw boot_wall aw ow raw w)
  unfolding receive_raw received receive_event
  receive-Grows boot_wall aw ow raw =
      let m = receive boot_wall aw ow raw in
      elim (Result-cases (decode boot_wall raw)) [
        | inl (ev, d) ↦ elim (Bool-cases (is_suspicious ev)) [
          | inl s ↦
              rw (handle_raw-ok boot_wall aw ow raw w.pipe d, d, s)
                (loses c m w _ (dispatch_loss ow ev w.pipe) refl (rw (d, s) refl) refl refl refl)
          | inr s ↦
              rw (handle_raw-ok boot_wall aw ow raw w.pipe d, d, s)
                (quiet c m w _ (rw (d, s) (unchanged w.accepted)) refl refl refl)
        ]
        | inr (inl (x, d)) ↦
            rw (handle_raw-err boot_wall aw ow raw w.pipe d, d)
              (quiet c m w _ (rw d (unchanged w.accepted)) refl refl refl)
        | inr (inr d) ↦
            rw (handle_raw-panic boot_wall aw ow raw w.pipe d)
              (quiet c m w _ (rw d (unchanged w.accepted)) refl refl refl)
      ]

  take-Grows : (evs : List Event) → Grows c take_event w (take_queued evs w)
  unfolding take_queued
  take-Grows [] = still c take_event w refl
  take-Grows (ev ∷ evs) =
      elim (Bool-cases (ltb (length w.in_hand) (worker_count w.pipe.cfg.workers))) [
        | inl idle ↦ rw idle (quiet c take_event w _ (unchanged w.accepted) refl refl refl)
        | inr busy ↦ rw busy (still c take_event w refl)
      ]

  unanswered : (call : Call) → ask call w.pipe ≡ none → not (replies c call) ≡ true
  unanswered call n = subst (λ x. not (replies x call) ≡ true) asks (rw (not, replies, n) refl)

  replied : (call : Call) (v : Verdict) → ask call w.pipe ≡ some v → replies c call ≡ true
  replied call v n = subst (λ x. replies x call ≡ true) asks (rw (replies, n) refl)

  judge-Grows :
      (i : ℕ) (host : Host) (call : Call) (ev : Event) (others : List Event)
      → Grows c (judge i host call) w (judge_event host call ev others w)
  unfolding judge_event
  judge-Grows i host call ev others =
      let m = judge i host call in
      elim (Option-cases (ask call w.pipe)) [
        | inl n ↦
            rw (n, judge_event)
              (loses c m w _ (spill_loss call.write ev w.pipe.overflow) (unanswered call n)
                (unchanged w.accepted) refl refl refl)
        | inr (v, n) ↦
            rw (n, judge_event)
              (answers c m w _ (ev ∷ []) (replied call v n) (unchanged w.accepted) refl refl refl)
      ]

  begin-Grows : (os : Drain) → Grows c (tick os) w (begin_pass os w)
  unfolding begin_pass
  begin-Grows os =
      let gone = stranded os w.pipe.overflow in
      elim (Option-cases (drain_begin os w.pipe).1) [
        | inl n ↦
            rw (n, begin_pass)
              (forgets c (tick os) w _ gone refl (unchanged w.accepted) refl refl refl)
        | inr (es, n) ↦
            rw (n, begin_pass)
              (forgets c (tick os) w _ gone refl (unchanged w.accepted) refl refl refl)
      ]

  replay_next-Grows :
      (call : Call) (es : List Entry) (counts : ℕ × ℕ)
      → Grows c (replay call) w (replay_next call es counts w)
  unfolding replay_next replay_event replay_one
  replay_next-Grows call [] counts = still c (replay call) w refl
  replay_next-Grows call (torn ∷ es) counts = still c (replay call) w refl
  replay_next-Grows call (line ev ∷ es) counts =
      let m = replay call in
      elim (Option-cases (ask call w.pipe)) [
        | inl n ↦
            rw (n, replay_event, replay_one)
              (loses c m w _ (spill_loss call.write ev w.pipe.overflow) (unanswered call n)
                (unchanged w.accepted) refl refl refl)
        | inr (v, n) ↦
            rw (n, replay_event, replay_one)
              (answers c m w _ (ev ∷ []) (replied call v n) (unchanged w.accepted) refl refl refl)
      ]

  finish-Grows :
      (removed : Bool) (es : List Entry) (counts : ℕ × ℕ)
      → Grows c (finish removed) w (finish_pass removed es counts w)
  unfolding finish_pass
  finish-Grows removed [] counts =
      quiet c (finish removed) w _ (unchanged w.accepted) refl refl refl
  finish-Grows removed (torn ∷ es) counts =
      forgets c (finish removed) w _ (lines es) refl (unchanged w.accepted) refl refl refl
  finish-Grows removed (line ev ∷ es) counts = still c (finish removed) w refl

  tick-Grows :
      (os : Drain) (r : Option Replaying)
      → Grows c (tick os) w (elim r as (λ _. World) [ none ↦ begin_pass os w | some pass ↦ w ])
  tick-Grows os none = begin-Grows os
  tick-Grows os (some pass) = still c (tick os) w refl

  pass-Grows :
      (m : Move) (f : Replaying → World)
      → offered_by m ≡ []
      → ((r : Replaying) → Grows c m w (f r))
      → (r : Option Replaying)
      → Grows c m w (elim r as (λ _. World) [ none ↦ w | some pass ↦ f pass ])
  pass-Grows m f e g none = still c m w e
  pass-Grows m f e g (some pass) = g pass

  pub step-Grows : (m : Move) → Grows c m w (step m w)
  unfolding step
  step-Grows (receive boot_wall aw ow raw) = receive-Grows boot_wall aw ow raw
  step-Grows take_event = take-Grows w.pipe.queue
  step-Grows (judge i host call) = elim (Option-cases (pick i w.in_hand)) [
    | inl n ↦ rw (n, step) (still c (judge i host call) w refl)
    | inr ((ev, others), n) ↦ rw (n, step) (judge-Grows i host call ev others)
  ]
  step-Grows (tick os) = tick-Grows os w.replaying
  step-Grows (replay call) =
      pass-Grows (replay call) (λ r. replay_next call r.entries (r.replayed, r.respilled) w) refl
        (λ r. replay_next-Grows call r.entries (r.replayed, r.respilled)) w.replaying
  step-Grows (finish removed) =
      pass-Grows (finish removed) (λ r. finish_pass removed r.entries (r.replayed, r.respilled) w)
        refl (λ r. finish-Grows removed r.entries (r.replayed, r.respilled)) w.replaying
