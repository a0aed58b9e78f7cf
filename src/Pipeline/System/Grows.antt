-- ===== src/Pipeline/System/Grows.antt =====
-- broker/internal/pipeline/pipeline.go: how each move changes the events that wait and the past.
pub mod Steps
use agentic_ebpf_patrol.Hunter.Client.{Client}
use agentic_ebpf_patrol.Prelude.{
  ℕ, ◌≡◌, refl, sym, inl, inr, ◌∙◌, Bool, List, [], ◌∷◌, ◌++◌, true, All, Result-cases, append-nil,
  ℤ, Bytes, Option, none, some, length, ltb, Bool-cases, Option-cases,
}
use agentic_ebpf_patrol.Events.{Event, decode}
use agentic_ebpf_patrol.Triage.{is_suspicious}
use agentic_ebpf_patrol.Hunter.Respond.{Host}
use agentic_ebpf_patrol.Pipeline.Log.{Entry, line, torn, Write}
use agentic_ebpf_patrol.Pipeline.{Call, ask}
use agentic_ebpf_patrol.Pipeline.Draining.{Drain, drain_begin, replay_one}
use agentic_ebpf_patrol.Pipeline.System.{
  Replaying, World, lines, file_lines, spill_loss, dispatch_loss, stranded, pick, Move, receive,
  take_event, judge, tick, replay, finish, receive_event, received, receive_raw, take_queued,
  judge_event, begin_pass, replay_event, replay_next, finish_pass, step, worker_count,
}
use agentic_ebpf_patrol.Pipeline.System.Counts.{
  pass_lines, handle_raw-ok, handle_raw-err, handle_raw-panic,
}
use agentic_ebpf_patrol.Pipeline.System.Ledger.{
  Past, Ledger, ledger, offered_by, may_close, answered, counted_lost, passed_over,
}

-- The events that still wait somewhere.
abbrev pub waiting : World → List Event
waiting w =
    w.pipe.queue ++ (w.in_hand ++ (file_lines w.pipe.overflow.live ++ pass_lines w.replaying))

abbrev pub past : World → Past
past w = record { settled = w.settled; reported = w.reported; abandoned = w.abandoned }

-- What the ledger sees of the pipeline, with these events still to come.
abbrev pub view : List Event → World → Ledger
view coming w = ledger coming (waiting w) (past w)

-- A move accepts what it offers, and the rest of the past grows by events that it may close.
pub record Grows (c : Client) (m : Move) (w w' : World) : Type 0 where
  pub settled : List Event
  pub reported : List Event
  pub abandoned : List Event
  pub accepted_grew : w'.accepted ≡ w.accepted ++ offered_by m
  pub settled_grew : w'.settled ≡ w.settled ++ settled
  pub reported_grew : w'.reported ≡ w.reported ++ reported
  pub abandoned_grew : w'.abandoned ≡ w.abandoned ++ abandoned
  pub may_settle : All (λ e. may_close c m answered ≡ true) settled
  pub may_report : All (λ e. may_close c m counted_lost ≡ true) reported
  pub may_abandon : All (λ e. may_close c m passed_over ≡ true) abandoned

each {ℓ κ} : {A : Type ℓ} {P : Type κ} → P → (xs : List A) → All (λ x. P) xs
each p [] = tt
each p (x ∷ xs) = (p, each p xs)

pub unchanged {ℓ} : {A : Type ℓ} (xs : List A) → xs ≡ xs ++ []
unchanged xs = sym (append-nil xs)

module _ (c : Client) (m : Move) (w : World) where
  -- The past is as it was, but for what the move offers.
  pub quiet :
      (w' : World)
      → w'.accepted ≡ w.accepted ++ offered_by m
      → w'.settled ≡ w.settled
      → w'.reported ≡ w.reported
      → w'.abandoned ≡ w.abandoned
      → Grows c m w w'
  quiet w' a s r g = record {
    settled = [];
    reported = [];
    abandoned = [];
    accepted_grew = a;
    settled_grew = s ∙ unchanged w.settled;
    reported_grew = r ∙ unchanged w.reported;
    abandoned_grew = g ∙ unchanged w.abandoned;
    may_settle = tt;
    may_report = tt;
    may_abandon = tt;
  }

  -- The hunter answers these events.
  pub answers :
      (w' : World) (es : List Event)
      → may_close c m answered ≡ true
      → w'.accepted ≡ w.accepted ++ offered_by m
      → w'.settled ≡ w.settled ++ es
      → w'.reported ≡ w.reported
      → w'.abandoned ≡ w.abandoned
      → Grows c m w w'
  answers w' es may a s r g = record {
    settled = es;
    reported = [];
    abandoned = [];
    accepted_grew = a;
    settled_grew = s;
    reported_grew = r ∙ unchanged w.reported;
    abandoned_grew = g ∙ unchanged w.abandoned;
    may_settle = each may es;
    may_report = tt;
    may_abandon = tt;
  }

  -- These events are lost and counted.
  pub loses :
      (w' : World) (es : List Event)
      → may_close c m counted_lost ≡ true
      → w'.accepted ≡ w.accepted ++ offered_by m
      → w'.settled ≡ w.settled
      → w'.reported ≡ w.reported ++ es
      → w'.abandoned ≡ w.abandoned
      → Grows c m w w'
  loses w' es may a s r g = record {
    settled = [];
    reported = es;
    abandoned = [];
    accepted_grew = a;
    settled_grew = s ∙ unchanged w.settled;
    reported_grew = r;
    abandoned_grew = g ∙ unchanged w.abandoned;
    may_settle = tt;
    may_report = each may es;
    may_abandon = tt;
  }

  -- These events are passed over.
  pub forgets :
      (w' : World) (es : List Event)
      → may_close c m passed_over ≡ true
      → w'.accepted ≡ w.accepted ++ offered_by m
      → w'.settled ≡ w.settled
      → w'.reported ≡ w.reported
      → w'.abandoned ≡ w.abandoned ++ es
      → Grows c m w w'
  forgets w' es may a s r g = record {
    settled = [];
    reported = [];
    abandoned = es;
    accepted_grew = a;
    settled_grew = s ∙ unchanged w.settled;
    reported_grew = r ∙ unchanged w.reported;
    abandoned_grew = g;
    may_settle = tt;
    may_report = tt;
    may_abandon = each may es;
  }

  -- A move that offers nothing and closes nothing.
  pub still : offered_by m ≡ [] → Grows c m w w
  still e = quiet w (rw e (unchanged w.accepted)) refl refl refl
