-- ===== src/Pipeline/System/Refinement.antt =====
-- broker/internal/pipeline/pipeline.go: a run of the pipeline as steps of the ledger.
use mathlib.Core.Path.{subst}
use mathlib.Core.Quot
use agentic_ebpf_patrol.Hunter.Client.{Client}
use agentic_ebpf_patrol.Pipeline.System.Kept.{step-kept}
use agentic_ebpf_patrol.Pipeline.System.Asked.{Asks, Asks-IsKept}
use agentic_ebpf_patrol.Prelude.{
  ℕ, ◌+◌, ◌≡◌, refl, sym, ap, Bool, List, [], ◌∷◌, ◌++◌, append-nil, count, count-append, arith,
}
use agentic_ebpf_patrol.Events.{Event}
use agentic_ebpf_patrol.Pipeline.Log.{Opening, json_event}
use agentic_ebpf_patrol.Pipeline.{Config, NewResult, new, Pipeline}
use agentic_ebpf_patrol.Pipeline.System.{World, file_lines, Move, step, run, start}
use agentic_ebpf_patrol.Pipeline.System.Counts.{pass_lines}
use agentic_ebpf_patrol.Pipeline.System.Balance.{Balanced}
use agentic_ebpf_patrol.Pipeline.System.Balance.Steps.{step-Balanced}
use agentic_ebpf_patrol.Pipeline.System.Sound.{IsSound}
use agentic_ebpf_patrol.Pipeline.System.Invariant.{step-IsSound}
use agentic_ebpf_patrol.Pipeline.System.Conservation.{new-IsFresh, start-IsSound, start-Balanced}
use agentic_ebpf_patrol.Pipeline.System.Ledger.{
  SameEvents, Bag, ledger, LedgerSteps, LedgerRun, offered_by, offered_in, steps-append, answered,
  counted_lost, passed_over, close-All, accept_all, filed, bags,
}
use agentic_ebpf_patrol.Pipeline.System.Grows.{Grows, past, view, waiting}
use agentic_ebpf_patrol.Pipeline.System.Grows.Steps.{step-Grows}

-- How many events stood in the overflow file at the start, for each test.
abbrev Accounted : ((Event → Bool) → ℕ) → World → Type 0
Accounted k w = (p : Event → Bool) → ((e : Event) → p (json_event e) ≡ p e) → Balanced p (k p) w

waiting-count :
    (p : Event → Bool) (w : World)
    → count p (waiting w)
      ≡ count p w.pipe.queue
        + count p w.in_hand
        + count p (file_lines w.pipe.overflow.live)
        + count p (pass_lines w.replaying)
waiting-count p w =
    let file = file_lines w.pipe.overflow.live in
    let pass = pass_lines w.replaying in
    omega (
      arith,
      count-append p w.pipe.queue (w.in_hand ++ (file ++ pass)),
      count-append p w.in_hand (file ++ pass),
      count-append p file pass,
    )

-- The new events and those that waited are those that were closed and those that wait.
grown-SameEvents :
    (k : (Event → Bool) → ℕ) (c : Client) (m : Move) (w w' : World) (g : Grows c m w w')
    → Accounted k w
    → Accounted k w'
    → SameEvents
        (offered_by m ++ waiting w)
        (g.settled ++ (g.reported ++ (g.abandoned ++ waiting w')))
grown-SameEvents k c m w w' g b b' p kept = omega (
  arith,
  b p kept,
  b' p kept,
  waiting-count p w,
  waiting-count p w',
  ap (count p) g.accepted_grew,
  ap (count p) g.settled_grew,
  ap (count p) g.reported_grew,
  ap (count p) g.abandoned_grew,
  count-append p,
)

-- Every move is a few steps of the ledger: it accepts what it offers, and closes what was pending.
step_refines :
    (k : (Event → Bool) → ℕ) (c : Client) (m : Move) (w : World) (coming : List Event)
    → Asks c w.pipe
    → Accounted k w
    → Accounted k (step m w)
    → LedgerSteps c m (view (offered_by m ++ coming) w) (view coming (step m w))
step_refines k c m w coming asks b b' =
    let w' = step m w in
    let g = step-Grows c w asks m in
    let h = past w in
    let rest1 = g.reported ++ (g.abandoned ++ waiting w') in
    let rest2 = g.abandoned ++ waiting w' in
    let h1 = filed answered g.settled h in
    let h2 = filed counted_lost g.reported h1 in
    let opened : LedgerSteps c m (view (offered_by m ++ coming) w)
        (ledger coming (offered_by m ++ waiting w) h) =
      accept_all c m (offered_by m) coming (waiting w) h in
    let regrouped : ledger coming (offered_by m ++ waiting w) h
        ≡ ledger coming (g.settled ++ rest1) h =
      ap (λ (x : Bag). record { offered = coming; pending = x; closed = bags h })
        (Quot.sound (grown-SameEvents k c m w w' g b b')) in
    let closed : LedgerSteps c m (ledger coming (g.settled ++ rest1) h)
        (ledger coming (waiting w') (filed passed_over g.abandoned h2)) =
      steps-append (close-All c m answered g.settled coming rest1 h g.may_settle) (
        steps-append (close-All c m counted_lost g.reported coming rest2 h1 g.may_report)
          (close-All c m passed_over g.abandoned coming (waiting w') h2 g.may_abandon)) in
    let now : past w' ≡ filed passed_over g.abandoned h2 = λ i. record {
      settled = g.settled_grew i;
      reported = g.reported_grew i;
      abandoned = g.abandoned_grew i;
    } in
    steps-append opened (
      subst (λ l. LedgerSteps c m l (view coming w')) (sym regrouped)
        (subst
          (λ x.
            LedgerSteps c m (ledger coming (g.settled ++ rest1) h) (ledger coming (waiting w') x))
          (sym now) closed))

module _ (k : (Event → Bool) → ℕ) (c : Client) where
  step-Accounted : (m : Move) (w : World) → IsSound w → Accounted k w → Accounted k (step m w)
  step-Accounted m w s b p kept = step-Balanced p kept (k p) m w s.has_log (b p kept)

  run_refines :
      (ms : List Move) (w : World)
      → Asks c w.pipe
      → IsSound w
      → Accounted k w
      → LedgerRun c ms (view (offered_in ms) w) (view [] (run ms w))
  unfolding run
  run_refines [] w asks s b = refl
  run_refines (m ∷ ms) w asks s b =
      let b' = step-Accounted m w s b in
      (
        view (offered_in ms) (step m w),
        step_refines k c m w (offered_in ms) asks b b',
        run_refines ms (step m w) (step-kept (Asks c) (Asks-IsKept c) m w asks) (step-IsSound m w s)
            b',
      )

-- From a pipeline as `New` returns it, every run of moves, in any order and with any answers of the
-- system and of the hunter, is, move by move, a run of the ledger. The ledger starts with the events
-- of the overflow file pending, none closed, and offered, in order, exactly the events of the handed
-- records that decode and are suspicious; it ends with none offered, and with pending and closed
-- what the pipeline holds in all its places and has behind it. Each step accepts the next offered
-- event, or closes one pending event: as answered only in a call of the configured client that comes
-- back with a verdict, as counted as lost only in a call that does not or where a record is handed
-- over, as passed over only where a pass begins or ends. The ledger sees the events up to their
-- order, the place where they wait, and what JSON changes in them.
pub run_from_new-LedgerRun :
    (audit_os overflow_os : Opening) (closes : Bool) (config : Config) (q : Pipeline)
    (ms : List Move)
    → new audit_os overflow_os closes config ≡ NewResult.created q
    → LedgerRun q.cfg.hunter_client ms
        (ledger
          (offered_in ms)
          (file_lines q.overflow.live)
          (record { settled = []; reported = []; abandoned = [] }))
        (view [] (run ms (start q)))
run_from_new-LedgerRun audit_os overflow_os closes config q ms e =
    let f = new-IsFresh audit_os overflow_os closes config e in
    let first : waiting (start q) ≡ file_lines q.overflow.live =
      unfold start in rw (f.queue_empty, append-nil) in
    let steps =
      run_refines (λ p. count p (file_lines q.overflow.live)) q.cfg.hunter_client ms (start q)
        (unfold start in refl) (start-IsSound q f) (λ p kept. start-Balanced p q f) in
    subst
      (λ xs.
        LedgerRun q.cfg.hunter_client ms
          (ledger (offered_in ms) xs (record { settled = []; reported = []; abandoned = [] }))
          (view [] (run ms (start q))))
      first (unfold start in steps)
