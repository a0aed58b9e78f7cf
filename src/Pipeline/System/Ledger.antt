-- ===== src/Pipeline/System/Ledger.antt =====
-- broker/internal/pipeline/pipeline.go: the abstract ledger of the accepted events. It forgets where
-- an open event waits, in which order events stand, and what JSON changes in their text.
use mathlib.Core.Path.{subst}
use mathlib.Core.Quot
use mathlib.Core.Quot.{Quot, Quot-set}
use agentic_ebpf_patrol.Prelude.{
  ◌≡◌, refl, sym, ap, Bool, List, [], ◌∷◌, ◌++◌, append-nil, append_assoc, count, count-append,
  arith, not, none, some, true, false, ok, err, panic, All, if◌then◌else◌,
}
use agentic_ebpf_patrol.Hunter.Client
use agentic_ebpf_patrol.Hunter.Client.{Client}
use agentic_ebpf_patrol.Pipeline.{Call, verdict_of}
use agentic_ebpf_patrol.Events.{Event, Decoded, decode}
use agentic_ebpf_patrol.Triage.{is_suspicious}
use agentic_ebpf_patrol.Pipeline.System.{Move, receive, take_event, judge, tick, replay, finish}
use agentic_ebpf_patrol.Pipeline.Log.{json_event}

-- No test that JSON leaves alone tells the lists apart.
abbrev pub SameEvents : List Event → List Event → Type 0
SameEvents xs ys =
    (p : Event → Bool) → ((e : Event) → p (json_event e) ≡ p e) → count p xs ≡ count p ys

abbrev pub Bag : Type 0
Bag = Quot SameEvents

abbrev pub bag : List Event → Bag
bag xs = Quot.mk xs

pub SameEvents-cons :
    (e : Event) (xs ys : List Event) → SameEvents xs ys → SameEvents (e ∷ xs) (e ∷ ys)
SameEvents-cons e xs ys h p kept = ground (arith, h p kept)

unfoldable pub put : Event → Bag → Bag
put e =
    Quot.lift Quot-set (λ xs. Quot.mk (e ∷ xs)) (λ xs ys h. Quot.sound (SameEvents-cons e xs ys h))

-- How the ledger closes an event: the hunter has answered, a loss was counted, or neither.
pub data Fate : Type 0 where
  answered counted_lost passed_over : Fate

pub record Closed : Type 0 where
  pub settled : Bag
  pub lost : Bag
  pub forgotten : Bag

-- `offered` is what is still to come, in the order in which it comes.
pub record Ledger : Type 0 where
  pub offered : List Event
  pub pending : Bag
  pub closed : Closed

unfoldable pub file : Fate → Event → Closed → Closed
file answered e c = record c { settled = put e c.settled }
file counted_lost e c = record c { lost = put e c.lost }
file passed_over e c = record c { forgotten = put e c.forgotten }

-- The client's call comes back with a verdict.
abbrev pub replies : Client → Call → Bool
replies c call = elim (verdict_of (Client.evaluate c call.around call.body).0) [
  | none ↦ false
  | some v ↦ true
]

-- What a move may do to a pending event: a call of the hunter answers it if it comes back with a
-- verdict, and may lose it with a count if not, as may the reader; only the start and the end of a
-- pass may pass it over.
abbrev pub may_close : Client → Move → Fate → Bool
may_close c (receive boot_wall aw ow raw) counted_lost = true
may_close c (receive boot_wall aw ow raw) answered = false
may_close c (receive boot_wall aw ow raw) passed_over = false
may_close c take_event f = false
may_close c (judge i host call) passed_over = false
may_close c (judge i host call) answered = replies c call
may_close c (judge i host call) counted_lost = not (replies c call)
may_close c (replay call) passed_over = false
may_close c (replay call) answered = replies c call
may_close c (replay call) counted_lost = not (replies c call)
may_close c (tick os) passed_over = true
may_close c (tick os) answered = false
may_close c (tick os) counted_lost = false
may_close c (finish removed) passed_over = true
may_close c (finish removed) answered = false
may_close c (finish removed) counted_lost = false

-- What can happen to a ledger in a move: the next offered event is accepted, or one pending event is
-- closed in a way that the move may. No event is closed twice and none comes back.
pub data LedgerStep (c : Client) (m : Move) (l l' : Ledger) : Type 0 where
  accept :
      (e : Event) (rest : List Event)
      → l.offered ≡ e ∷ rest
      → l' ≡ record l { offered = rest; pending = put e l.pending }
      → LedgerStep c m l l'
  close :
      (f : Fate) (e : Event) (rest : Bag)
      → may_close c m f ≡ true
      → l.pending ≡ put e rest
      → l' ≡ record l { pending = rest; closed = file f e l.closed }
      → LedgerStep c m l l'

pub data LedgerSteps (c : Client) (m : Move) (l : Ledger) : Ledger → Type 0 where
  here : LedgerSteps c m l l
  next : {l' l'' : Ledger} → LedgerSteps c m l l' → LedgerStep c m l' l'' → LedgerSteps c m l l''

pub steps-append :
    {c : Client} {m : Move} {l l' l'' : Ledger}
    → LedgerSteps c m l l'
    → LedgerSteps c m l' l''
    → LedgerSteps c m l l''
steps-append r here = r
steps-append r (next s m) = next (steps-append r s) m

-- The steps of one move after those of another.
abbrev pub LedgerRun : Client → List Move → Ledger → Ledger → Type 0
LedgerRun c [] l l' = l ≡ l'
LedgerRun c (m ∷ ms) l l'' = (l' : Ledger) × LedgerSteps c m l l' × LedgerRun c ms l' l''

-- The event that a move offers: a record that decodes to a suspicious event.
abbrev pub offered_of : Decoded Event → List Event
offered_of (ok ev) = if is_suspicious ev then ev ∷ [] else []
offered_of (err e) = []
offered_of panic = []

abbrev pub offered_by : Move → List Event
offered_by (receive boot_wall aw ow raw) = offered_of (decode boot_wall raw)
offered_by take_event = []
offered_by (judge i host call) = []
offered_by (tick os) = []
offered_by (replay call) = []
offered_by (finish removed) = []

abbrev pub offered_in : List Move → List Event
offered_in [] = []
offered_in (m ∷ ms) = offered_by m ++ offered_in ms

-- The lists behind the closed part of a ledger.
pub record Past : Type 0 where
  pub settled : List Event
  pub reported : List Event
  pub abandoned : List Event

abbrev pub bags : Past → Closed
bags h = record { settled = bag h.settled; lost = bag h.reported; forgotten = bag h.abandoned }

abbrev pub ledger : List Event → List Event → Past → Ledger
ledger coming waiting h = record { offered = coming; pending = bag waiting; closed = bags h }

abbrev pub filed : Fate → List Event → Past → Past
filed answered es h = record h { settled = h.settled ++ es }
filed counted_lost es h = record h { reported = h.reported ++ es }
filed passed_over es h = record h { abandoned = h.abandoned ++ es }

bag-snoc : (e : Event) (xs : List Event) → bag (e ∷ xs) ≡ bag (xs ++ e ∷ [])
bag-snoc e xs = Quot.sound (λ p kept. ground (arith, count-append p xs (e ∷ [])))

file-filed : (f : Fate) (e : Event) (h : Past) → file f e (bags h) ≡ bags (filed f (e ∷ []) h)
unfolding file put
file-filed answered e h = rw (sym (bag-snoc e h.settled))
file-filed counted_lost e h = rw (sym (bag-snoc e h.reported))
file-filed passed_over e h = rw (sym (bag-snoc e h.abandoned))

filed-nil : (f : Fate) (h : Past) → filed f [] h ≡ h
filed-nil answered h = rw append-nil
filed-nil counted_lost h = rw append-nil
filed-nil passed_over h = rw append-nil

filed-filed :
    (f : Fate) (e : Event) (es : List Event) (h : Past)
    → filed f es (filed f (e ∷ []) h) ≡ filed f (e ∷ es) h
filed-filed answered e es h = rw append_assoc
filed-filed counted_lost e es h = rw append_assoc
filed-filed passed_over e es h = rw append_assoc

module _ (c : Client) (m : Move) where
  -- Several events are closed one by one.
  pub close-All :
      (f : Fate) (es coming rest : List Event) (h : Past)
      → All (λ e. may_close c m f ≡ true) es
      → LedgerSteps c m (ledger coming (es ++ rest) h) (ledger coming rest (filed f es h))
  close-All f [] coming rest h may = rw (filed-nil f h) here
  close-All f (e ∷ es) coming rest h (may, others) =
      let first : LedgerStep c m (ledger coming (e ∷ (es ++ rest)) h)
          (ledger coming (es ++ rest) (filed f (e ∷ []) h)) =
        close f e (bag (es ++ rest)) may (unfold put in refl) (
          ap (λ c. record { offered = coming; pending = bag (es ++ rest); closed = c })
            (sym (file-filed f e h))) in
      rw (← filed-filed f e es h)
        (steps-append (next here first) (close-All f es coming rest (filed f (e ∷ []) h) others))

  -- Several offered events are accepted one by one.
  pub accept_all :
      (es coming waiting : List Event) (h : Past)
      → LedgerSteps c m (ledger (es ++ coming) waiting h) (ledger coming (es ++ waiting) h)
  accept_all [] coming waiting h = here
  accept_all (e ∷ es) coming waiting h =
      let first : LedgerStep c m (ledger (e ∷ (es ++ coming)) waiting h)
          (ledger (es ++ coming) (e ∷ waiting) h) =
        accept e (es ++ coming) refl (unfold put in refl) in
      let regrouped : bag (es ++ e ∷ waiting) ≡ bag (e ∷ (es ++ waiting)) =
        Quot.sound
          (λ p kept. ground (arith, count-append p es (e ∷ waiting), count-append p es waiting)) in
      subst
        (λ x.
          LedgerSteps c m (ledger (e ∷ (es ++ coming)) waiting h)
            (record { offered = coming; pending = x; closed = bags h }))
        regrouped (steps-append (next here first) (accept_all es coming (e ∷ waiting) h))
