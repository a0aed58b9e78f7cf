-- ===== src/Pipeline/System/Answered.antt =====
-- broker/internal/pipeline/pipeline.go: the workers while the hunter answers.
use agentic_ebpf_patrol.Prelude.{
  ◌<◌, ◌≡◌, refl, ap, ◌∙◌, List, [], ◌∷◌, ◌++◌, append-nil, append_assoc, length, some, lt→ltb,
  replicate,
}
use agentic_ebpf_patrol.Events.{Event}
use agentic_ebpf_patrol.Hunter.{Verdict}
use agentic_ebpf_patrol.Hunter.Respond.{Host}
use agentic_ebpf_patrol.Pipeline.{Config, Pipeline, Call, ask}
use agentic_ebpf_patrol.Pipeline.System.{
  World, Move, take_event, judge, take_queued, pick, judge_event, step, run, worker_count,
}
use agentic_ebpf_patrol.Pipeline.System.Effects.{evaluate-Effect}
use agentic_ebpf_patrol.Pipeline.System.Sound.{evaluate-queue}

-- The hunter answers the call, in every pipeline with this configuration.
abbrev pub HunterUp : Config → Call → Type 0
HunterUp cfg call = (q : Pipeline) → q.cfg ≡ cfg → (v : Verdict) × (ask call q ≡ some v)

-- What a worker's move has to do with.
abbrev Stands : World → Config → List Event → List Event → List Event → Type 0
Stands w cfg queue hands settled =
    (w.pipe.cfg ≡ cfg) × (w.pipe.queue ≡ queue) × (w.in_hand ≡ hands) × (w.settled ≡ settled)

judge_first :
    (host : Host) (call : Call) (ev : Event) (others queue settled : List Event) (cfg : Config)
    (w : World)
    → HunterUp cfg call
    → Stands w cfg queue (ev ∷ others) settled
    → Stands (step (judge 0 host call) w) cfg queue others (settled ++ ev ∷ [])
unfolding step
judge_first host call ev others queue settled cfg w up (c, q, h, s) =
    let (v, a) = up w.pipe c in
    rw (h, step, pick, judge_event, a)
      (
        (evaluate-Effect host call ev w.pipe).same_cfg ∙ c,
        evaluate-queue host call ev w.pipe ∙ q,
        refl,
        ap (λ x. x ++ ev ∷ []) s,
      )

take_first :
    (ev : Event) (queue settled : List Event) (cfg : Config) (w : World)
    → 0 < worker_count cfg.workers
    → Stands w cfg (ev ∷ queue) [] settled
    → Stands (step take_event w) cfg queue (ev ∷ []) settled
unfolding step take_queued
take_first ev queue settled cfg w some_worker (c, q, h, s) =
    rw (q, step, take_queued, h, c, lt→ltb 0 (worker_count cfg.workers) some_worker)
      (refl, refl, refl, s)

-- The workers finish what they hold, and take and finish what is queued.
abbrev pub finish_hands : Host → Call → List Event → List Move
finish_hands host call hands = replicate (length hands) (judge 0 host call)

abbrev pub empty_queue : Host → Call → List Event → List Move
empty_queue host call [] = []
empty_queue host call (ev ∷ queue) = take_event ∷ judge 0 host call ∷ empty_queue host call queue

module _ (host : Host) (call : Call) (cfg : Config) (up : HunterUp cfg call) where
  finish_hands-Stands :
      (hands queue settled : List Event) (w : World)
      → Stands w cfg queue hands settled
      → Stands (run (finish_hands host call hands) w) cfg queue [] (settled ++ hands)
  unfolding run
  finish_hands-Stands [] queue settled w s = rw append-nil s
  finish_hands-Stands (ev ∷ hands) queue settled w s = rw (← append_assoc settled (ev ∷ []) hands) (
      finish_hands-Stands hands queue (settled ++ ev ∷ []) (step (judge 0 host call) w)
        (judge_first host call ev hands queue settled cfg w up s))

  empty_queue-Stands :
      (queue settled : List Event) (w : World)
      → 0 < worker_count cfg.workers
      → Stands w cfg queue [] settled
      → Stands (run (empty_queue host call queue) w) cfg [] [] (settled ++ queue)
  unfolding run
  empty_queue-Stands [] settled w some_worker s = rw append-nil s
  empty_queue-Stands (ev ∷ queue) settled w some_worker s =
      let taken = take_first ev queue settled cfg w some_worker s in
      rw (← append_assoc settled (ev ∷ []) queue) (
        empty_queue-Stands queue (settled ++ ev ∷ []) (step (judge 0 host call) (step take_event w))
          some_worker (judge_first host call ev [] queue settled cfg (step take_event w) up taken))

-- From every state of the pipeline with one worker or more, and with a hunter that answers: the moves
-- in which a worker finishes each event in hand, and then takes and finishes each queued one, lead to
-- a state with an empty queue and nothing in hand, in which every one of these events was answered,
-- those in hand first and the queued ones in their order. So nothing in the pipeline keeps an event
-- from its answer.
pub queued-Answered :
    (host : Host) (call : Call) (w : World)
    → HunterUp w.pipe.cfg call
    → 0 < worker_count w.pipe.cfg.workers
    → let idle = run (finish_hands host call w.in_hand) w in
      let w' = run (empty_queue host call w.pipe.queue) idle in
      (w'.pipe.queue ≡ [])
      × (w'.in_hand ≡ [])
      × (w'.settled ≡ w.settled ++ w.in_hand ++ w.pipe.queue)
queued-Answered host call w up some_worker =
    let idle =
      finish_hands-Stands host call w.pipe.cfg up w.in_hand w.pipe.queue w.settled w
        (refl, refl, refl, refl) in
    let (_, queue, hands, settled) =
      empty_queue-Stands host call w.pipe.cfg up w.pipe.queue (w.settled ++ w.in_hand)
        (run (finish_hands host call w.in_hand) w) some_worker idle in
    (queue, hands, settled)
