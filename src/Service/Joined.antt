-- ===== src/Service/Joined.antt =====
-- The broker's evaluation (broker/internal/pipeline/pipeline.go) when the service of hunter/ answers
-- its requests.
use agentic_ebpf_patrol.Prelude.{
  ap, ◌∷◌, Bytes, ℕ, zero, suc, ◌+◌, ◌≤◌, ◌<◌, ◌≡◌, ◌≢◌, refl, sym, ◌∙◌, inl, inr, [], none, some,
  arith, Option-cases,
}
use agentic_ebpf_patrol.Events.{Event}
use agentic_ebpf_patrol.Hunter
use agentic_ebpf_patrol.Hunter.{action_kill}
use agentic_ebpf_patrol.Hunter.Client.{Surroundings, rounds_of}
use agentic_ebpf_patrol.Hunter.Client.Retry.{Answers, WinsAfter, evaluate-verdict_iff}
use agentic_ebpf_patrol.Hunter.Respond.{Host, Response, kill_process}
use agentic_ebpf_patrol.Hunter.Respond.Safety.{IsTarget, kill_process-safe}
use agentic_ebpf_patrol.Pipeline
use agentic_ebpf_patrol.Pipeline.{Pipeline, Call, ask, spill}
use agentic_ebpf_patrol.Pipeline.Counters.{add}
use agentic_ebpf_patrol.Pipeline.Evaluate.{Answered, ask-Answered, evaluate-signals}
use agentic_ebpf_patrol.Service.{ExecEvent, Verdict, Action, severity_value, action_value}
use agentic_ebpf_patrol.Service.Float.{float_one}
use agentic_ebpf_patrol.Service.Engine.{Message}
use agentic_ebpf_patrol.Service.Responder.{Machine}
use agentic_ebpf_patrol.Service.Api
use agentic_ebpf_patrol.Service.Api.{answered, failed}
use agentic_ebpf_patrol.Service.Api.Kills.{Condemns, LosesVerdict, evaluate-answer}

-- What one request of the broker meets at the service: the event that FastAPI reads, the model's
-- message, and the service's machine.
pub record Session : Type 0 where
  pub event : ExecEvent
  pub message : Message
  pub machine : Machine

-- The broker reads from the JSON text what the service wrote there.
abbrev pub IsWire : Verdict → Hunter.Verdict → Type 0
IsWire v b =
    (b.severity ≡ severity_value v.severity)
    × (b.action ≡ action_value v.action)
    × (b.mitre_technique ≡ v.mitre_technique)
    × (b.confidence ≡ v.confidence)

-- A verdict that the broker receives in an attempt is the one of the endpoint's answer.
abbrev pub Serves : ℕ → (ℕ → Session) → Surroundings → Type 0
Serves floor sessions around =
    (i : ℕ) (b : Hunter.Verdict)
    → Answers (around.reply i) b
    → (v : Verdict) × ((Api.evaluate floor (sessions i).machine (sessions i).message
          (sessions i).event).answer
        ≡ answered v)
      × IsWire v b

kill_value : (a : Action) → action_value a ≡ action_kill → a ≡ Action.kill
kill_value Action.kill h = refl
kill_value Action.ignore h = cc
kill_value Action.monitor h = cc
kill_value Action.alert h = cc

WinsAfter-Answers :
    (around : Surroundings) (i k : ℕ) (b : Hunter.Verdict)
    → WinsAfter around i k b
    → (j : ℕ) × (j ≡ i + k) × Answers (around.reply j) b
WinsAfter-Answers around i zero b (go, a) = (i, omega arith, a)
WinsAfter-Answers around i (suc k) b (go, fail, w) =
    let (j, e, a) = WinsAfter-Answers around (i + 1) k b w in (j, omega arith, a)

pub answered_inj : {u v : Verdict} → answered u ≡ answered v → u ≡ v
answered_inj h = cc

-- A verdict that the broker receives was not lost, and is a kill only if the model condemned.
answered_well :
    (floor : ℕ) (s : Session) (v : Verdict)
    → floor ≤ float_one
    → (Api.evaluate floor s.machine s.message s.event).answer ≡ answered v
    → (¬ LosesVerdict floor s.machine s.message s.event)
      × (v.action ≡ Action.kill → Condemns floor s.message)
answered_well floor s v f e = elim (evaluate-answer floor s.machine s.message s.event f) [
  | inl (l, x) ↦ cc (x, e)
  | inr (n, (u, x, vetted, kills)) ↦
      let alike : u ≡ v = answered_inj (sym x ∙ e) in (n, λ k. kills.0 (rw (← alike) at k))
]

asked :
    (call : Call) (q : Pipeline) (body : Bytes) (k : ℕ) (b : Hunter.Verdict)
    → call.body ≡ some body
    → k < rounds_of q.cfg.hunter_client.max_retries
    → WinsAfter call.around 0 k b
    → ask call q ≡ some b
asked call q body k b e below w =
    let won = (evaluate-verdict_iff q.cfg.hunter_client call.around body b).1 (k, below, w) in
    rw (e, won) refl

-- A kill verdict is handed to `KillProcess`.
kill-acted :
    (host : Host) (call : Call) (ev : Event) (q : Pipeline) (b : Hunter.Verdict)
    → ask call q ≡ some b
    → b.action ≡ action_kill
    → (Pipeline.evaluate host call ev q).1 ≡ some (kill_process host ev.pid ev.comm)
unfolding Pipeline.evaluate Pipeline.act_on
kill-acted host call ev q b e k = rw (e, Pipeline.act_on, k) refl

-- The whole way to a kill: an event that marshals, and an attempt that is the first to be answered,
-- with the endpoint's answer to a message that proposes a kill which the service lets through. If
-- the service does not lose the verdict, then the broker signals the event's pid, provided that the
-- host reports the event's name for it and it is at least 2. The floor is at most one.
pub evaluate-carried :
    (floor : ℕ) (s : Session) (host : Host) (call : Call) (ev : Event) (q : Pipeline) (body : Bytes)
    (k : ℕ) (b : Hunter.Verdict)
    → floor ≤ float_one
    → call.body ≡ some body
    → k < rounds_of q.cfg.hunter_client.max_retries
    → WinsAfter call.around 0 k b
    → ((v : Verdict)
        → (Api.evaluate floor s.machine s.message s.event).answer ≡ answered v
        → IsWire v b)
    → Condemns floor s.message
    → ¬ LosesVerdict floor s.machine s.message s.event
    → IsTarget host ev.pid ev.comm
    → (r : Response) × ((Pipeline.evaluate host call ev q).1 ≡ some r) × (r.signalled ≡ ev.pid ∷ [])
evaluate-carried floor s host call ev q body k b f e below w wire c kept target =
    elim (evaluate-answer floor s.machine s.message s.event f) [
      | inl (l, x) ↦ absurd (kept l)
      | inr (n, (v, x, vetted, kills)) ↦
          let action = (wire v x).1 ∙ ap action_value (kills.1 c) in
          elim (kill_process-safe host ev.pid ev.comm) [
            | inl (t, sent) ↦
                (_, kill-acted host call ev q b (asked call q body k b e below w) action, sent)
            | inr (other, spared, why) ↦ absurd (other target)
          ]
    ]

module _ (floor : ℕ) (f : floor ≤ float_one) (sessions : ℕ → Session) (call : Call)
    (serves : Serves floor sessions call.around) where
  -- A verdict that a worker gets is the answer of one of the attempts.
  answering_session :
      (q : Pipeline) (b : Hunter.Verdict)
      → Answered call q b
      → (j : ℕ) × (v : Verdict) × (j < rounds_of q.cfg.hunter_client.max_retries)
        × ((Api.evaluate floor (sessions j).machine (sessions j).message (sessions j).event).answer
            ≡ answered v)
        × IsWire v b
  answering_session q b (k, below, w) =
      let (j, e, a) = WinsAfter-Answers call.around 0 k b w in
      let (v, x, wire) = serves j b a in (j, v, omega arith, x, wire)

  -- A worker signals a process only if, in one of its attempts, the model's message proposes a kill
  -- that is critical and whose confidence reaches the service's floor, and the service's own
  -- `kill_pid` did not raise; the host then reports the event's own name for its pid, which is at
  -- least 2. The service answers the broker's requests, and its floor is at most one.
  pub evaluate-Condemns :
      (host : Host) (ev : Event) (q : Pipeline) (r : Response)
      → (Pipeline.evaluate host call ev q).1 ≡ some r
      → r.signalled ≢ []
      → IsTarget host ev.pid ev.comm
        × ((j : ℕ) × (j < rounds_of q.cfg.hunter_client.max_retries)
            × Condemns floor (sessions j).message
            × (¬ LosesVerdict floor (sessions j).machine (sessions j).message (sessions j).event))
  evaluate-Condemns host ev q r e s =
      let (b, won, kills, target) = evaluate-signals host call ev q r e s in
      let (j, v, below, x, wire) = answering_session q b won in
      let (kept, condemns) = answered_well floor (sessions j) v f x in
      (target, (j, below, condemns (kill_value v.action (sym wire.1 ∙ kills)), kept))

  -- Where every attempt's verdict is lost, a worker signals nothing, counts a hunter error and writes
  -- the event to the overflow log. The service answers the broker's requests, and its floor is at
  -- most one.
  pub evaluate-lost :
      (host : Host) (ev : Event) (q : Pipeline)
      → ((j : ℕ)
          → j < rounds_of q.cfg.hunter_client.max_retries
          → LosesVerdict floor (sessions j).machine (sessions j).message (sessions j).event)
      → Pipeline.evaluate host call ev q ≡ (
        spill call.write ev (record q {
          metrics = record (q.metrics) { hunter_errors = add q.metrics.hunter_errors 1 };
        }),
        none,
      )
  unfolding Pipeline.evaluate Pipeline.act_on
  evaluate-lost host ev q lost = elim (Option-cases (ask call q)) [
    | inl n ↦ rw (n, Pipeline.act_on) refl
    | inr (b, n) ↦
        let (j, v, below, x, wire) = answering_session q b (ask-Answered call q n) in
        absurd ((answered_well floor (sessions j) v f x).0 (lost j below))
  ]
