-- ===== src/Pipeline/Evaluate.antt =====
-- When an evaluation ends in a signal.
use agentic_ebpf_patrol.Prelude.{
  some_inj, ℕ, ◌<◌, ◌≡◌, ◌≢◌, sym, ap, ◌∙◌, inl, inr, [], none, some, bytes_eq, bytes_eq_sound,
  Bool-cases, Option-cases,
}
use agentic_ebpf_patrol.Events.{Event}
use agentic_ebpf_patrol.Hunter.{Verdict, action_kill}
use agentic_ebpf_patrol.Hunter.Client
use agentic_ebpf_patrol.Hunter.Client.{Surroundings, Evaluation, verdict, rounds_of}
use agentic_ebpf_patrol.Hunter.Client.Retry.{WinsAfter, evaluate-verdict_iff}
use agentic_ebpf_patrol.Hunter.Respond.{Host, Response, kill_process}
use agentic_ebpf_patrol.Hunter.Respond.Safety.{IsTarget, kill_process-safe}
use agentic_ebpf_patrol.Pipeline.{Pipeline, Call, ask, verdict_of, act_on, evaluate}

-- An attempt of the call was answered with this verdict.
abbrev pub Answered : Call → Pipeline → Verdict → Type 0
Answered call q v =
    (k : ℕ) × (k < rounds_of q.cfg.hunter_client.max_retries) × WinsAfter call.around 0 k v

verdict_of-some : (x : Evaluation) {v : Verdict} → verdict_of x ≡ some v → x ≡ verdict v
verdict_of-some (verdict u) h = cc
verdict_of-some Evaluation.marshal_failed h = cc
verdict_of-some Evaluation.cancelled h = cc
verdict_of-some (Evaluation.unavailable n e) h = cc

unmarshalled : (call : Call) (q : Pipeline) → call.body ≡ none → ask call q ≡ none
unfolding Client.evaluate
unmarshalled call q e = rw e

pub ask-Answered :
    (call : Call) (q : Pipeline) {v : Verdict} → ask call q ≡ some v → Answered call q v
ask-Answered call q {v} h = elim (Option-cases call.body) [
  | inl e ↦ cc (h, unmarshalled call q e)
  | inr (body, e) ↦
      (evaluate-verdict_iff q.cfg.hunter_client call.around body v).0 (
        verdict_of-some (Client.evaluate q.cfg.hunter_client call.around (some body)).0 (rw e at h))
]

-- A signal goes out only if some attempt was answered with status 200 and a verdict whose action is
-- `kill`, the attempts before it having failed, and the host then reports the event's own name for
-- its pid, which is at least 2.
pub evaluate-signals :
    (host : Host) (call : Call) (ev : Event) (q : Pipeline) (r : Response)
    → (evaluate host call ev q).1 ≡ some r
    → r.signalled ≢ []
    → (v : Verdict) × Answered call q v × (v.action ≡ action_kill) × IsTarget host ev.pid ev.comm
unfolding evaluate act_on
evaluate-signals host call ev q r h s = elim (Option-cases (ask call q)) [
  | inl n ↦ cc (rw (n, act_on) at h)
  | inr (v, n) ↦ elim (Bool-cases (bytes_eq v.action action_kill)) [
    | inr k ↦ cc (rw (n, act_on, k) at h)
    | inl k ↦
        let same : kill_process host ev.pid ev.comm ≡ r = some_inj (rw (n, act_on, k) at h) in
        elim (kill_process-safe host ev.pid ev.comm) [
          | inl (target, sent) ↦
              (v, ask-Answered call q n, bytes_eq_sound v.action action_kill k, target)
          | inr (no_target, spared, failed) ↦ absurd (s (ap (λ t. t.signalled) (sym same) ∙ spared))
        ]
  ]
]
