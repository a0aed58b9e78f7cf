-- ===== src/Tests/Serving.antt =====
-- The service of hunter/ on one event, and the broker that asks it.
use agentic_ebpf_patrol.Prelude.{
  All, ap, inr, ◌∙◌, sym, ℕ, zero, suc, ◌≤◌, ◌<◌, ◌≡◌, ◌↔◌, ◌⊎◌, inl, refl, pos, true, false, [],
  ◌∷◌, ◌++◌, none, some, codes, arith,
}
use agentic_ebpf_patrol.Hunter
use agentic_ebpf_patrol.Hunter.{severity_critical, action_kill}
use agentic_ebpf_patrol.Hunter.Client.{Reply, response, no_response, elapsed}
use agentic_ebpf_patrol.Hunter.Respond.{Host, Response, kill_process}
use agentic_ebpf_patrol.Hunter.Respond.Safety.{IsTarget}
use agentic_ebpf_patrol.Text.{trim_space}
use agentic_ebpf_patrol.Pipeline
use agentic_ebpf_patrol.Pipeline.{Call, spill}
use agentic_ebpf_patrol.Pipeline.Log.{whole}
use agentic_ebpf_patrol.Pipeline.Counters.{add}
use agentic_ebpf_patrol.Service.{ExecEvent, Verdict, Severity, Action}
use agentic_ebpf_patrol.Service.Float.{is_in_range, float_lt, float_one, kill_confidence_floor}
use agentic_ebpf_patrol.Service.Engine.{tool_use, other, Message, raised, content, verdict_tool}
use agentic_ebpf_patrol.Service.Engine.Authority.{IsVetted}
use agentic_ebpf_patrol.Service.Responder.{
  text, no_permission, hidden, shows, runs, Machine, kill_pid,
}
use agentic_ebpf_patrol.Service.Responder.Safety.{Strikes}
use agentic_ebpf_patrol.Service.Responder.Mirror.{IsPlain, Helped, kill_pid-kill_process}
use agentic_ebpf_patrol.Service.Responder.Returns.{Reports, differ, kill_pid-true}
use agentic_ebpf_patrol.Service.Api
use agentic_ebpf_patrol.Service.Api.{answered, failed}
use agentic_ebpf_patrol.Service.Api.Kills.{
  Condemns, LosesVerdict, evaluate-Strikes, evaluate-answer,
}
use agentic_ebpf_patrol.Service.Joined.{
  answered_inj, Session, Serves, evaluate-Condemns, evaluate-lost, evaluate-carried,
}
use agentic_ebpf_patrol.Tests.{dropped, host, pipeline}

abbrev floor : ℕ
floor = kill_confidence_floor

floor_low : floor ≤ float_one
floor_low = omega arith

abbrev event : ExecEvent
event = record {
  timestamp = codes "2026-01-01T00:00:00Z";
  pid = pos 42;
  tid = pos 42;
  uid = pos 0;
  gid = pos 0;
  comm = codes "sh";
  filename = codes "/tmp/x";
  args = codes "/tmp/x" ∷ [];
  argc = pos 1;
  truncated = false;
  command_line = codes "/tmp/x /tmp/x";
}

-- With a confidence of 0.95.
abbrev proposal : Verdict
proposal = record {
  severity = Severity.critical;
  action = Action.kill;
  mitre_technique = codes "T1059.004";
  mitre_tactic = codes "Execution";
  confidence = 0x3FEE666666666666;
  rationale = [];
}

abbrev message : Message
message = content (other ∷ tool_use verdict_tool (some proposal) ∷ [])

-- The service may not signal, and the helper may.
abbrev machine : Machine
machine = record {
  read_comm = λ pid. text (codes "sh" ++ 10 ∷ []);
  deliver = λ pid. no_permission;
  sudo = runs;
  probe = λ pid. shows (codes "sh" ++ 10 ∷ []);
  shell_kill = λ pid. true;
}

-- The process is gone when the helper looks.
abbrev late_machine : Machine
late_machine = record machine { probe = λ pid. hidden }

late_kill :
    kill_pid late_machine (pos 42) (codes "sh") ≡ record { returned = some true; signalled = [] }
unfolding kill_pid
late_kill = refl

kill_pid-true_example :
    ((kill_pid late_machine (pos 42) (codes "sh")).returned ≡ some true)
    ↔ Reports late_machine (pos 42) (codes "sh")
kill_pid-true_example = kill_pid-true late_machine (pos 42) (codes "sh")

shell-IsPlain : All IsPlain (codes "sh" ++ 10 ∷ [])
shell-IsPlain = (
  (omega arith, inr (omega arith)),
  ((omega arith, inr (omega arith)), ((omega arith, inl (omega arith)), tt)),
)

-- The broker's signals fail.
abbrev powerless : Host
powerless = record host { deliver = λ pid. false }

kill_pid-kill_process_example : ((kill_pid machine (pos 42) (codes "sh")).returned ≡ some true) ↔ (
    ((kill_process powerless 42 (codes "sh")).error ≡ none)
    ⊎ Helped powerless machine 42 (codes "sh"))
kill_pid-kill_process_example =
    kill_pid-kill_process powerless machine 42 (codes "sh") (omega arith)
      (inr (codes "sh" ++ 10 ∷ [], shell-IsPlain, refl, refl, differ (λ e. cc) (λ e. cc)))

evaluate-Strikes_example :
    (Condemns floor message
      × Strikes machine (pos 42) (codes "sh")
      × ((Api.evaluate floor machine message event).signalled ≡ pos 42 ∷ []))
    ⊎ ((¬ (Condemns floor message × Strikes machine (pos 42) (codes "sh")))
        × ((Api.evaluate floor machine message event).signalled ≡ []))
evaluate-Strikes_example = evaluate-Strikes floor machine message event floor_low

evaluate-answer_example :
    (LosesVerdict floor machine message event
      × ((Api.evaluate floor machine message event).answer ≡ failed 500))
    ⊎ ((¬ LosesVerdict floor machine message event)
        × ((v : Verdict) × ((Api.evaluate floor machine message event).answer ≡ answered v)
            × IsVetted floor v
            × ((v.action ≡ Action.kill) ↔ Condemns floor message)))
evaluate-answer_example = evaluate-answer floor machine message event floor_low

strikes_twice :
    Api.evaluate floor machine message event
    ≡ record { answer = answered proposal; signalled = pos 42 ∷ [] }
unfolding Api.evaluate
strikes_twice = refl

-- The first attempt gets no response, the second the service's answer.
abbrev wired : Hunter.Verdict
wired = record {
  severity = severity_critical;
  action = action_kill;
  mitre_technique = codes "T1059.004";
  mitre_tactic = codes "Execution";
  confidence = 0x3FEE666666666666;
  rationale = [];
}

abbrev replies : ℕ → Reply
replies zero = no_response
replies (suc i) = response 200 (some wired)

abbrev call : Call
call = record {
  body = some (codes "{}");
  around = record { wake = λ i. elapsed; reply = replies };
  write = whole;
}

abbrev session : Session
session = record { event = event; message = message; machine = machine }

wired_only : {b : Hunter.Verdict} → response 200 (some wired) ≡ response 200 (some b) → wired ≡ b
wired_only h = cc

call-Serves : Serves floor (λ i. session) call.around
call-Serves zero b h = cc
call-Serves (suc i) b h =
    (proposal, unfold Api.evaluate in refl, rw (← wired_only h) (refl, refl, refl, refl))

abbrev reaction : Response
reaction = record { error = none; signalled = 42 ∷ [] }

dropped_hit : (Pipeline.evaluate host call dropped pipeline).1 ≡ some reaction
unfolding Pipeline.evaluate trim_space
dropped_hit = refl

evaluate-Condemns_example :
    IsTarget host 42 (codes "sh")
    × ((j : ℕ) × (j < 2) × Condemns floor message × (¬ LosesVerdict floor machine message event))
evaluate-Condemns_example =
    evaluate-Condemns floor floor_low (λ i. session) call call-Serves host dropped pipeline reaction
      dropped_hit (λ e. cc)

message_Condemns : Condemns floor message
message_Condemns = (
  _,
  proposal,
  refl,
  (other ∷ [], [], refl, (tt, tt)),
  (unfold is_in_range in refl, refl, refl, unfold float_lt in refl),
)

evaluate-carried_example :
    (r : Response) × ((Pipeline.evaluate host call dropped pipeline).1 ≡ some r)
    × (r.signalled ≡ 42 ∷ [])
evaluate-carried_example =
    evaluate-carried floor session host call dropped pipeline (codes "{}") 1 wired floor_low refl
      (omega arith) (refl, λ b h. cc, (refl, refl))
      (λ v e.
        rw (← answered_inj (ap (λ t. t.answer) (sym strikes_twice) ∙ e)) (refl, refl, refl, refl))
      message_Condemns
      (λ l. elim l [
        | inl e ↦ cc
        | inr (c, inl e) ↦ cc
        | inr (c, inr (n, inl e)) ↦ cc
        | inr (c, inr (n, inr (e, h))) ↦ cc
      ])
      (codes "sh" ++ 10 ∷ [], omega arith, refl, unfold trim_space in refl)

-- The service's call of the model raises each time, and the broker reads an error's status.
abbrev lost_session : Session
lost_session = record session { message = raised }

abbrev refused_call : Call
refused_call = record call {
  around = record { wake = λ i. elapsed; reply = λ i. response 500 none };
}

evaluate-lost_example : Pipeline.evaluate host refused_call dropped pipeline ≡ (
  spill whole dropped (record pipeline {
    metrics = record (pipeline.metrics) { hunter_errors = add pipeline.metrics.hunter_errors 1 };
  }),
  none,
)
evaluate-lost_example =
    evaluate-lost floor floor_low (λ i. lost_session) refused_call (λ i b h. cc) host dropped
      pipeline (λ j h. inl refl)
