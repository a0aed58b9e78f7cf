-- ===== src/Service/Api/Kills.antt =====
-- When the endpoint kills, and when it gives no verdict.
use agentic_ebpf_patrol.Prelude.{
  some_inj, ℕ, ◌≤◌, ◌≡◌, ◌≢◌, refl, sym, ap, ◌∙◌, ◌↔◌, ◌⊎◌, inl, inr, true, false, List, [], ◌∷◌,
  none, some, Bool-cases, Option-cases,
}
use agentic_ebpf_patrol.Service.{ExecEvent, Verdict, Action, is_kill}
use agentic_ebpf_patrol.Service.Float.{float_one}
use agentic_ebpf_patrol.Service.Engine
use agentic_ebpf_patrol.Service.Engine.{Block, Message, raised, content}
use agentic_ebpf_patrol.Service.Engine.Authority.{IsVetted, is_kill_iff}
use agentic_ebpf_patrol.Service.Engine.Kill.{Proposes, Earns, evaluate-kill, evaluate-IsVetted}
use agentic_ebpf_patrol.Service.Responder.{Machine, kill_pid}
use agentic_ebpf_patrol.Service.Responder.Safety.{Strikes, kill_pid-safe}
use agentic_ebpf_patrol.Service.Responder.Raises.{Raises, kill_pid-Raises}
use agentic_ebpf_patrol.Service.Api.{answered, failed, act_on, evaluate}

-- The model's message proposes a kill that the service lets through.
abbrev pub Condemns : ℕ → Message → Type 0
Condemns floor message =
    (blocks : List Block) × (p : Verdict) × (message ≡ content blocks)
    × Proposes blocks (some p)
    × Earns floor p

-- What the engine makes of the message.
Ruling : ℕ → Message → Type 0
Ruling floor message =
    (message ≡ raised)
    ⊎ ((v : Verdict) × (Engine.evaluate floor message ≡ some v)
        × (((is_kill v.action ≡ false) × (¬ Condemns floor message))
            ⊎ ((is_kill v.action ≡ true) × Condemns floor message)))

none-raised :
    (floor : ℕ) (message : Message) → Engine.evaluate floor message ≡ none → message ≡ raised
unfolding Engine.evaluate
none-raised floor (Message.api_error t) e = cc
none-raised floor raised e = refl
none-raised floor (content blocks) e = cc

raised_none : (floor : ℕ) → Engine.evaluate floor raised ≡ none
unfolding Engine.evaluate
raised_none floor = refl

ruling : (floor : ℕ) (message : Message) → floor ≤ float_one → Ruling floor message
unfolding Ruling
ruling floor message f = elim (Option-cases (Engine.evaluate floor message)) [
  | inl e ↦ inl (none-raised floor message e)
  | inr (v, e) ↦ elim (Bool-cases (is_kill v.action)) [
    | inl k ↦
        inr (v, e, inr (k, (evaluate-kill floor message f).0 (v, e, (is_kill_iff v.action).0 k)))
    | inr k ↦ inr (
      v,
      e,
      inl (
        k,
        λ c.
            let (u, same, kills) = (evaluate-kill floor message f).1 c in
            let alike : u ≡ v = some_inj (sym same ∙ e) in
            cc (k, (is_kill_iff v.action).1 (rw alike at kills)),
      ),
    )
  ]
]

-- What `kill_pid` signalled is what the endpoint signalled.
act_on-signalled :
    (machine : Machine) (event : ExecEvent) (v : Verdict)
    → is_kill v.action ≡ true
    → (act_on machine event v).signalled ≡ (kill_pid machine event.pid event.comm).signalled
unfolding act_on
act_on-signalled machine event v k =
    elim (Option-cases (kill_pid machine event.pid event.comm).returned) [
      | inl e ↦ rw (k, act_on, e) refl
      | inr (b, e) ↦ rw (k, act_on, e) refl
    ]

-- The endpoint signals a process exactly when the model's message proposes a kill that is critical
-- and reaches the floor, and the signal gets through to a process under the event's name; then it
-- is the event's pid, once. The floor is at most one.
pub evaluate-Strikes :
    (floor : ℕ) (machine : Machine) (message : Message) (event : ExecEvent)
    → floor ≤ float_one
    → (Condemns floor message
        × Strikes machine event.pid event.comm
        × ((evaluate floor machine message event).signalled ≡ event.pid ∷ []))
      ⊎ ((¬ (Condemns floor message × Strikes machine event.pid event.comm))
          × ((evaluate floor machine message event).signalled ≡ []))
unfolding evaluate Ruling
evaluate-Strikes floor machine message event f = elim (ruling floor message f) [
  | inl e ↦ inr (λ ((blocks, p, m, q, r), s). cc (m, e), rw e (unfold Engine.evaluate in refl))
  | inr (v, e, inl (k, spared)) ↦ inr (λ h. spared h.0, rw (e, evaluate, k, act_on) refl)
  | inr (v, e, inr (k, condemned)) ↦
      let same = act_on-signalled machine event v k in
      elim (kill_pid-safe machine event.pid event.comm) [
        | inl (s, x) ↦ inl (condemned, s, rw (e, evaluate) (same ∙ x))
        | inr (n, x) ↦ inr (λ h. n h.1, rw (e, evaluate) (same ∙ x))
      ]
]

-- The two ways to an answer without a verdict.
abbrev pub LosesVerdict : ℕ → Machine → Message → ExecEvent → Type 0
LosesVerdict floor machine message event =
    (message ≡ raised) ⊎ (Condemns floor message × Raises machine event.pid event.comm)

-- What `act_on` answers to a kill.
kill-answer :
    (machine : Machine) (event : ExecEvent) (v : Verdict)
    → is_kill v.action ≡ true
    → (Raises machine event.pid event.comm × ((act_on machine event v).answer ≡ failed 500))
      ⊎ ((¬ Raises machine event.pid event.comm) × ((act_on machine event v).answer ≡ answered v))
unfolding act_on
kill-answer machine event v k =
    let (there, back) = kill_pid-Raises machine event.pid event.comm in
    elim (Option-cases (kill_pid machine event.pid event.comm).returned) [
      | inl e ↦ inl (there e, rw (k, act_on, e) refl)
      | inr (b, e) ↦ inr (λ r. cc (e, back r), rw (k, act_on, e) refl)
    ]

-- The endpoint answers with status 500 exactly when the call of the model raises an exception that
-- is not an `APIError`, or the model's message proposes a kill that the service lets through and
-- `kill_pid` raises on the event's pid. Otherwise it answers with a verdict: its technique is of the
-- set or the sentinel, its confidence between zero and one, and its action is kill exactly when such
-- a kill is proposed. The floor is at most one.
pub evaluate-answer :
    (floor : ℕ) (machine : Machine) (message : Message) (event : ExecEvent)
    → floor ≤ float_one
    → (LosesVerdict floor machine message event
        × ((evaluate floor machine message event).answer ≡ failed 500))
      ⊎ ((¬ LosesVerdict floor machine message event)
          × ((v : Verdict) × ((evaluate floor machine message event).answer ≡ answered v)
              × IsVetted floor v
              × ((v.action ≡ Action.kill) ↔ Condemns floor message)))
unfolding evaluate Ruling
evaluate-answer floor machine message event f = elim (ruling floor message f) [
  | inl e ↦ inl (inl e, rw e (unfold Engine.evaluate in refl))
  | inr (v, e, r) ↦
      let running : message ≢ raised =
        λ h. cc (e, ap (Engine.evaluate floor) h ∙ raised_none floor) in
      let (u, same, vetted) = evaluate-IsVetted floor message f running in
      let vet = rw (some_inj (sym same ∙ e)) at vetted in
      elim r [
        | inl (k, spared) ↦ inr (
          λ l. elim l [ inl h ↦ running h | inr (c, x) ↦ spared c ],
          (
            v,
            rw (e, evaluate, k, act_on) refl,
            vet,
            (λ a. cc (k, (is_kill_iff v.action).1 a), λ c. absurd (spared c)),
          ),
        )
        | inr (k, c) ↦ elim (kill-answer machine event v k) [
          | inl (x, a) ↦ inl (inr (c, x), rw (e, evaluate) a)
          | inr (n, a) ↦ inr (
            λ l. elim l [ inl h ↦ running h | inr (d, x) ↦ n x ],
            (v, rw (e, evaluate) a, vet, (λ h. c, λ h. (is_kill_iff v.action).0 k)),
          )
        ]
      ]
]
