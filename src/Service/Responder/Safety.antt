-- ===== src/Service/Responder/Safety.antt =====
-- Whom `kill_pid` signals, and what it returns.
use agentic_ebpf_patrol.Prelude.{
  ℕ, ℤ, pos, negsuc, ◌≤◌, ◌≡◌, refl, sym, ap, ◌∙◌, ◌⊎◌, inl, inr, true, false, [], ◌∷◌, bytes_eq,
  bytes_eq_sound, bytes_eq_iff, leb, Bool-cases, arith,
}
use agentic_ebpf_patrol.Service.{Str}
use agentic_ebpf_patrol.Service.Responder.{
  strip, Reading, text, missing, unreadable, Delivery, delivered, no_process, no_permission,
  undeliverable, Probe, hidden, broken, shows, Sudo, runs, denied, not_found, timed_out, uncallable,
  Machine, without_newlines, kill_script, kill_via_script, kill_pid,
}

-- The system reports the expected name for the pid.
abbrev pub IsNamed : Machine → ℤ → Str → Type 0
IsNamed machine pid expected_comm =
    (t : Str) × (machine.read_comm pid ≡ text t) × (strip t ≡ expected_comm)

-- The helper, run on these arguments, kills.
abbrev pub ShellKills : Machine → ℤ → Str → Type 0
ShellKills machine pid expected_comm =
    (n : ℕ) × (t : Str) × (pid ≡ pos n)
    × (2 ≤ n)
    × (machine.probe pid ≡ shows t)
    × (without_newlines t ≡ expected_comm)
    × (machine.shell_kill pid ≡ true)

-- The helper comes to its end or at least to its kill.
abbrev pub HelperActs : Machine → Type 0
HelperActs machine = (machine.sudo ≡ runs) ⊎ (machine.sudo ≡ timed_out true)

-- A signal gets through: the service's own, or the helper's where that is not permitted.
abbrev pub Strikes : Machine → ℤ → Str → Type 0
Strikes machine pid expected_comm =
    IsNamed machine pid expected_comm
    × ((machine.deliver pid ≡ delivered)
        ⊎ ((machine.deliver pid ≡ no_permission)
            × HelperActs machine
            × ShellKills machine pid expected_comm))

-- The helper kills and exits with 0, or it signals nothing.
ScriptCases : Machine → ℤ → Str → Type 0
ScriptCases machine pid name =
    (ShellKills machine pid name
      × (kill_script machine pid name ≡ record { status = 0; signalled = pid ∷ [] }))
    ⊎ ((¬ ShellKills machine pid name) × ((kill_script machine pid name).signalled ≡ []))

pub Probe-cases : (p : Probe) → (p ≡ hidden) ⊎ ((p ≡ broken) ⊎ ((t : Str) × (p ≡ shows t)))
Probe-cases hidden = inl refl
Probe-cases broken = inr (inl refl)
Probe-cases (shows t) = inr (inr (t, refl))

pub Reading-cases : (r : Reading) → (r ≡ missing) ⊎ ((r ≡ unreadable) ⊎ ((t : Str) × (r ≡ text t)))
Reading-cases missing = inl refl
Reading-cases unreadable = inr (inl refl)
Reading-cases (text t) = inr (inr (t, refl))

pub pos_inj : {m n : ℕ} → pos m ≡ pos n → m ≡ n
pos_inj h = cc

pub shows_inj : {s t : Str} → shows s ≡ shows t → s ≡ t
shows_inj h = cc

pub text_inj : {s t : Str} → text s ≡ text t → s ≡ t
text_inj h = cc

-- Another name is reported.
pub misnamed :
    (machine : Machine) (pid : ℤ) (name : Str) {t : Str}
    → machine.read_comm pid ≡ text t
    → bytes_eq (strip t) name ≡ false
    → ¬ IsNamed machine pid name
misnamed machine pid name {t} e k (u, r, same) =
    let alike : u ≡ t = text_inj (sym r ∙ e) in
    cc (k, (bytes_eq_iff (strip t) name).1 (rw alike at same))

-- Another name is shown to the helper.
pub misshown :
    (machine : Machine) (pid : ℤ) (name : Str) {t : Str}
    → machine.probe pid ≡ shows t
    → bytes_eq (without_newlines t) name ≡ false
    → ¬ ShellKills machine pid name
misshown machine pid name {t} e k (m, u, i, h, r, same, b) =
    let alike : u ≡ t = shows_inj (sym r ∙ e) in
    cc (k, (bytes_eq_iff (without_newlines t) name).1 (rw alike at same))

shown-ScriptCases :
    (machine : Machine) (n : ℕ) (name t : Str)
    → leb n 1 ≡ false
    → machine.probe (pos n) ≡ shows t
    → ScriptCases machine (pos n) name
unfolding kill_script ScriptCases
shown-ScriptCases machine n name t high e = elim (Bool-cases (bytes_eq (without_newlines t) name)) [
  | inr differ ↦
      inr (misshown machine (pos n) name e differ, rw (high, e, kill_script, differ) refl)
  | inl same ↦ elim (Bool-cases (machine.shell_kill (pos n))) [
    | inl b ↦ inl (
      (n, t, refl, ground arith, e, bytes_eq_sound (without_newlines t) name same, b),
      rw (high, e, kill_script, same, b) refl,
    )
    | inr b ↦ inr (λ (k, u, i, h, r, same, c). cc (b, c), rw (high, e, kill_script, same, b) refl)
  ]
]

kill_script-ScriptCases : (machine : Machine) (pid : ℤ) (name : Str) → ScriptCases machine pid name
unfolding kill_script ScriptCases
kill_script-ScriptCases machine (negsuc n) name = inr (λ (k, t, i, h, r, same, b). cc, refl)
kill_script-ScriptCases machine (pos n) name = elim (Bool-cases (leb n 1)) [
  | inl low ↦ inr (
    λ (k, t, i, h, r, same, b). let alike : n ≡ k = pos_inj i in ground arith,
    rw (low, kill_script) refl,
  )
  | inr high ↦ elim (Probe-cases (machine.probe (pos n))) [
    | inl e ↦ inr (λ (k, t, i, h, r, same, b). cc (e, r), rw (high, e, kill_script) refl)
    | inr (inl e) ↦ inr (λ (k, t, i, h, r, same, b). cc (e, r), rw (high, e, kill_script) refl)
    | inr (inr (t, e)) ↦ shown-ScriptCases machine n name t high e
  ]
]

-- The helper's kill gets through, or nothing is signalled.
HelpCases : Machine → ℤ → Str → Type 0
HelpCases machine pid name =
    ((HelperActs machine × ShellKills machine pid name)
      × ((kill_via_script machine pid name).signalled ≡ pid ∷ []))
    ⊎ ((¬ (HelperActs machine × ShellKills machine pid name))
        × ((kill_via_script machine pid name).signalled ≡ []))

idle-HelpCases :
    (machine : Machine) (pid : ℤ) (name : Str)
    → ¬ HelperActs machine
    → (kill_via_script machine pid name).signalled ≡ []
    → HelpCases machine pid name
unfolding HelpCases
idle-HelpCases machine pid name n e = inr (λ h. n h.0, e)

acting-HelpCases :
    (machine : Machine) (pid : ℤ) (name : Str)
    → HelperActs machine
    → (kill_via_script machine pid name).signalled ≡ (kill_script machine pid name).signalled
    → HelpCases machine pid name
unfolding HelpCases ScriptCases
acting-HelpCases machine pid name a e = elim (kill_script-ScriptCases machine pid name) [
  | inl (k, x) ↦ inl ((a, k), e ∙ ap (λ t. t.signalled) x)
  | inr (n, x) ↦ inr (λ h. n h.1, e ∙ x)
]

kill_via_script-HelpCases :
    (machine : Machine) (pid : ℤ) (name : Str) (s : Sudo)
    → machine.sudo ≡ s
    → HelpCases machine pid name
unfolding kill_via_script
kill_via_script-HelpCases machine pid name runs e =
    acting-HelpCases machine pid name (inl e) (rw (e, kill_via_script) refl)
kill_via_script-HelpCases machine pid name denied e =
    idle-HelpCases machine pid name (λ a. ground arith) (rw (e, kill_via_script) refl)
kill_via_script-HelpCases machine pid name not_found e =
    idle-HelpCases machine pid name (λ a. ground arith) (rw (e, kill_via_script) refl)
kill_via_script-HelpCases machine pid name (timed_out true) e =
    acting-HelpCases machine pid name (inr e) (rw (e, kill_via_script) refl)
kill_via_script-HelpCases machine pid name (timed_out false) e =
    idle-HelpCases machine pid name (λ a. ground arith) (rw (e, kill_via_script) refl)
kill_via_script-HelpCases machine pid name uncallable e =
    idle-HelpCases machine pid name (λ a. ground arith) (rw (e, kill_via_script) refl)

-- The signal gets through, or nothing is signalled.
KillCases : Machine → ℤ → Str → Type 0
KillCases machine pid name =
    (Strikes machine pid name × ((kill_pid machine pid name).signalled ≡ pid ∷ []))
    ⊎ ((¬ Strikes machine pid name) × ((kill_pid machine pid name).signalled ≡ []))

delivery-KillCases :
    (machine : Machine) (pid : ℤ) (name : Str) (d : Delivery)
    → machine.deliver pid ≡ d
    → (t : Str) × (machine.read_comm pid ≡ text t) × (bytes_eq (strip t) name ≡ true)
    → KillCases machine pid name
unfolding kill_pid KillCases HelpCases
delivery-KillCases machine pid name delivered e (t, r, k) =
    inl (((t, r, bytes_eq_sound (strip t) name k), inl e), rw (r, kill_pid, k, e) refl)
delivery-KillCases machine pid name no_process e (t, r, k) =
    inr (λ (n, s). ground arith, rw (r, kill_pid, k, e) refl)
delivery-KillCases machine pid name undeliverable e (t, r, k) =
    inr (λ (n, s). ground arith, rw (r, kill_pid, k, e) refl)
delivery-KillCases machine pid name no_permission e (t, r, k) =
    elim (kill_via_script-HelpCases machine pid name machine.sudo refl) [
      | inl ((a, s), x) ↦
          inl (((t, r, bytes_eq_sound (strip t) name k), inr (e, a, s)), rw (r, kill_pid, k, e) x)
      | inr (n, x) ↦ inr (
        λ (m, s). elim s [ inl d ↦ cc (d, e) | inr (d, a, k) ↦ n (a, k) ],
        rw (r, kill_pid, k, e) x,
      )
    ]

-- For every machine, pid and name there are two cases. Either the system reports the name for the
-- pid, white space stripped, and SIGKILL gets through, by the service or, where that is not
-- permitted, by the helper, which looks again and wants a pid of at least 2: then that pid is
-- signalled, once, and no other. Or this fails, and nothing is signalled.
pub kill_pid-safe :
    (machine : Machine) (pid : ℤ) (expected_comm : Str)
    → (Strikes machine pid expected_comm
        × ((kill_pid machine pid expected_comm).signalled ≡ pid ∷ []))
      ⊎ ((¬ Strikes machine pid expected_comm)
          × ((kill_pid machine pid expected_comm).signalled ≡ []))
unfolding kill_pid KillCases
kill_pid-safe machine pid expected_comm = elim (Reading-cases (machine.read_comm pid)) [
  | inl e ↦ inr (λ ((t, r, k), s). cc (e, r), rw (e, kill_pid) refl)
  | inr (inl e) ↦ inr (λ ((t, r, k), s). cc (e, r), rw (e, kill_pid) refl)
  | inr (inr (t, e)) ↦ elim (Bool-cases (bytes_eq (strip t) expected_comm)) [
    | inl k ↦ delivery-KillCases machine pid expected_comm (machine.deliver pid) refl (t, e, k)
    | inr k ↦ inr (λ h. misnamed machine pid expected_comm e k h.0, rw (e, kill_pid, k) refl)
  ]
]
