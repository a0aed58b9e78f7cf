-- ===== src/Service/Responder/Returns.antt =====
-- When `kill_pid` returns `True`.
use agentic_ebpf_patrol.Prelude.{
  some_inj, ℕ, ℤ, pos, negsuc, ◌≤◌, ◌≡◌, refl, ap, ◌↔◌, ◌⊎◌, inl, inr, true, false, some, bytes_eq,
  bytes_eq_sound, leb, Bool-cases, arith, ◌==◌,
}
use agentic_ebpf_patrol.Service.{Str}
use agentic_ebpf_patrol.Service.Responder.{
  strip, text, Delivery, delivered, no_process, no_permission, undeliverable, hidden, shows, Sudo,
  runs, denied, not_found, timed_out, uncallable, Machine, without_newlines, kill_script,
  kill_via_script, kill_pid,
}
use agentic_ebpf_patrol.Service.Responder.Safety.{
  misnamed, misshown, IsNamed, ShellKills, Probe-cases, Reading-cases, pos_inj,
}

-- The helper finds no such file: it exits with 0 and signals nothing.
abbrev pub IsGone : Machine → ℤ → Type 0
IsGone machine pid = (n : ℕ) × (pid ≡ pos n) × (2 ≤ n) × (machine.probe pid ≡ hidden)

pub agree {ℓ κ} : {P : Type ℓ} {Q : Type κ} → P → Q → P ↔ Q
agree p q = (λ h. q, λ h. p)

pub differ {ℓ κ} : {P : Type ℓ} {Q : Type κ} → ¬ P → ¬ Q → P ↔ Q
differ p q = (λ h. absurd (p h), λ h. absurd (q h))

-- When the helper exits with 0.
Succeeds : Machine → ℤ → Str → Type 0
Succeeds machine pid name = ShellKills machine pid name ⊎ IsGone machine pid

StatusIff : Machine → ℤ → Str → Type 0
StatusIff machine pid name =
    (((kill_script machine pid name).status == 0) ≡ true) ↔ Succeeds machine pid name

shown-StatusIff :
    (machine : Machine) (n : ℕ) (name t : Str)
    → leb n 1 ≡ false
    → machine.probe (pos n) ≡ shows t
    → StatusIff machine (pos n) name
unfolding kill_script StatusIff Succeeds
shown-StatusIff machine n name t high e = elim (Bool-cases (bytes_eq (without_newlines t) name)) [
  | inr k ↦ differ (rw (high, e, kill_script, k) (λ h. cc)) (λ s. elim s [
    | inl kills ↦ misshown machine (pos n) name e k kills
    | inr (m, i, h, r) ↦ cc (r, e)
  ])
  | inl same ↦ elim (Bool-cases (machine.shell_kill (pos n))) [
    | inl b ↦
        agree (rw (high, e, kill_script, same, b) refl)
          (inl (n, t, refl, ground arith, e, bytes_eq_sound (without_newlines t) name same, b))
    | inr b ↦
        differ (rw (high, e, kill_script, same, b) (λ h. cc))
          (λ s. elim s [ inl (m, u, i, h, r, q, c) ↦ cc (b, c) | inr (m, i, h, r) ↦ cc (r, e) ])
  ]
]

kill_script-StatusIff : (machine : Machine) (pid : ℤ) (name : Str) → StatusIff machine pid name
unfolding kill_script StatusIff Succeeds
kill_script-StatusIff machine (negsuc n) name =
    differ (λ h. cc) (λ s. elim s [ inl (m, u, i, h, r, same, b) ↦ cc | inr (m, i, h, r) ↦ cc ])
kill_script-StatusIff machine (pos n) name = elim (Bool-cases (leb n 1)) [
  | inl low ↦ differ (rw (low, kill_script) (λ h. cc)) (λ s. elim s [
    | inl (m, u, i, h, r, same, b) ↦ let alike = pos_inj i in ground arith
    | inr (m, i, h, r) ↦ let alike = pos_inj i in ground arith
  ])
  | inr high ↦ elim (Probe-cases (machine.probe (pos n))) [
    | inl e ↦ agree (rw (high, e, kill_script) refl) (inr (n, refl, ground arith, e))
    | inr (inl e) ↦
        differ (rw (high, e, kill_script) (λ h. cc))
          (λ s. elim s [ inl (m, u, i, h, r, same, b) ↦ cc (e, r) | inr (m, i, h, r) ↦ cc (e, r) ])
    | inr (inr (t, e)) ↦ shown-StatusIff machine n name t high e
  ]
]

-- When the call of the helper returns `True`.
script-true :
    (machine : Machine) (pid : ℤ) (name : Str) (s : Sudo)
    → machine.sudo ≡ s
    → ((kill_via_script machine pid name).returned ≡ some true)
      ↔ ((machine.sudo ≡ runs) × Succeeds machine pid name)
unfolding kill_via_script StatusIff
script-true machine pid name runs e =
    let (there, back) = kill_script-StatusIff machine pid name in
    (
      λ h. (e, there (some_inj (rw (e, kill_via_script) at h))),
      λ (x, s). rw (e, kill_via_script) (ap some (back s)),
    )
script-true machine pid name denied e =
    differ (rw (e, kill_via_script) (λ h. cc)) (λ h. cc (h.0, e))
script-true machine pid name not_found e =
    differ (rw (e, kill_via_script) (λ h. cc)) (λ h. cc (h.0, e))
script-true machine pid name (timed_out d) e =
    differ (rw (e, kill_via_script) (λ h. cc)) (λ h. cc (h.0, e))
script-true machine pid name uncallable e =
    differ (rw (e, kill_via_script) (λ h. cc)) (λ h. cc (h.0, e))

-- What counts as a kill for the caller.
abbrev pub Reports : Machine → ℤ → Str → Type 0
Reports machine pid name =
    IsNamed machine pid name
    × ((machine.deliver pid ≡ delivered)
        ⊎ ((machine.deliver pid ≡ no_permission)
            × (machine.sudo ≡ runs)
            × (ShellKills machine pid name ⊎ IsGone machine pid)))

delivery-true :
    (machine : Machine) (pid : ℤ) (name : Str) (d : Delivery)
    → machine.deliver pid ≡ d
    → (t : Str) × (machine.read_comm pid ≡ text t) × (bytes_eq (strip t) name ≡ true)
    → ((kill_pid machine pid name).returned ≡ some true) ↔ Reports machine pid name
unfolding kill_pid Succeeds
delivery-true machine pid name delivered e (t, r, k) =
    agree (rw (r, kill_pid, k, e) refl) ((t, r, bytes_eq_sound (strip t) name k), inl e)
delivery-true machine pid name no_process e (t, r, k) =
    differ (rw (r, kill_pid, k, e) (λ h. cc)) (λ (n, s). ground arith)
delivery-true machine pid name undeliverable e (t, r, k) =
    differ (rw (r, kill_pid, k, e) (λ h. cc)) (λ (n, s). ground arith)
delivery-true machine pid name no_permission e (t, r, k) =
    let (there, back) = script-true machine pid name machine.sudo refl in
    (
      λ h. (
        (t, r, bytes_eq_sound (strip t) name k),
        (let (x, y) = there (rw (r, kill_pid, k, e) at h) in inr (e, x, y)),
      ),
      λ (n, s). elim s [ inl d ↦ cc (d, e) | inr (d, x, y) ↦ rw (r, kill_pid, k, e) (back (x, y)) ],
    )

-- `kill_pid` returns `True` exactly when the system reports the name for the pid and either its own
-- signal is delivered, or that is not permitted and the helper, run to its end, kills or finds the
-- process gone.
pub kill_pid-true :
    (machine : Machine) (pid : ℤ) (expected_comm : Str)
    → ((kill_pid machine pid expected_comm).returned ≡ some true)
      ↔ Reports machine pid expected_comm
unfolding kill_pid
kill_pid-true machine pid expected_comm = elim (Reading-cases (machine.read_comm pid)) [
  | inl e ↦ differ (rw (e, kill_pid) (λ h. cc)) (λ ((t, r, k), s). cc (e, r))
  | inr (inl e) ↦ differ (rw (e, kill_pid) (λ h. cc)) (λ ((t, r, k), s). cc (e, r))
  | inr (inr (t, e)) ↦ elim (Bool-cases (bytes_eq (strip t) expected_comm)) [
    | inl k ↦ delivery-true machine pid expected_comm (machine.deliver pid) refl (t, e, k)
    | inr k ↦
        differ (rw (e, kill_pid, k) (λ h. cc)) (λ h. misnamed machine pid expected_comm e k h.0)
  ]
]
