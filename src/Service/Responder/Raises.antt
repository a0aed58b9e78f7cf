-- ===== src/Service/Responder/Raises.antt =====
-- When `kill_pid` raises.
use agentic_ebpf_patrol.Prelude.{
  ℤ, ◌≡◌, refl, ◌↔◌, ◌⊎◌, inl, inr, true, none, bytes_eq, bytes_eq_sound, Bool-cases, arith,
}
use agentic_ebpf_patrol.Service.{Str}
use agentic_ebpf_patrol.Service.Responder.{
  strip, text, unreadable, Delivery, delivered, no_process, no_permission, undeliverable, Sudo,
  runs, denied, not_found, timed_out, uncallable, Machine, kill_via_script, kill_pid,
}
use agentic_ebpf_patrol.Service.Responder.Safety.{misnamed, IsNamed, Reading-cases}
use agentic_ebpf_patrol.Service.Responder.Returns.{agree, differ}

-- Where an exception comes out.
abbrev pub Raises : Machine → ℤ → Str → Type 0
Raises machine pid name =
    (machine.read_comm pid ≡ unreadable)
    ⊎ (IsNamed machine pid name
        × ((machine.deliver pid ≡ undeliverable)
            ⊎ ((machine.deliver pid ≡ no_permission) × (machine.sudo ≡ uncallable))))

script-raises :
    (machine : Machine) (pid : ℤ) (name : Str) (s : Sudo)
    → machine.sudo ≡ s
    → ((kill_via_script machine pid name).returned ≡ none) ↔ (machine.sudo ≡ uncallable)
unfolding kill_via_script
script-raises machine pid name runs e = differ (rw (e, kill_via_script) (λ h. cc)) (λ h. cc (h, e))
script-raises machine pid name denied e =
    differ (rw (e, kill_via_script) (λ h. cc)) (λ h. cc (h, e))
script-raises machine pid name not_found e =
    differ (rw (e, kill_via_script) (λ h. cc)) (λ h. cc (h, e))
script-raises machine pid name (timed_out d) e =
    differ (rw (e, kill_via_script) (λ h. cc)) (λ h. cc (h, e))
script-raises machine pid name uncallable e = agree (rw (e, kill_via_script) refl) e

delivery-Raises :
    (machine : Machine) (pid : ℤ) (name : Str) (d : Delivery)
    → machine.deliver pid ≡ d
    → (t : Str) × (machine.read_comm pid ≡ text t) × (bytes_eq (strip t) name ≡ true)
    → ((kill_pid machine pid name).returned ≡ none) ↔ Raises machine pid name
unfolding kill_pid
delivery-Raises machine pid name delivered e (t, r, k) =
    differ (rw (r, kill_pid, k, e) (λ h. cc)) (λ s. ground arith)
delivery-Raises machine pid name no_process e (t, r, k) =
    differ (rw (r, kill_pid, k, e) (λ h. cc)) (λ s. ground arith)
delivery-Raises machine pid name undeliverable e (t, r, k) =
    agree (rw (r, kill_pid, k, e) refl) (inr ((t, r, bytes_eq_sound (strip t) name k), inl e))
delivery-Raises machine pid name no_permission e (t, r, k) =
    let (there, back) = script-raises machine pid name machine.sudo refl in
    (
      λ h.
          inr
            ((t, r, bytes_eq_sound (strip t) name k), inr (e, there (rw (r, kill_pid, k, e) at h))),
      λ s. elim s [
        | inl d ↦ cc (d, r)
        | inr (n, inl d) ↦ cc (d, e)
        | inr (n, inr (d, a)) ↦ rw (r, kill_pid, k, e) (back a)
      ],
    )

-- `kill_pid` raises exactly when the name of the pid cannot be read for another reason than a
-- missing file, or the name is the expected one and the signal, or the call of `sudo` after a
-- refused one, fails in a way that is not caught.
pub kill_pid-Raises :
    (machine : Machine) (pid : ℤ) (expected_comm : Str)
    → ((kill_pid machine pid expected_comm).returned ≡ none) ↔ Raises machine pid expected_comm
unfolding kill_pid
kill_pid-Raises machine pid expected_comm = elim (Reading-cases (machine.read_comm pid)) [
  | inl e ↦ differ (rw (e, kill_pid) (λ h. cc)) (λ s. ground arith)
  | inr (inl e) ↦ agree (rw (e, kill_pid) refl) (inl e)
  | inr (inr (t, e)) ↦ elim (Bool-cases (bytes_eq (strip t) expected_comm)) [
    | inl k ↦ delivery-Raises machine pid expected_comm (machine.deliver pid) refl (t, e, k)
    | inr k ↦
        differ (rw (e, kill_pid, k) (λ h. cc)) (λ s. elim s [
          | inl d ↦ cc (d, e)
          | inr (n, a) ↦ misnamed machine pid expected_comm e k n
        ])
  ]
]
