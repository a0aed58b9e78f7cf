-- ===== src/Hunter/Respond/Safety.antt =====
-- Whom `KillProcess` signals, and whom it cannot.
use agentic_ebpf_patrol.Prelude.{
  some_inj, ℕ, ◌≤◌, ◌≡◌, sym, ◌∙◌, ◌⊎◌, inl, inr, true, false, [], ◌∷◌, ◌++◌, none, some, Bytes,
  bytes_eq, bytes_eq_sound, bytes_eq_refl, bytes_eq_iff, leb, leb→le, le→leb, Option-cases,
  if◌then◌else◌, arith, Bool-cases,
}
use agentic_ebpf_patrol.Text.{trim_space}
use agentic_ebpf_patrol.Text.Trim.{
  BeginsClean, EndsClean, trim_space-clean, PrintableEnds, trim_space_newline,
}
use agentic_ebpf_patrol.Hunter.Respond.{
  Host, KillError, refused, exited, mismatch, kill_failed, kill_process,
}

-- The process is there under the name that was asked for.
abbrev pub IsTarget : Host → ℕ → Bytes → Type 0
IsTarget host pid expected_comm =
    (comm_bytes : Bytes) × (2 ≤ pid)
    × (host.read_comm pid ≡ some comm_bytes)
    × (trim_space comm_bytes ≡ expected_comm)

low_pid_spared :
    (host : Host) (pid : ℕ) (expected_comm : Bytes)
    → leb pid 1 ≡ true
    → ¬ IsTarget host pid expected_comm
low_pid_spared host pid expected_comm low t = ground arith

-- The two cases, for a pid that the code does not refuse.
abbrev Cases : Host → ℕ → Bytes → Type 0
Cases host pid expected_comm =
    (IsTarget host pid expected_comm × ((kill_process host pid expected_comm).signalled ≡ pid ∷ []))
    ⊎ ((¬ IsTarget host pid expected_comm)
        × ((kill_process host pid expected_comm).signalled ≡ [])
        × ((e : KillError) × ((kill_process host pid expected_comm).error ≡ some e)))

low-Cases : (host : Host) (pid : ℕ) (expected_comm : Bytes) → pid ≤ 1 → Cases host pid expected_comm
unfolding kill_process
low-Cases host pid expected_comm low =
    inr (λ t. omega arith, rw (le→leb pid 1 low), (refused, rw (le→leb pid 1 low)))

exited-Cases :
    (host : Host) (pid : ℕ) (expected_comm : Bytes)
    → leb pid 1 ≡ false
    → host.read_comm pid ≡ none
    → Cases host pid expected_comm
unfolding kill_process
exited-Cases host pid expected_comm high r =
    inr (λ t. cc (t.2, r), rw (high, r, kill_process), (exited, rw (high, r, kill_process)))

mismatch-Cases :
    (host : Host) (pid : ℕ) (expected_comm comm_bytes : Bytes)
    → leb pid 1 ≡ false
    → host.read_comm pid ≡ some comm_bytes
    → bytes_eq (trim_space comm_bytes) expected_comm ≡ false
    → Cases host pid expected_comm
unfolding kill_process
mismatch-Cases host pid expected_comm comm_bytes high r differ = inr (
  not_target,
  rw (high, r, kill_process, differ),
  (mismatch (trim_space comm_bytes), rw (high, r, kill_process, differ)),
)
  where
    not_target : ¬ IsTarget host pid expected_comm
    not_target (name, h, r', e) =
        let same : name ≡ comm_bytes = some_inj (sym r' ∙ r) in
        let matches : trim_space comm_bytes ≡ expected_comm = rw (← same) e in
        cc (differ, (bytes_eq_iff (trim_space comm_bytes) expected_comm).1 matches)

match-Cases :
    (host : Host) (pid : ℕ) (expected_comm comm_bytes : Bytes)
    → leb pid 1 ≡ false
    → host.read_comm pid ≡ some comm_bytes
    → bytes_eq (trim_space comm_bytes) expected_comm ≡ true
    → Cases host pid expected_comm
unfolding kill_process
match-Cases host pid expected_comm comm_bytes high r same = inl (
  (comm_bytes, ground arith, r, bytes_eq_sound (trim_space comm_bytes) expected_comm same),
  rw (high, r, kill_process, same) (ground arith),
)

-- For every host, pid and expected name there are two cases. Either the pid is at least 2 and the
-- host reports the expected name for it, white space trimmed: then SIGKILL goes to that pid, once.
-- Or this fails: then nothing is signalled and an error is returned.
pub kill_process-safe :
    (host : Host) (pid : ℕ) (expected_comm : Bytes)
    → (IsTarget host pid expected_comm
        × ((kill_process host pid expected_comm).signalled ≡ pid ∷ []))
      ⊎ ((¬ IsTarget host pid expected_comm)
          × ((kill_process host pid expected_comm).signalled ≡ [])
          × ((e : KillError) × ((kill_process host pid expected_comm).error ≡ some e)))
kill_process-safe host pid expected_comm = elim (Bool-cases (leb pid 1)) [
  | inl low ↦ low-Cases host pid expected_comm (leb→le pid 1 low)
  | inr high ↦ elim (Option-cases (host.read_comm pid)) [
    | inl r ↦ exited-Cases host pid expected_comm high r
    | inr (comm_bytes, r) ↦ elim (Bool-cases (bytes_eq (trim_space comm_bytes) expected_comm)) [
      | inl same ↦ match-Cases host pid expected_comm comm_bytes high r same
      | inr differ ↦ mismatch-Cases host pid expected_comm comm_bytes high r differ
    ]
  ]
]

-- A process whose name begins or ends with ASCII white space is never signalled under that name,
-- whatever the host answers: the name that is read is trimmed and the expected one is not.
pub untrimmed-spared :
    (host : Host) (pid : ℕ) (expected_comm : Bytes)
    → ¬ (BeginsClean expected_comm × EndsClean expected_comm)
    → (kill_process host pid expected_comm).signalled ≡ []
untrimmed-spared host pid expected_comm dirty = elim (kill_process-safe host pid expected_comm) [
  | inl ((comm_bytes, h, r, e), sent) ↦ absurd (dirty (rw e at (trim_space-clean comm_bytes)))
  | inr (n, spared, failed) ↦ spared
]

-- A live process with a pid of at least 2, whose name has printable ends and stands in its `comm`
-- file before a newline, is signalled under that name, and the call fails only if the signal does.
pub kill_process-hits :
    (host : Host) (pid : ℕ) (comm : Bytes)
    → 2 ≤ pid
    → PrintableEnds comm
    → host.read_comm pid ≡ some (comm ++ 10 ∷ [])
    → kill_process host pid comm
      ≡ record { error = if host.deliver pid then none else some kill_failed; signalled = pid ∷ [] }
unfolding kill_process
kill_process-hits host pid comm h p r =
    rw (r, kill_process, trim_space_newline comm p, bytes_eq_refl comm) (ground arith)
