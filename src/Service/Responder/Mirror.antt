-- ===== src/Service/Responder/Mirror.antt =====
-- hunter/responder.py mirrors broker/internal/hunter/respond.go.
use agentic_ebpf_patrol.Service.Responder.Returns.{agree, differ}
use agentic_ebpf_patrol.Prelude.{
  ◌↔◌, ◌≢◌, sym, ◌∙◌, some_inj, ℕ, pos, ◌≤◌, ◌<◌, ◌≡◌, refl, ◌⊎◌, inl, inr, true, false, [], ◌∷◌,
  reverse, ◌==◌, none, some, Bytes, All, All-append, bytes_eq, leb, Bool-cases, if◌then◌else◌,
  arith,
}
use mathlib.Core.List.{reverse-cons}
use agentic_ebpf_patrol.Text.{
  ascii_space, space_width, last_space_width, trim_from, trim_reversed, trim_space,
}
use agentic_ebpf_patrol.Hunter.Respond.{
  Host, KillError, kill_process, exited, mismatch, kill_failed,
}
use agentic_ebpf_patrol.Service.Responder.{
  is_white, strip_left, strip, Machine, text, missing, unreadable, Delivery, undeliverable,
  no_permission, delivered, no_process, kill_via_script, kill_pid,
}

-- ASCII, without the four separators that only Python takes for white space.
abbrev pub IsPlain : ℕ → Type 0
IsPlain c = (c < 0x80) × ((c < 0x1C) ⊎ (0x20 ≤ c))

plain_width : (c b a : ℕ) → IsPlain c → space_width c b a ≡ (if is_white c then 1 else 0)
unfolding space_width
plain_width c b a h = ground arith

-- A rune of two or three bytes does not end in an ASCII byte.
two-ne : (b c : ℕ) → IsPlain c → (space_width b c 0 == 2) ≡ false
unfolding space_width
two-ne b c h = ground arith

three-ne : (a b c : ℕ) → IsPlain c → (space_width a b c == 3) ≡ false
unfolding space_width
three-ne a b c h = ground arith

ascii_space-is_white : (c : ℕ) → IsPlain c → ascii_space c ≡ is_white c
ascii_space-is_white c h = ground arith

plain_last_width : (c b a : ℕ) → IsPlain c → last_space_width c b a ≡ (if is_white c then 1 else 0)
unfolding last_space_width
plain_last_width c b a h = rw (two-ne b c h, three-ne a b c h, ascii_space-is_white c h) refl

trim_from-strip_left : (s : Bytes) → All IsPlain s → trim_from 0 s ≡ strip_left s
unfolding trim_from strip_left
trim_from-strip_left [] h = refl
trim_from-strip_left (c ∷ s) (p, h) = elim (Bool-cases (is_white c)) [
  | inl w ↦ rw (plain_width c _ _ p, w, trim_from, strip_left) (trim_from-strip_left s h)
  | inr w ↦ rw (plain_width c _ _ p, w, trim_from, strip_left) refl
]

trim_reversed-strip_left : (s : Bytes) → All IsPlain s → trim_reversed 0 s ≡ strip_left s
unfolding trim_reversed strip_left
trim_reversed-strip_left [] h = refl
trim_reversed-strip_left (c ∷ s) (p, h) = elim (Bool-cases (is_white c)) [
  | inl w ↦
      rw (plain_last_width c _ _ p, w, trim_reversed, strip_left) (trim_reversed-strip_left s h)
  | inr w ↦ rw (plain_last_width c _ _ p, w, trim_reversed, strip_left) refl
]

strip_left-IsPlain : (s : Bytes) → All IsPlain s → All IsPlain (strip_left s)
unfolding strip_left
strip_left-IsPlain [] h = tt
strip_left-IsPlain (c ∷ s) (p, h) = elim (Bool-cases (is_white c)) [
  | inl w ↦ rw (w, strip_left) (strip_left-IsPlain s h)
  | inr w ↦ rw (w, strip_left) (p, h)
]

reverse-IsPlain : (s : Bytes) → All IsPlain s → All IsPlain (reverse s)
reverse-IsPlain [] h = tt
reverse-IsPlain (c ∷ s) (p, h) =
    rw (reverse-cons c s) (All-append IsPlain (reverse s) (c ∷ []) (reverse-IsPlain s h) (p, tt))

-- On such texts `strings.TrimSpace` and `str.strip` agree.
pub trim_space-strip : (s : Bytes) → All IsPlain s → trim_space s ≡ strip s
unfolding trim_space strip
trim_space-strip s h =
    let middle = reverse-IsPlain (strip_left s) (strip_left-IsPlain s h) in
    rw (trim_from-strip_left s h, trim_reversed-strip_left (reverse (strip_left s)) middle) refl

-- The host and the machine give the same answers for a pid: no readable file, whatever the reason,
-- or the same plain text, and a signal that is delivered to both or fails for both, whatever the
-- reason.
abbrev pub Alike : Host → Machine → ℕ → Type 0
Alike host machine pid =
    ((host.read_comm pid ≡ none)
      × ((machine.read_comm (pos pid) ≡ missing) ⊎ (machine.read_comm (pos pid) ≡ unreadable)))
    ⊎ ((t : Bytes) × All IsPlain t
        × (host.read_comm pid ≡ some t)
        × (machine.read_comm (pos pid) ≡ text t)
        × ((host.deliver pid ≡ true) ↔ (machine.deliver (pos pid) ≡ delivered)))

-- The direct signal was not permitted, and the helper's call returned `True`.
abbrev pub Helped : Host → Machine → ℕ → Bytes → Type 0
Helped host machine pid expected_comm =
    ((kill_process host pid expected_comm).error ≡ some kill_failed)
    × (machine.deliver (pos pid) ≡ no_permission)
    × ((kill_via_script machine (pos pid) expected_comm).returned ≡ some true)

not_low : (pid : ℕ) → 2 ≤ pid → leb pid 1 ≡ false
not_low pid h = ground arith

Mirrors : Host → Machine → ℕ → Bytes → Type 0
Mirrors host machine pid expected_comm =
    ((kill_pid machine (pos pid) expected_comm).returned ≡ some true)
    ↔ (((kill_process host pid expected_comm).error ≡ none) ⊎ Helped host machine pid expected_comm)

-- Neither kills.
neither :
    (host : Host) (machine : Machine) (pid : ℕ) (expected_comm : Bytes) (e : KillError)
    → (kill_process host pid expected_comm).error ≡ some e
    → e ≢ kill_failed
    → (kill_pid machine (pos pid) expected_comm).returned ≢ some true
    → Mirrors host machine pid expected_comm
unfolding Mirrors
neither host machine pid expected_comm e k other n = (
  λ h. absurd (n h),
  λ h. elim h [ inl x ↦ cc (x, k) | inr (x, y, z) ↦ absurd (other (some_inj (sym k ∙ x))) ],
)

-- The name is the expected one, and a signal fails.
failing :
    (host : Host) (machine : Machine) (pid : ℕ) (expected_comm : Bytes) (d : Delivery)
    → machine.deliver (pos pid) ≡ d
    → d ≢ delivered
    → (kill_process host pid expected_comm).error ≡ some kill_failed
    → (t : Bytes) × (machine.read_comm (pos pid) ≡ text t)
      × (bytes_eq (strip t) expected_comm ≡ true)
    → Mirrors host machine pid expected_comm
unfolding Mirrors kill_pid
failing host machine pid name delivered e n k (t, r, same) = absurd (n refl)
failing host machine pid name no_process e n k (t, r, same) =
    differ (rw (r, kill_pid, same, e) (λ h. cc))
      (λ h. elim h [ inl x ↦ cc (x, k) | inr (x, y, z) ↦ cc (y, e) ])
failing host machine pid name undeliverable e n k (t, r, same) =
    differ (rw (r, kill_pid, same, e) (λ h. cc))
      (λ h. elim h [ inl x ↦ cc (x, k) | inr (x, y, z) ↦ cc (y, e) ])
failing host machine pid name no_permission e n k (t, r, same) = (
  λ h. inr (k, e, rw (r, kill_pid, same, e) at h),
  λ h. elim h [ inl x ↦ cc (x, k) | inr (x, y, z) ↦ rw (r, kill_pid, same, e) z ],
)

-- `kill_pid` mirrors `KillProcess`, where both meet the same answers on a pid of at least 2 and the
-- name that is read is ASCII without the separators 0x1C to 0x1F: it returns `True` exactly when
-- `KillProcess` returns no error, or when `KillProcess` fails to signal, the service is not permitted
-- to, and the call of the helper returns `True`.
pub kill_pid-kill_process :
    (host : Host) (machine : Machine) (pid : ℕ) (expected_comm : Bytes)
    → 2 ≤ pid
    → Alike host machine pid
    → ((kill_pid machine (pos pid) expected_comm).returned ≡ some true) ↔ (
        ((kill_process host pid expected_comm).error ≡ none)
        ⊎ Helped host machine pid expected_comm)
unfolding kill_pid kill_process Mirrors
kill_pid-kill_process host machine pid name h (inl (r, unread)) =
    neither host machine pid name exited (rw (r, kill_process, not_low pid h) refl) (λ e. cc)
      (elim unread [ inl r' ↦ rw (r', kill_pid) (λ x. cc) | inr r' ↦ rw (r', kill_pid) (λ x. cc) ])
kill_pid-kill_process host machine pid name h (inr (t, plain, r, r', (there, back))) =
    let low = not_low pid h in
    let trimmed = trim_space-strip t plain in
    elim (Bool-cases (bytes_eq (strip t) name)) [
      | inr k ↦
          neither host machine pid name (mismatch (strip t))
            (rw (r, kill_process, low, trimmed, k) refl) (λ e. cc) (rw (r', kill_pid, k) (λ x. cc))
      | inl k ↦ elim (Bool-cases (host.deliver pid)) [
        | inl sent ↦
            agree (rw (r', kill_pid, k, there sent) refl)
              (inl (rw (r, kill_process, low, trimmed, k, sent) refl))
        | inr lost ↦
            failing host machine pid name (machine.deliver (pos pid)) refl (λ d. cc (back d, lost))
              (rw (r, kill_process, low, trimmed, k, lost) refl) (t, r', k)
      ]
    ]
