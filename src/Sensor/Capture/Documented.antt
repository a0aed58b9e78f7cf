-- ===== src/Sensor/Capture/Documented.antt =====
-- sensor/cyber-patrol-ebpf/src/main.rs: the documented behaviour of the kernel, and the texts it reads.
use agentic_ebpf_patrol.Prelude.{
  ℕ, zero, suc, ◌+◌, ◌*◌, ◌/◌, ◌%◌, ◌^◌, ◌≤◌, ◌<◌, ◌≡◌, ◌≢◌, refl, inl, inr, ◌||◌, [], ◌∷◌, ◌++◌,
  some, Bytes, ℤ, ◌+ℤ◌, to_i64, length, length-append, length-replicate, length-take, take-append,
  All, Option-cases, arith,
}
use agentic_ebpf_patrol.Text.{join, trim_space}
use agentic_ebpf_patrol.Events.{Event}
use agentic_ebpf_patrol.Events.Reads.{until_zero}
use agentic_ebpf_patrol.Sensor.{task_comm_len}
use agentic_ebpf_patrol.Sensor.Layout.{take-take}
use agentic_ebpf_patrol.Sensor.RoundTrip.{text_of}
use agentic_ebpf_patrol.Sensor.Capture.{
  Kernel, zeros, written_to, walk_argv, captured_argv, captured_filename, text_or_none, is_unread,
  comm_or_zeros,
}

-- What the kernel's documentation says of its helpers: a name has 16 bytes; a text that is read into
-- `n` bytes leaves room for its NUL and holds none.
pub record IsDocumented (k : Kernel) : Type 0 where
  pub ktime_u64 : k.ktime_ns < 2 ^ 64
  pub comm_long : (b : Bytes) → k.current_comm ≡ some b → length b ≡ task_comm_len
  pub text_short : (p n : ℕ) (b : Bytes) → k.read_user_str p n ≡ some b → length b < n
  pub text_no_nul : (p n : ℕ) (b : Bytes) → k.read_user_str p n ≡ some b → All (λ c. c ≢ 0) b

-- The event of an `execve`, by what the kernel answered.
abbrev pub seen : ℤ → Kernel → Event
seen boot_wall k =
    let argv = captured_argv k in
    let name = text_or_none (captured_filename k) in
    record {
      timestamp = boot_wall +ℤ to_i64 k.ktime_ns;
      pid = k.pid_tgid / 2 ^ 32 % 2 ^ 32;
      tid = k.pid_tgid % 2 ^ 32;
      uid = k.uid_gid % 2 ^ 32;
      gid = k.uid_gid / 2 ^ 32 % 2 ^ 32;
      comm = until_zero (comm_or_zeros k.current_comm);
      filename = name;
      args = argv.texts;
      argc = length argv.texts;
      truncated = is_unread (captured_filename k) || argv.unreadable;
      command_line = trim_space (join (name ∷ argv.texts) (32 ∷ []));
    }

-- A text that fits a field of `n` bytes with its NUL.
abbrev pub Fits : ℕ → Bytes → Type 0
Fits n b = (length b < n) × All (λ c. c ≢ 0) b

pub length-written_to : (n : ℕ) (b : Bytes) → length (written_to n b) ≡ n
length-written_to n b =
    omega
      (arith, length-take n (b ++ zeros n), length-append b (zeros n), length-replicate {A = ℕ} n 0)

until_zero_self : (b : Bytes) → All (λ c. c ≢ 0) b → until_zero b ≡ b
until_zero_self [] h = refl
until_zero_self (c ∷ b) h = ground (arith, until_zero_self b h.1)

-- The text in a field is the text that was read into it.
pub text_of-written_to :
    (n : ℕ) (b : Bytes) → Fits n b → n ≤ 256 → text_of (length b % 2 ^ 16) (written_to n b) ≡ b
text_of-written_to n b (short, no_nul) h =
    let e : length b % 2 ^ 16 ≡ length b = omega arith in
    rw
      (
        e,
        take-take (length b) n (b ++ zeros n) (omega arith),
        take-append b (zeros n) {n = length b} refl,
      )
      (until_zero_self b no_nul)

module _ (k : Kernel) (d : IsDocumented k) where
  walk_argv-Fits :
      (argv rounds i : ℕ)
      → All (Fits 32) (walk_argv k argv rounds i).texts
        × (length (walk_argv k argv rounds i).texts ≤ rounds)
  unfolding walk_argv
  walk_argv-Fits argv zero i = (tt, omega arith)
  walk_argv-Fits argv (suc rounds) i = elim (Option-cases (k.read_user ((argv + 8 * i) % 2 ^ 64))) [
    | inl n ↦ rw (n, walk_argv) (tt, omega arith)
    | inr (zero, n) ↦ rw (n, walk_argv) (tt, omega arith)
    | inr (suc p, n) ↦ elim (Option-cases (k.read_user_str (suc p) 32)) [
      | inl r ↦ rw (n, walk_argv, r) (tt, omega arith)
      | inr (b, r) ↦
          let (fit, few) = walk_argv-Fits argv rounds (i + 1) in
          rw (n, walk_argv, r)
            (((d.text_short (suc p) 32 b r, d.text_no_nul (suc p) 32 b r), fit), omega (arith, few))
    ]
  ]

  pub argv-Fits : All (Fits 32) (captured_argv k).texts × (length (captured_argv k).texts ≤ 6)
  unfolding captured_argv
  argv-Fits = elim (Option-cases k.argv_ptr) [
    | inl n ↦ rw n (tt, omega arith)
    | inr (argv, n) ↦ rw n (walk_argv-Fits argv 6 0)
  ]

  pub filename-Fits : Fits 256 (text_or_none (captured_filename k))
  unfolding captured_filename
  filename-Fits = elim (Option-cases k.filename_ptr) [
    | inl n ↦ rw n (omega arith, tt)
    | inr (p, n) ↦ elim (Option-cases (k.read_user_str p 256)) [
      | inl r ↦ rw (n, r) (omega arith, tt)
      | inr (b, r) ↦ rw (n, r) (d.text_short p 256 b r, d.text_no_nul p 256 b r)
    ]
  ]

  pub comm_long : length (comm_or_zeros k.current_comm) ≡ 16
  comm_long = elim (Option-cases k.current_comm) [
    | inl n ↦ rw n
    | inr (b, n) ↦ rw n (d.comm_long b n)
  ]
