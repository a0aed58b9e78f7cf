-- ===== src/Sensor/Capture/Reading.antt =====
-- sensor/cyber-patrol-ebpf/src/main.rs and broker/internal/events/events.go: the event of an `execve`
-- against the kernel's answers, by no word of the sensor's program.
use agentic_ebpf_patrol.Prelude.{
  ℕ, zero, suc, ◌+◌, ◌*◌, ◌/◌, ◌%◌, ◌^◌, ◌≤◌, ◌<◌, ◌≡◌, ◌≢◌, ◌⊎◌, refl, inl, inr, Bool, true, false,
  ◌||◌, List, [], ◌∷◌, Option, none, some, Bytes, ok, ℤ, ◌+ℤ◌, to_i64, length, get_or, Option-cases,
  arith,
}
use agentic_ebpf_patrol.Text.{join, trim_space}
use agentic_ebpf_patrol.Events.{Event, decode}
use agentic_ebpf_patrol.Events.Reads.{until_zero}
use agentic_ebpf_patrol.Sensor.{record_bytes}
use agentic_ebpf_patrol.Sensor.Capture.{
  Kernel, walk_argv, captured_argv, captured_filename, text_or_none, is_unread, captured,
}
use agentic_ebpf_patrol.Sensor.Capture.Documented.{IsDocumented, seen}
use agentic_ebpf_patrol.Sensor.Capture.Seen.{decode-seen}

-- The kernel's answer for the `i`th pointer of the array at `argv`.
abbrev pub pointer : Kernel → ℕ → ℕ → Option ℕ
pointer k argv i = k.read_user ((argv + 8 * i) % 2 ^ 64)

-- The `i`th pointer is not null, and this is the text at it.
abbrev pub HasArg : Kernel → ℕ → ℕ → Bytes → Type 0
HasArg k argv i t =
    (p : ℕ) × (p ≢ 0) × (pointer k argv i ≡ some p) × (k.read_user_str p 32 ≡ some t)

-- The `i`th pointer is null, or it cannot be read.
abbrev pub EndsAt : Kernel → ℕ → ℕ → Type 0
EndsAt k argv i = (pointer k argv i ≡ some 0) ⊎ (pointer k argv i ≡ none)

-- The `i`th pointer is not null, and the text at it cannot be read.
abbrev pub FailsAt : Kernel → ℕ → ℕ → Type 0
FailsAt k argv i = (p : ℕ) × (p ≢ 0) × (pointer k argv i ≡ some p) × (k.read_user_str p 32 ≡ none)

-- From the `i`th pointer on these are the texts, one for each pointer and at most `n`. Fewer than `n`
-- end at a null pointer, at one that cannot be read, or, if `failed`, at a text that cannot be read.
abbrev pub AreArgs : Kernel → ℕ → ℕ → ℕ → List Bytes → Bool → Type 0
AreArgs k argv n i ts failed =
    (length ts ≤ n)
    × ((j : ℕ) → j < length ts → HasArg k argv (i + j) (get_or ts j []))
    × (((failed ≡ false) × ((length ts ≡ n) ⊎ EndsAt k argv (i + length ts)))
        ⊎ ((failed ≡ true) × (length ts < n) × FailsAt k argv (i + length ts)))

-- The arguments: none without `argv`, otherwise its texts from the first on, six at most.
abbrev pub ArgsRead : Kernel → List Bytes → Bool → Type 0
ArgsRead k ts failed =
    ((k.argv_ptr ≡ none) × (ts ≡ []) × (failed ≡ false))
    ⊎ ((argv : ℕ) × (k.argv_ptr ≡ some argv) × AreArgs k argv 6 0 ts failed)

-- The file name: the text at its pointer, or none if the pointer or the text cannot be read.
abbrev pub NameRead : Kernel → Bytes → Bool → Type 0
NameRead k name failed =
    ((failed ≡ false) × ((p : ℕ) × (k.filename_ptr ≡ some p) × (k.read_user_str p 256 ≡ some name)))
    ⊎ ((failed ≡ true)
        × (name ≡ [])
        × ((k.filename_ptr ≡ none)
            ⊎ ((p : ℕ) × (k.filename_ptr ≡ some p) × (k.read_user_str p 256 ≡ none))))

-- The event says what the kernel answered.
pub record IsSeen (boot_wall : ℤ) (k : Kernel) (e : Event) : Type 0 where
  pub at : e.timestamp ≡ boot_wall +ℤ to_i64 k.ktime_ns
  pub same_pid : e.pid ≡ k.pid_tgid / 2 ^ 32 % 2 ^ 32
  pub same_tid : e.tid ≡ k.pid_tgid % 2 ^ 32
  pub same_uid : e.uid ≡ k.uid_gid % 2 ^ 32
  pub same_gid : e.gid ≡ k.uid_gid / 2 ^ 32 % 2 ^ 32
  pub named :
      ((b : Bytes) × (k.current_comm ≡ some b) × (e.comm ≡ until_zero b))
      ⊎ ((k.current_comm ≡ none) × (e.comm ≡ []))
  pub texts :
      (no_name no_arg : Bool) × NameRead k e.filename no_name
      × ArgsRead k e.args no_arg
      × (e.truncated ≡ no_name || no_arg)
  pub counts : e.argc ≡ length e.args
  pub joined : e.command_line ≡ trim_space (join (e.filename ∷ e.args) (32 ∷ []))

module _ (k : Kernel) (argv : ℕ) where
  no_args : (n i : ℕ) → EndsAt k argv i → AreArgs k argv n i [] false
  no_args n i h =
      let e : i ≡ i + 0 = omega arith in
      (omega arith, λ j l. absurd (omega arith), inl (refl, inr (rw (← e) h)))

  -- A text in front of others.
  more_args :
      (n i : ℕ) (t : Bytes) (ts : List Bytes) (failed : Bool)
      → HasArg k argv i t
      → AreArgs k argv n (i + 1) ts failed
      → AreArgs k argv (suc n) i (t ∷ ts) failed
  more_args n i t ts failed h (few, each, end) =
      let e : (i + 1) + length ts ≡ i + length (t ∷ ts) = omega arith in
      (
        omega (arith, few),
        λ j. elim j as (λ j. j < length (t ∷ ts) → HasArg k argv (i + j) (get_or (t ∷ ts) j [])) [
          | zero ↦ λ l. let e0 : i ≡ i + 0 = omega arith in rw (← e0) h
          | suc j' ↦ λ l.
              let e' : (i + 1) + j' ≡ i + suc j' = omega arith in rw (← e') (each j' (omega arith))
        ],
        elim end [
          | inl (whole, inl full) ↦ inl (whole, inl (omega (arith, full)))
          | inl (whole, inr ends) ↦ inl (whole, inr (rw (← e) ends))
          | inr (bad, below, fails) ↦ inr (bad, omega (arith, below), rw (← e) fails)
        ],
      )

  walk_argv-AreArgs :
      (n i : ℕ) → AreArgs k argv n i (walk_argv k argv n i).texts (walk_argv k argv n i).unreadable
  unfolding walk_argv
  walk_argv-AreArgs zero i = (omega arith, λ j l. absurd (omega arith), inl (refl, inl refl))
  walk_argv-AreArgs (suc n) i = elim (Option-cases (pointer k argv i)) [
    | inl e ↦ rw (e, walk_argv) (no_args (suc n) i (inr e))
    | inr (zero, e) ↦ rw (e, walk_argv) (no_args (suc n) i (inl e))
    | inr (suc p, e) ↦ elim (Option-cases (k.read_user_str (suc p) 32)) [
      | inl r ↦
          let e0 : i ≡ i + 0 = omega arith in
          rw (e, walk_argv, r)
            (
              omega arith,
              λ j l. absurd (omega arith),
              inr (refl, omega arith, (suc p, λ z. cc, rw (← e0) e, r)),
            )
      | inr (t, r) ↦
          let rest = walk_argv k argv n (i + 1) in
          rw (e, walk_argv, r)
            (more_args n i t rest.texts rest.unreadable (suc p, λ z. cc, e, r)
              (walk_argv-AreArgs n (i + 1)))
    ]
  ]

captured_argv-ArgsRead :
    (k : Kernel) → ArgsRead k (captured_argv k).texts (captured_argv k).unreadable
unfolding captured_argv
captured_argv-ArgsRead k = elim (Option-cases k.argv_ptr) [
  | inl n ↦ rw n (inl (refl, refl, refl))
  | inr (argv, n) ↦ rw n (inr (argv, refl, walk_argv-AreArgs k argv 6 0))
]

captured_filename-NameRead :
    (k : Kernel) → NameRead k (text_or_none (captured_filename k)) (is_unread (captured_filename k))
unfolding captured_filename
captured_filename-NameRead k = elim (Option-cases k.filename_ptr) [
  | inl n ↦ rw n (inr (refl, refl, inl refl))
  | inr (p, n) ↦ elim (Option-cases (k.read_user_str p 256)) [
    | inl r ↦ rw (n, r) (inr (refl, refl, inr (p, refl, r)))
    | inr (b, r) ↦ rw (n, r) (inl (refl, (p, refl, r)))
  ]
]

comm-named :
    (boot_wall : ℤ) (k : Kernel)
    → ((b : Bytes) × (k.current_comm ≡ some b) × ((seen boot_wall k).comm ≡ until_zero b))
      ⊎ ((k.current_comm ≡ none) × ((seen boot_wall k).comm ≡ []))
comm-named boot_wall k = elim (Option-cases k.current_comm) [
  | inl n ↦ inr (n, rw n refl)
  | inr (b, n) ↦ inl (b, n, rw n refl)
]

-- For every `execve` that the sensor captures, under the documented behaviour of the kernel's helpers,
-- `Decode` gives from the record's bytes an event that says what the kernel answered. The four ids are
-- cut out of the two words, and the name ends before its first NUL. The file name is the text at its
-- pointer, empty if that cannot be read. The arguments are the texts at the pointers of `argv`, from
-- the first on and without a gap: six of them, or all up to a null pointer, to a pointer that cannot
-- be read, or to a text that cannot. `Truncated` holds exactly if the file name could not be read or
-- the arguments end at a text that cannot; a null pointer does not set it.
pub decode-captured :
    (boot_wall : ℤ) (k : Kernel)
    → IsDocumented k
    → (e : Event) × (decode boot_wall (record_bytes (captured k)) ≡ ok e) × IsSeen boot_wall k e
decode-captured boot_wall k d = (
  seen boot_wall k,
  decode-seen boot_wall k d,
  record {
    at = refl;
    same_pid = refl;
    same_tid = refl;
    same_uid = refl;
    same_gid = refl;
    named = comm-named boot_wall k;
    texts = (
      is_unread (captured_filename k),
      (captured_argv k).unreadable,
      captured_filename-NameRead k,
      captured_argv-ArgsRead k,
      refl,
    );
    counts = refl;
    joined = refl;
  },
)
