-- ===== src/Events/Bounds.antt =====
-- broker/internal/events/events.go: the sizes of a decoded event, and `Decode` on any record.
use native.Mathlib.Nat.{pow-suc}
use agentic_ebpf_patrol.Prelude.{
  ℕ, zero, suc, ◌+◌, ◌*◌, ◌^◌, ◌≤◌, ◌<◌, ◌≡◌, ◌≢◌, refl, ◌⊎◌, inl, inr, ℤ, [], ◌∷◌, Bytes, length,
  length-take, take, drop, All, All-take, All-drop, ok, err, ltb, lt→ltb, arith, Bool-cases,
}
use agentic_ebpf_patrol.Events.{
  Event, task_comm_len, max_filename, max_args, max_arg_len, event_size, off_pid, off_tid, off_uid,
  off_gid, off_comm, off_filename, off_filename_ln, off_args, off_arg_lens, short_record,
  little_endian, decode,
}
use agentic_ebpf_patrol.Events.Reads.{
  until_zero, bytes_at, uint_at, args_at, argc_at, event_at, decode-event_at,
}

abbrev pub IsByte : ℕ → Type 0
IsByte c = c < 256

-- A C string that fits a field of `n` bytes.
pub record FitsField (n : ℕ) (s : Bytes) : Type 0 where
  pub short : length s ≤ n
  pub no_nul : All (λ c. c ≢ 0) s

-- What holds of a decoded event.
pub record IsWellFormed (e : Event) : Type 0 where
  pub comm_fits : FitsField task_comm_len e.comm
  pub filename_fits : FitsField max_filename e.filename
  pub args_fit : All (FitsField max_arg_len) e.args
  pub args_counted : length e.args ≡ e.argc
  pub argc_bounded : e.argc ≤ max_args
  pub pid_u32 : e.pid < 2 ^ 32
  pub tid_u32 : e.tid < 2 ^ 32
  pub uid_u32 : e.uid < 2 ^ 32
  pub gid_u32 : e.gid < 2 ^ 32

until_zero-short : (b : Bytes) → length (until_zero b) ≤ length b
until_zero-short [] = omega arith
until_zero-short (c ∷ b) = ground (arith, until_zero-short b)

until_zero-no_nul : (b : Bytes) → All (λ c. c ≢ 0) (until_zero b)
until_zero-no_nul [] = tt
until_zero-no_nul (c ∷ b) = ground (arith, until_zero-no_nul b)

until_zero-FitsField : (n : ℕ) (b : Bytes) → length b ≤ n → FitsField n (until_zero b)
until_zero-FitsField n b h = record {
  short = omega (arith, until_zero-short b);
  no_nul = until_zero-no_nul b;
}

length-take-le : (n : ℕ) (b : Bytes) → length (take n b) ≤ n
length-take-le n b = omega (arith, length-take n b)

length-take_self : (n : ℕ) (b : Bytes) → length (take n b) ≤ length b
length-take_self n b = omega (arith, length-take n b)

args_at-fit : (raw : Bytes) (rounds i : ℕ) → All (FitsField max_arg_len) (args_at raw rounds i)
args_at-fit raw zero i = tt
args_at-fit raw (suc rounds) i =
    let n = uint_at raw (off_arg_lens + i * 2) 2 in
    let field = bytes_at raw (off_args + i * max_arg_len) max_arg_len in
    (
      until_zero-FitsField max_arg_len (take n field) (
          omega (
            arith,
            length-take_self n field,
            length-take-le max_arg_len (drop (off_args + i * max_arg_len) raw),
          )),
      args_at-fit raw rounds (i + 1),
    )

length-args_at : (raw : Bytes) (rounds i : ℕ) → length (args_at raw rounds i) ≡ rounds
length-args_at raw zero i = refl
length-args_at raw (suc rounds) i = omega (arith, length-args_at raw rounds (i + 1))

little_endian-lt : (n : ℕ) (b : Bytes) → length b ≤ n → All IsByte b → little_endian b < 256 ^ n
little_endian-lt zero [] h k = omega arith
little_endian-lt (suc n) [] h k = rw pow-suc (omega (arith, little_endian-lt n [] (omega arith) tt))
little_endian-lt zero (c ∷ b) h k = absurd (omega arith)
little_endian-lt (suc n) (c ∷ b) h k =
    rw pow-suc (omega (arith, little_endian-lt n b (omega arith) k.1))

u32_at : (raw : Bytes) (off : ℕ) → All IsByte raw → uint_at raw off 4 < 2 ^ 32
u32_at raw off k =
    little_endian-lt 4 (bytes_at raw off 4) (length-take-le 4 (drop off raw))
      (All-take IsByte 4 (drop off raw) (All-drop IsByte off raw k))

event_at-IsWellFormed :
    (boot_wall : ℤ) (raw : Bytes) → All IsByte raw → IsWellFormed (event_at boot_wall raw)
event_at-IsWellFormed boot_wall raw k = record {
  comm_fits =
      until_zero-FitsField task_comm_len _ (length-take-le task_comm_len (drop off_comm raw));
  filename_fits = until_zero-FitsField max_filename (take (uint_at raw off_filename_ln 2) field) (
      omega (
        arith,
        length-take_self (uint_at raw off_filename_ln 2) field,
        length-take-le max_filename (drop off_filename raw),
      ));
  args_fit = args_at-fit raw (argc_at raw) 0;
  args_counted = length-args_at raw (argc_at raw) 0;
  argc_bounded = ground arith;
  pid_u32 = u32_at raw off_pid k;
  tid_u32 = u32_at raw off_tid k;
  uid_u32 = u32_at raw off_uid k;
  gid_u32 = u32_at raw off_gid k;
}
  where
    field : Bytes
    field = bytes_at raw off_filename max_filename

decode-short :
    (boot_wall : ℤ) (raw : Bytes)
    → length raw < event_size
    → decode boot_wall raw ≡ err (short_record (length raw))
unfolding decode
decode-short boot_wall raw h = rw (lt→ltb (length raw) event_size h)

-- For every record of bytes, of any length and content, `Decode` does not panic: a record below
-- 504 bytes gives the error that names its length, and any other gives an event whose strings fit
-- their fields and hold no NUL, whose arguments are as many as `Argc` says, six at most, and whose
-- ids are 32-bit numbers.
pub decode-total :
    (boot_wall : ℤ) (raw : Bytes)
    → All IsByte raw
    → (length raw < event_size) × (decode boot_wall raw ≡ err (short_record (length raw)))
      ⊎ ((e : Event) × (event_size ≤ length raw) × (decode boot_wall raw ≡ ok e) × IsWellFormed e)
decode-total boot_wall raw k = elim (Bool-cases (ltb (length raw) event_size)) [
  | inl below ↦
      let h : length raw < event_size = ground arith in inl (h, decode-short boot_wall raw h)
  | inr full ↦
      let h : event_size ≤ length raw = ground arith in
      inr (
        event_at boot_wall raw,
        h,
        decode-event_at boot_wall raw h,
        event_at-IsWellFormed boot_wall raw k,
      )
]
