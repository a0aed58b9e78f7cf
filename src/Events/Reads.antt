-- ===== src/Events/Reads.antt =====
-- broker/internal/events/events.go: the value of each read of `Decode` inside the record.
use agentic_ebpf_patrol.Prelude.{
  ℕ, zero, suc, ◌+◌, ◌-◌, ◌*◌, ◌≤◌, ◌<◌, ◌%◌, ◌≡◌, refl, sym, ap, ◌∙◌, ◌⊎◌, inl, inr, ℤ, pos, ◌+ℤ◌,
  to_i64, not, List, [], ◌∷◌, ◌++◌, append-nil, append_assoc, Bytes, length, length-drop,
  length-take, take, drop, get_or, ok, ltb, ◌==◌, le→leb, le→ltb, Bool-cases, arith, if◌then◌else◌,
}
use agentic_ebpf_patrol.Text.{join, trim_space}
use agentic_ebpf_patrol.Events.{
  Event, task_comm_len, max_filename, max_args, max_arg_len, event_size, off_timestamp, off_pid,
  off_tid, off_uid, off_gid, off_comm, off_filename, off_filename_ln, off_args, off_arg_lens,
  off_argc, off_truncated, slice, index, little_endian, uint, index_zero_from, c_string, c_string_n,
  decode_args, read_uint, decode,
}

-- The bytes before the first NUL, or all.
abbrev pub until_zero : Bytes → Bytes
until_zero [] = []
until_zero (c ∷ b) = if c == 0 then [] else c ∷ until_zero b

-- The `n` bytes at an offset.
abbrev pub bytes_at : Bytes → ℕ → ℕ → Bytes
bytes_at raw off n = take n (drop off raw)

abbrev pub uint_at : Bytes → ℕ → ℕ → ℕ
uint_at raw off width = little_endian (bytes_at raw off width)

slice-ok :
    (raw : Bytes) (lo hi : ℕ)
    → lo ≤ hi
    → hi ≤ length raw
    → slice raw lo hi ≡ ok (bytes_at raw lo (hi - lo))
unfolding slice
slice-ok raw lo hi h k = rw (le→leb lo hi h, le→leb hi (length raw) k)

slice_width-ok :
    (raw : Bytes) (off n : ℕ)
    → off + n ≤ length raw
    → slice raw off (off + n) ≡ ok (bytes_at raw off n)
slice_width-ok raw off n h =
    let e : off + n - off ≡ n = omega arith in
    slice-ok raw off (off + n) (omega arith) h ∙ ap (λ (k : ℕ). ok (bytes_at raw off k)) e

index-ok : (raw : Bytes) (i : ℕ) → i < length raw → index raw i ≡ ok (get_or raw i 0)
unfolding index
index-ok [] i h = absurd (omega arith)
index-ok (c ∷ raw) zero h = refl
index-ok (c ∷ raw) (suc i) h = index-ok raw i (omega arith)

length-bytes_at : (raw : Bytes) (off n : ℕ) → off + n ≤ length raw → length (bytes_at raw off n) ≡ n
length-bytes_at raw off n h = omega (arith, length-take n (drop off raw), length-drop off raw)

take-take_self : (n : ℕ) (b : Bytes) → take n (take n b) ≡ take n b
take-take_self zero b = refl
take-take_self (suc n) [] = refl
take-take_self (suc n) (c ∷ b) = ap (λ t. c ∷ t) (take-take_self n b)

uint-ok :
    (width : ℕ) (raw : Bytes) (off : ℕ)
    → off + width ≤ length raw
    → uint width (bytes_at raw off width) ≡ ok (uint_at raw off width)
unfolding uint
uint-ok width raw off h = rw (
  le→ltb (length (bytes_at raw off width)) width (omega (arith, length-bytes_at raw off width h)),
  take-take_self width (drop off raw),
)

read_uint-ok :
    (raw : Bytes) (off width : ℕ)
    → off + width ≤ length raw
    → read_uint raw off width ≡ ok (uint_at raw off width)
unfolding read_uint
read_uint-ok raw off width h = rw (slice_width-ok raw off width h) (uint-ok width raw off h)

-- Where the NUL stands.
abbrev FirstZero : ℕ → Bytes → Type 0
FirstZero i b =
    (index_zero_from i b ≡ ℤ.negsuc 0) × (until_zero b ≡ b)
    ⊎ (index_zero_from i b ≡ pos (i + length (until_zero b)))
      × (length (until_zero b) ≤ length b)
      × (take (length (until_zero b)) b ≡ until_zero b)

index_zero_from-FirstZero : (i : ℕ) (b : Bytes) → FirstZero i b
unfolding index_zero_from
index_zero_from-FirstZero i [] = inl (refl, refl)
index_zero_from-FirstZero i (c ∷ b) = ground (arith, index_zero_from-FirstZero (i + 1) b)

pub c_string-until_zero : (b : Bytes) → c_string b ≡ ok (until_zero b)
c_string-until_zero b = elim (index_zero_from-FirstZero 0 b) [
  | inl (e, whole) ↦ unfold c_string in rw (e, c_string) (ap ok (sym whole))
  | inr (e, short, front) ↦
      let n = length (until_zero b) in
      let from : 0 + n ≡ n = omega arith in
      let off : n - 0 ≡ n = omega arith in
      unfold c_string in
      rw (e, c_string, from, slice-ok b 0 n (omega arith) short, off) (ap ok front)
]

take_whole : (b : Bytes) (n : ℕ) → length b ≤ n → take n b ≡ b
take_whole [] zero h = refl
take_whole [] (suc n) h = refl
take_whole (c ∷ b) zero h = absurd (omega arith)
take_whole (c ∷ b) (suc n) h = ap (λ t. c ∷ t) (take_whole b n (omega arith))

-- A length past the field's own end counts as the field's length.
pub c_string_n-until_zero : (b : Bytes) (n : ℕ) → c_string_n b (pos n) ≡ ok (until_zero (take n b))
unfolding c_string_n
c_string_n-until_zero b n = elim (Bool-cases (ltb (length b) n)) [
  | inl over ↦
      let off : length b - 0 ≡ length b = omega arith in
      rw (
        over,
        slice-ok b 0 (length b) (omega arith) (omega arith),
        c_string-until_zero,
        off,
        take_whole b (length b) (omega arith),
        take_whole b n (ground arith),
      )
  | inr within ↦
      let off : n - 0 ≡ n = omega arith in
      rw (within, slice-ok b 0 n (omega arith) (ground arith), c_string-until_zero, off)
]

-- The arguments from the `i`th on.
abbrev pub args_at : Bytes → ℕ → ℕ → List Bytes
args_at raw zero i = []
args_at raw (suc rounds) i =
    until_zero (
      take (uint_at raw (off_arg_lens + i * 2) 2)
        (bytes_at raw (off_args + i * max_arg_len) max_arg_len))
    ∷ args_at raw rounds (i + 1)

pub decode_args-ok :
    (raw : Bytes) (rounds i : ℕ) (args : List Bytes)
    → i + rounds ≤ max_args
    → event_size ≤ length raw
    → decode_args raw rounds i args ≡ ok (args ++ args_at raw rounds i)
unfolding decode_args
decode_args-ok raw zero i args h k = rw append-nil
decode_args-ok raw (suc rounds) i args h k =
    let lens = off_arg_lens + i * 2 in
    let start = off_args + i * max_arg_len in
    rw
      (
        slice_width-ok raw lens 2 (omega arith),
        uint-ok 2 raw lens (omega arith),
        slice_width-ok raw start max_arg_len (omega arith),
        c_string_n-until_zero (bytes_at raw start max_arg_len) (uint_at raw lens 2),
        decode_args-ok raw rounds (i + 1) _ (omega arith) k,
      )
      (ap ok (append_assoc args _ (args_at raw rounds (i + 1))))

-- `argc` as the decoder bounds it.
abbrev pub argc_at : Bytes → ℕ
argc_at raw = let n = get_or raw off_argc 0 in if ltb max_args n then max_args else n

abbrev pub filename_at : Bytes → Bytes
filename_at raw =
    until_zero (take (uint_at raw off_filename_ln 2) (bytes_at raw off_filename max_filename))

-- The event that the fields of a record spell, read at their offsets with no test.
abbrev pub event_at : ℤ → Bytes → Event
event_at boot_wall raw = record {
  timestamp = boot_wall +ℤ to_i64 (uint_at raw off_timestamp 8);
  pid = uint_at raw off_pid 4;
  tid = uint_at raw off_tid 4;
  uid = uint_at raw off_uid 4;
  gid = uint_at raw off_gid 4;
  comm = until_zero (bytes_at raw off_comm task_comm_len);
  filename = filename_at raw;
  args = args_at raw (argc_at raw) 0;
  argc = argc_at raw;
  truncated = not (get_or raw off_truncated 0 == 0);
  command_line = trim_space (join (filename_at raw ∷ args_at raw (argc_at raw) 0) (32 ∷ []));
}

argc_at-le : (raw : Bytes) → argc_at raw ≤ max_args
argc_at-le raw = ground arith

argc_at-mod : (raw : Bytes) → argc_at raw % 256 ≡ argc_at raw
argc_at-mod raw = ground arith

-- A record of full size is decoded, and to the event that its fields spell.
pub decode-event_at :
    (boot_wall : ℤ) (raw : Bytes)
    → event_size ≤ length raw
    → decode boot_wall raw ≡ ok (event_at boot_wall raw)
unfolding decode
decode-event_at boot_wall raw h = rw (
  le→ltb (length raw) event_size h,
  read_uint-ok raw off_timestamp 8 (omega arith),
  read_uint-ok raw off_pid 4 (omega arith),
  read_uint-ok raw off_tid 4 (omega arith),
  read_uint-ok raw off_uid 4 (omega arith),
  read_uint-ok raw off_gid 4 (omega arith),
  slice_width-ok raw off_comm task_comm_len (omega arith),
  c_string-until_zero,
  read_uint-ok raw off_filename_ln 2 (omega arith),
  slice_width-ok raw off_filename max_filename (omega arith),
  c_string_n-until_zero,
  index-ok raw off_argc (omega arith),
  decode_args-ok raw (argc_at raw) 0 [] (omega (arith, argc_at-le raw)) h,
  index-ok raw off_truncated (omega arith),
  argc_at-mod raw,
)
