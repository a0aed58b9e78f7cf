-- ===== src/Sensor/RoundTrip.antt =====
-- sensor/cyber-patrol-common/src/lib.rs and broker/internal/events/events.go: what `Decode` makes of
-- the bytes of an `ExecEvent`.
use agentic_ebpf_patrol.Prelude.{
  ℕ, zero, suc, ◌+◌, ◌*◌, ◌^◌, ◌≤◌, ◌<◌, ◌≡◌, refl, sym, ap, ◌∙◌, not, ◌==◌, List, [], ◌∷◌, map,
  Bytes, ok, ℤ, ◌+ℤ◌, to_i64, length, take, get_or, All, ltb, arith, if◌then◌else◌,
}
use agentic_ebpf_patrol.Text.{join, trim_space}
use agentic_ebpf_patrol.Events.{Event, little_endian, decode}
use agentic_ebpf_patrol.Events.Reads.{
  bytes_at, uint_at, until_zero, args_at, argc_at, decode-event_at,
}
use agentic_ebpf_patrol.Sensor.{
  ExecEvent, task_comm_len, max_filename_len, max_args, max_arg_len, number_bytes, concat, layout,
  record_bytes,
}
use agentic_ebpf_patrol.Sensor.Layout.{
  total, length-concat, little_endian-number_bytes, text_at, bytes_at_within, get_or_of_bytes_at,
  total_slots, slot_length,
}

-- The arrays have their declared lengths, and the numbers fit their fields.
pub record IsLaidOut (x : ExecEvent) : Type 0 where
  pub timestamp_fits : x.timestamp_ns < 2 ^ 64
  pub pid_fits : x.pid < 2 ^ 32
  pub tid_fits : x.tid < 2 ^ 32
  pub uid_fits : x.uid < 2 ^ 32
  pub gid_fits : x.gid < 2 ^ 32
  pub comm_long : length x.comm ≡ task_comm_len
  pub filename_long : length x.filename ≡ max_filename_len
  pub filename_len_fits : x.filename_len < 2 ^ 16
  pub args_many : length x.args ≡ max_args
  pub args_long : All (λ a. length a ≡ max_arg_len) x.args
  pub arg_lens_many : length x.arg_lens ≡ max_args
  pub arg_lens_fit : All (λ n. n < 2 ^ 16) x.arg_lens

-- The text in a slot: the bytes up to the recorded length and the first NUL.
abbrev pub text_of : ℕ → Bytes → Bytes
text_of n field = until_zero (take n field)

-- The texts of the slots from the `i`th on.
abbrev pub texts_from : ExecEvent → ℕ → ℕ → List Bytes
texts_from x zero i = []
texts_from x (suc rounds) i =
    text_of (get_or x.arg_lens i 0) (get_or x.args i []) ∷ texts_from x rounds (i + 1)

abbrev pub arg_count : ExecEvent → ℕ
arg_count x = if ltb max_args x.argc then max_args else x.argc

-- The event that the record means, with no byte in sight.
abbrev pub meant : ℤ → ExecEvent → Event
meant boot_wall x = record {
  timestamp = boot_wall +ℤ to_i64 x.timestamp_ns;
  pid = x.pid;
  tid = x.tid;
  uid = x.uid;
  gid = x.gid;
  comm = until_zero x.comm;
  filename = text_of x.filename_len x.filename;
  args = texts_from x (arg_count x) 0;
  argc = arg_count x;
  truncated = not (x.truncated == 0);
  command_line =
      trim_space
        (join (text_of x.filename_len x.filename ∷ texts_from x (arg_count x) 0) (32 ∷ []));
}

slots_total : (w : ℕ) (bs : List Bytes) → All (λ b. length b ≡ w) bs → total bs ≡ length bs * w
slots_total w [] h = omega arith
slots_total w (b ∷ bs) h =
    let e : suc (length bs) * w ≡ w + length bs * w = grind arith in
    omega (arith, e, h.0, slots_total w bs h.1)

lens_total : (ns : List ℕ) → total (map (number_bytes 2) ns) ≡ length ns * 2
lens_total [] = omega arith
lens_total (n ∷ ns) = omega (arith, lens_total ns)

lens_long : (ns : List ℕ) → All (λ b. length b ≡ 2) (map (number_bytes 2) ns)
lens_long [] = tt
lens_long (n ∷ ns) = (refl, lens_long ns)

len_slot :
    (ns : List ℕ) (i : ℕ)
    → i < length ns
    → get_or (map (number_bytes 2) ns) i [] ≡ number_bytes 2 (get_or ns i 0)
len_slot [] i h = absurd (omega arith)
len_slot (n ∷ ns) zero h = refl
len_slot (n ∷ ns) (suc i) h = len_slot ns i (omega arith)

length-lens : (ns : List ℕ) → length (map (number_bytes 2) ns) ≡ length ns
length-lens [] = refl
length-lens (n ∷ ns) = ap suc (length-lens ns)

len_fits : (ns : List ℕ) (i : ℕ) → All (λ n. n < 2 ^ 16) ns → get_or ns i 0 < 2 ^ 16
len_fits [] i h = omega arith
len_fits (n ∷ ns) zero h = h.0
len_fits (n ∷ ns) (suc i) h = len_fits ns i h.1

module _ (x : ExecEvent) (v : IsLaidOut x) where
  args_total : length (concat x.args) ≡ 192
  args_total = omega (
    arith,
    length-concat x.args,
    slots_total 32 x.args v.args_long,
    ap (λ (n : ℕ). n * 32) v.args_many,
  )

  arg_lens_total : length (concat (map (number_bytes 2) x.arg_lens)) ≡ 12
  arg_lens_total = omega (
    arith,
    length-concat (map (number_bytes 2) x.arg_lens),
    lens_total x.arg_lens,
    v.arg_lens_many,
  )

  -- The record's fields at their offsets.
  head_numbers :
      (uint_at (record_bytes x) 0 8 ≡ x.timestamp_ns)
      × (uint_at (record_bytes x) 8 4 ≡ x.pid)
      × (uint_at (record_bytes x) 12 4 ≡ x.tid)
      × (uint_at (record_bytes x) 16 4 ≡ x.uid)
      × (uint_at (record_bytes x) 20 4 ≡ x.gid)
  unfolding record_bytes
  head_numbers = (
    little_endian-number_bytes 8 x.timestamp_ns v.timestamp_fits,
    little_endian-number_bytes 4 x.pid v.pid_fits,
    little_endian-number_bytes 4 x.tid v.tid_fits,
    little_endian-number_bytes 4 x.uid v.uid_fits,
    little_endian-number_bytes 4 x.gid v.gid_fits,
  )

  fields_at :
      (bytes_at (record_bytes x) 24 16 ≡ x.comm)
      × (bytes_at (record_bytes x) 40 256 ≡ x.filename)
      × (bytes_at (record_bytes x) 296 2 ≡ number_bytes 2 x.filename_len)
      × (bytes_at (record_bytes x) 298 192 ≡ concat x.args)
      × (bytes_at (record_bytes x) 490 12 ≡ concat (map (number_bytes 2) x.arg_lens))
      × (bytes_at (record_bytes x) 502 1 ≡ x.argc ∷ [])
      × (bytes_at (record_bytes x) 503 1 ≡ x.truncated ∷ [])
  unfolding record_bytes
  fields_at =
      let c = v.comm_long in
      let f = v.filename_long in
      let a = args_total in
      let l = arg_lens_total in
      (
        text_at (layout x) 5 24 16 (omega arith) (omega arith) (sym c),
        text_at (layout x) 6 40 256 (omega arith) (omega arith) (sym f),
        text_at (layout x) 7 296 2 (omega arith) (omega arith) (omega arith),
        text_at (layout x) 8 298 192 (omega arith) (omega arith) (sym a),
        text_at (layout x) 9 490 12 (omega arith) (omega arith) (sym l),
        text_at (layout x) 10 502 1 (omega arith) (omega arith) (omega arith),
        text_at (layout x) 11 503 1 (omega arith) (omega arith) (omega arith),
      )

  length-record_bytes : length (record_bytes x) ≡ 504
  unfolding record_bytes
  length-record_bytes =
      let c = v.comm_long in
      let f = v.filename_long in
      let a = args_total in let l = arg_lens_total in omega (arith, length-concat (layout x))

  filename-len_at : uint_at (record_bytes x) 296 2 ≡ x.filename_len
  filename-len_at =
      let (_, _, e, _, _, _, _) = fields_at in
      ap little_endian e ∙ little_endian-number_bytes 2 x.filename_len v.filename_len_fits

  arg_at : (i : ℕ) → i < 6 → bytes_at (record_bytes x) (298 + i * 32) 32 ≡ get_or x.args i []
  arg_at i h =
      let (_, _, _, e, _, _, _) = fields_at in
      bytes_at_within (record_bytes x) (concat x.args) 298 192 (i * 32) 32 e (omega arith)
      ∙ text_at x.args i (i * 32) 32 (omega (arith, v.args_many))
          (sym (total_slots 32 x.args i v.args_long (omega (arith, v.args_many))))
          (slot_length 32 x.args i v.args_long (omega (arith, v.args_many)))

  arg_len_at : (i : ℕ) → i < 6 → uint_at (record_bytes x) (490 + i * 2) 2 ≡ get_or x.arg_lens i 0
  arg_len_at i h =
      let (_, _, _, _, e, _, _) = fields_at in
      let slots = map (number_bytes 2) x.arg_lens in
      let many : i < length slots = omega (arith, v.arg_lens_many, length-lens x.arg_lens) in
      let long = lens_long x.arg_lens in
      ap little_endian (
        bytes_at_within (record_bytes x) (concat slots) 490 12 (i * 2) 2 e (omega arith)
        ∙ text_at slots i (i * 2) 2 many (sym (total_slots 2 slots i long (omega arith)))
            (slot_length 2 slots i long many)
        ∙ len_slot x.arg_lens i (omega (arith, v.arg_lens_many)))
      ∙ little_endian-number_bytes 2 (get_or x.arg_lens i 0) (len_fits x.arg_lens i v.arg_lens_fit)

  args_at-record_bytes :
      (rounds i : ℕ) → i + rounds ≤ 6 → args_at (record_bytes x) rounds i ≡ texts_from x rounds i
  args_at-record_bytes zero i h = refl
  args_at-record_bytes (suc rounds) i h = rw (
    arg_len_at i (omega arith),
    arg_at i (omega arith),
    args_at-record_bytes rounds (i + 1) (omega arith),
  )

  argc_at-record_bytes : argc_at (record_bytes x) ≡ arg_count x
  argc_at-record_bytes =
      let (_, _, _, _, _, e, _) = fields_at in
      ap (λ (n : ℕ). if ltb max_args n then max_args else n)
        (get_or_of_bytes_at (record_bytes x) 502 e)

arg_count-le : (x : ExecEvent) → arg_count x ≤ 6
arg_count-le x = ground arith

-- Every record that is laid out as declared, whatever it holds, is decoded to the event that it means:
-- each number unchanged, each text up to its recorded length and its first NUL, as many arguments as
-- `argc` says, six at most.
pub decode-record_bytes :
    (boot_wall : ℤ) (x : ExecEvent)
    → IsLaidOut x
    → decode boot_wall (record_bytes x) ≡ ok (meant boot_wall x)
decode-record_bytes boot_wall x v =
    let raw = record_bytes x in
    let (t, pid, tid, uid, gid) = head_numbers x v in
    let (comm, filename, _, _, _, _, flag) = fields_at x v in
    decode-event_at boot_wall raw (omega (arith, length-record_bytes x v))
    ∙ rw (
      t,
      pid,
      tid,
      uid,
      gid,
      comm,
      filename,
      filename-len_at x v,
      argc_at-record_bytes x v,
      args_at-record_bytes x v (arg_count x) 0 (omega (arith, arg_count-le x)),
      get_or_of_bytes_at raw 503 flag,
    )
