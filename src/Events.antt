-- ===== src/Events.antt =====
-- broker/internal/events/events.go: the layout of a ring buffer record, and `Decode`. A slice or
-- an index out of range panics in Go; the model's reads do so too.
pub mod Reads
pub mod Bounds
pub mod Clock
use agentic_ebpf_patrol.Prelude.{
  ℕ, zero, suc, ◌+◌, ◌-◌, ◌*◌, ◌%◌, ℤ, pos, ◌+ℤ◌, to_i64, Bool, true, false, not, ◌&&◌, ◌||◌, List,
  [], ◌∷◌, ◌++◌, Option, none, some, Bytes, length, take, drop, Result, ok, err, panic, ◌>>=◌, ltb,
  leb, ◌==◌, if◌then◌else◌,
}
use agentic_ebpf_patrol.Text.{join, trim_space}

-- The layout constants.
abbrev pub task_comm_len : ℕ
task_comm_len = 16

abbrev pub max_filename : ℕ
max_filename = 256

abbrev pub max_args : ℕ
max_args = 6

abbrev pub max_arg_len : ℕ
max_arg_len = 32

abbrev pub event_size : ℕ
event_size = 504

abbrev pub off_timestamp : ℕ
off_timestamp = 0

abbrev pub off_pid : ℕ
off_pid = 8

abbrev pub off_tid : ℕ
off_tid = 12

abbrev pub off_uid : ℕ
off_uid = 16

abbrev pub off_gid : ℕ
off_gid = 20

abbrev pub off_comm : ℕ
off_comm = 24

abbrev pub off_filename : ℕ
off_filename = 40

abbrev pub off_filename_ln : ℕ
off_filename_ln = 296

abbrev pub off_args : ℕ
off_args = 298

abbrev pub off_arg_lens : ℕ
off_arg_lens = 490

abbrev pub off_argc : ℕ
off_argc = 502

abbrev pub off_truncated : ℕ
off_truncated = 503

-- `Timestamp` is in nanoseconds from the epoch; the numbers are of 32, 32, 32, 32 and 8 bits.
pub record Event : Type 0 where
  pub timestamp : ℤ
  pub pid : ℕ
  pub tid : ℕ
  pub uid : ℕ
  pub gid : ℕ
  pub comm : Bytes
  pub filename : Bytes
  pub args : List Bytes
  pub argc : ℕ
  pub truncated : Bool
  pub command_line : Bytes

-- "short ring buffer record: got %d bytes".
pub data DecodeError : Type 0 where
  short_record : ℕ → DecodeError

abbrev pub Decoded : Type 0 → Type 0
Decoded = Result DecodeError

-- `b[lo:hi]`
unfoldable pub slice : Bytes → ℕ → ℕ → Decoded Bytes
slice b lo hi = if leb lo hi && leb hi (length b) then ok (take (hi - lo) (drop lo b)) else panic

-- `b[i]`
unfoldable pub index : Bytes → ℕ → Decoded ℕ
index [] i = panic
index (c ∷ b) zero = ok c
index (c ∷ b) (suc i) = index b i

-- The number that bytes spell, the lowest first.
abbrev pub little_endian : Bytes → ℕ
little_endian [] = 0
little_endian (c ∷ b) = c + 256 * little_endian b

-- `binary.LittleEndian.Uint16`, `Uint32` and `Uint64`: the argument is the width in bytes.
unfoldable pub uint : ℕ → Bytes → Decoded ℕ
uint width b = if ltb (length b) width then panic else ok (little_endian (take width b))

unfoldable pub index_zero_from : ℕ → Bytes → ℤ
index_zero_from i [] = ℤ.negsuc 0
index_zero_from i (c ∷ b) = let rest = index_zero_from (i + 1) b in if c == 0 then pos i else rest

unfoldable pub index_zero : Bytes → ℤ
unfolding index_zero_from
index_zero b = index_zero_from 0 b

-- `cString`: the bytes before the first NUL.
unfoldable pub c_string : Bytes → Decoded Bytes
unfolding index_zero slice
c_string b = elim (index_zero b) [ pos i ↦ slice b 0 i | ℤ.negsuc _ ↦ ok b ]

-- `cStringN`: `n` is an `int`, bounded by the field's own length.
unfoldable pub c_string_n : Bytes → ℤ → Decoded Bytes
unfolding c_string slice
c_string_n b (ℤ.negsuc n) = do s ← slice b 0 (length b); c_string s
c_string_n b (pos n) = do s ← slice b 0 (if ltb (length b) n then length b else n); c_string s

-- The loop over the arguments: rounds left, `i`, and what was appended.
unfoldable pub decode_args : Bytes → ℕ → ℕ → List Bytes → Decoded (List Bytes)
unfolding slice uint c_string_n
decode_args raw zero i args = ok args
decode_args raw (suc rounds) i args = do
  let start = off_args + i * max_arg_len
  len_bytes ← slice raw (off_arg_lens + i * 2) (off_arg_lens + i * 2 + 2)
  arg_len ← uint 2 len_bytes
  field ← slice raw start (start + max_arg_len)
  arg ← c_string_n field (pos arg_len)
  decode_args raw rounds (i + 1) (args ++ arg ∷ [])

-- `binary.LittleEndian.UintN(raw[off : off+width])`
unfoldable pub read_uint : Bytes → ℕ → ℕ → Decoded ℕ
unfolding slice uint
read_uint raw off width = do b ← slice raw off (off + width); uint width b

-- `Decode`, given the wall-clock time of the boot in nanoseconds.
unfoldable pub decode : ℤ → Bytes → Decoded Event
unfolding read_uint slice index c_string c_string_n decode_args
decode boot_wall raw = if ltb (length raw) event_size then err (short_record (length raw)) else do
  boot_ns ← read_uint raw off_timestamp 8
  event_pid ← read_uint raw off_pid 4
  event_tid ← read_uint raw off_tid 4
  event_uid ← read_uint raw off_uid 4
  event_gid ← read_uint raw off_gid 4
  comm_field ← slice raw off_comm (off_comm + task_comm_len)
  event_comm ← c_string comm_field
  fn_len ← read_uint raw off_filename_ln 2
  fn_field ← slice raw off_filename (off_filename + max_filename)
  event_filename ← c_string_n fn_field (pos fn_len)
  raw_argc ← index raw off_argc
  let capped = if ltb max_args raw_argc then max_args else raw_argc
  event_args ← decode_args raw capped 0 []
  flag ← index raw off_truncated
  ok (record {
    timestamp = boot_wall +ℤ to_i64 boot_ns;
    pid = event_pid;
    tid = event_tid;
    uid = event_uid;
    gid = event_gid;
    comm = event_comm;
    filename = event_filename;
    args = event_args;
    argc = capped % 256;
    truncated = not (flag == 0);
    command_line = trim_space (join (event_filename ∷ event_args) (32 ∷ []));
  })
