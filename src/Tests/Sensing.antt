-- ===== src/Tests/Sensing.antt =====
-- A kernel that captures one `execve` of a shell, and the record it gives.
use mathlib.Core.Option.{none-ne-some}
use agentic_ebpf_patrol.Prelude.{
  ℕ, zero, suc, ◌+◌, ◌*◌, ◌<◌, ◌≡◌, ◌≢◌, refl, sym, ap, inl, inr, pos, true, false, [], ◌∷◌, ◌++◌,
  Option, none, some, Bytes, ok, codes, replicate, length, take, All, arith, Bool-cases, ◌==◌,
  if◌then◌else◌, All-take, length-take, get_or,
}
use agentic_ebpf_patrol.Events.{Event, decode}
use agentic_ebpf_patrol.Triage.{is_suspicious}
use agentic_ebpf_patrol.Triage.Names.{BaseOf, Agree}
use agentic_ebpf_patrol.Hunter.Respond.{Host, kill_process}
use agentic_ebpf_patrol.Sensor.{ExecEvent, record_bytes}
use agentic_ebpf_patrol.Sensor.RoundTrip.{IsLaidOut, meant, decode-record_bytes}
use agentic_ebpf_patrol.Sensor.Capture.{Kernel, captured_argv, captured_filename, captured}
use agentic_ebpf_patrol.Sensor.Capture.Documented.{IsDocumented, seen}
use agentic_ebpf_patrol.Sensor.Capture.Reading.{IsSeen, decode-captured}
use agentic_ebpf_patrol.Sensor.Capture.Consequences.{decode-captured_cut, renaming_exec-spared}

abbrev exec : ExecEvent
exec = record {
  timestamp_ns = 5;
  pid = 42;
  tid = 42;
  uid = 1000;
  gid = 1000;
  comm = codes "bash" ++ replicate 12 0;
  filename = codes "/tmp/x" ++ replicate 250 0;
  filename_len = 6;
  args = (codes "x" ++ replicate 31 0) ∷ replicate 5 (replicate 32 0);
  arg_lens = 1 ∷ replicate 5 0;
  argc = 1;
  truncated = 0;
}

exec-IsLaidOut : IsLaidOut exec
exec-IsLaidOut = record {
  timestamp_fits = omega arith;
  pid_fits = omega arith;
  tid_fits = omega arith;
  uid_fits = omega arith;
  gid_fits = omega arith;
  comm_long = refl;
  filename_long = refl;
  filename_len_fits = omega arith;
  args_many = refl;
  args_long = (refl, (refl, (refl, (refl, (refl, (refl, tt))))));
  arg_lens_many = refl;
  arg_lens_fit =
      (omega arith, (omega arith, (omega arith, (omega arith, (omega arith, (omega arith, tt))))));
}

decode-record_bytes_example : decode (pos 7) (record_bytes exec) ≡ ok (meant (pos 7) exec)
decode-record_bytes_example = decode-record_bytes (pos 7) exec exec-IsLaidOut

-- Memory: the name of the program at 1, `argv` at 16 with one pointer, to the text at 2.
abbrev words : ℕ → Option ℕ
words n = if n == 16 then some 2 else some 0

-- The first bytes of a text, as many as leave room for its NUL.
abbrev room_for : ℕ → Bytes → Option Bytes
room_for zero b = none
room_for (suc n) b = some (take n b)

abbrev text_at_address : Bytes → ℕ → ℕ → Option Bytes
text_at_address path p n = if p == 1 then room_for n path else room_for n (codes "x")

abbrev kernel_comm : Bytes
kernel_comm = codes "bash" ++ replicate 12 0

-- The kernel while `bash` executes the program at this path.
abbrev kernel : Bytes → Kernel
kernel path = record {
  ktime_ns = 5;
  pid_tgid = 42 * 4_294_967_296 + 42;
  uid_gid = 1000 * 4_294_967_296 + 1000;
  current_comm = some kernel_comm;
  filename_ptr = some 1;
  argv_ptr = some 16;
  read_user = words;
  read_user_str = text_at_address path;
}

room_for-Fits :
    (n : ℕ) (text b : Bytes)
    → All (λ c. c ≢ 0) text
    → room_for n text ≡ some b
    → (length b < n) × All (λ c. c ≢ 0) b
room_for-Fits zero text b h e = absurd (none-ne-some b e)
room_for-Fits (suc n) text b h e =
    let is : take n text ≡ b = cc in
    rw (← is) (omega (arith, length-take n text), All-take (λ c. c ≢ 0) n text h)

kernel-IsDocumented : (path : Bytes) → All (λ c. c ≢ 0) path → IsDocumented (kernel path)
kernel-IsDocumented path h = record {
  ktime_u64 = omega arith;
  comm_long = λ b e. let is : kernel_comm ≡ b = cc in ap length (sym is);
  text_short = λ p n b e. (fits p n b e).0;
  text_no_nul = λ p n b e. (fits p n b e).1;
}
  where
    fits :
        (p n : ℕ) (b : Bytes)
        → text_at_address path p n ≡ some b
        → (length b < n) × All (λ c. c ≢ 0) b
    fits p n b e = elim (Bool-cases (p == 1)) [
      | inl y ↦ room_for-Fits n path b h (rw y at e)
      | inr y ↦ room_for-Fits n (codes "x") b (λ z. cc, tt) (rw y at e)
    ]

short_path_no_nul : All (λ c. c ≢ 0) (codes "/tmp/x")
short_path_no_nul = (λ e. cc, (λ e. cc, (λ e. cc, (λ e. cc, (λ e. cc, (λ e. cc, tt))))))

decode-captured_example :
    (e : Event) × (decode (pos 7) (record_bytes (captured (kernel (codes "/tmp/x")))) ≡ ok e)
    × IsSeen (pos 7) (kernel (codes "/tmp/x")) e
decode-captured_example =
    decode-captured (pos 7) (kernel (codes "/tmp/x"))
      (kernel-IsDocumented (codes "/tmp/x") short_path_no_nul)

-- A path of 300 bytes.
abbrev long_path : Bytes
long_path = replicate 300 97

replicate_no_nul : (n : ℕ) → All (λ (c : ℕ). c ≢ 0) (replicate n 97)
replicate_no_nul zero = tt
replicate_no_nul (suc n) = (λ e. cc, replicate_no_nul n)

long_path_reads :
    captured_argv (kernel long_path) ≡ record { texts = codes "x" ∷ []; unreadable = false }
unfolding captured_argv
long_path_reads = refl

decode-captured_cut_example :
    (e : Event) × (decode (pos 7) (record_bytes (captured (kernel long_path))) ≡ ok e)
    × (e.filename ≡ take 255 long_path)
    × (e.filename ≢ long_path)
    × (e.truncated ≡ false)
decode-captured_cut_example =
    decode-captured_cut (pos 7) (kernel long_path) long_path 1
      (kernel-IsDocumented long_path (replicate_no_nul 300)) (omega arith) refl refl
      (ap (λ a. a.unreadable) long_path_reads)

-- The program names the process `x`.
abbrev renamed : Host
renamed = record { read_comm = λ pid. some (codes "x" ++ 10 ∷ []); deliver = λ pid. true }

abbrev seen_event : Event
seen_event = seen (pos 7) (kernel (codes "/tmp/x"))

seen-BaseOf : BaseOf seen_event.filename (codes "x")
unfolding captured_filename
seen-BaseOf = ((λ e. cc, tt), inr (codes "/tmp", refl))

seen-differs : ¬ Agree (codes "x") seen_event.comm
seen-differs (inl (rest, e)) = absurd (omega (arith, ap length e))
seen-differs (inr (rest, e)) = absurd (omega (arith, ap (λ b. get_or b 0 0) e))

renaming_exec-spared_example :
    (e : Event) × (decode (pos 7) (record_bytes (captured (kernel (codes "/tmp/x")))) ≡ ok e)
    × (is_suspicious e ≡ true)
    × ((kill_process renamed e.pid e.comm).signalled ≡ [])
renaming_exec-spared_example =
    renaming_exec-spared (pos 7) (kernel (codes "/tmp/x")) renamed (codes "x")
      (kernel-IsDocumented (codes "/tmp/x") short_path_no_nul) seen-BaseOf (λ e. cc) (λ e. cc)
      seen-differs ((omega arith, omega arith), (omega arith, omega arith)) refl
