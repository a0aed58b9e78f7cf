-- ===== src/Sensor/Capture/Seen.antt =====
-- sensor/cyber-patrol-ebpf/src/main.rs and broker/internal/events/events.go: what the broker sees of an
-- `execve` that the sensor captured.
use agentic_ebpf_patrol.Prelude.{
  ℕ, zero, suc, ◌+◌, ◌-◌, ◌%◌, ◌^◌, ◌<◌, ◌≡◌, refl, ap, ◌∙◌, inl, inr, not, ◌||◌, ◌==◌, List, [],
  ◌∷◌, ◌++◌, map, Bytes, ok, ℤ, length, length-replicate, replicate, get_or, All, Bool-cases, arith,
}
use agentic_ebpf_patrol.Events.{decode}
use agentic_ebpf_patrol.Sensor.{ExecEvent, record_bytes}
use agentic_ebpf_patrol.Sensor.RoundTrip.{
  IsLaidOut, text_of, texts_from, arg_count, decode-record_bytes,
}
use agentic_ebpf_patrol.Sensor.Capture.{
  Kernel, zeros, written_to, captured_argv, captured_filename, text_or_none, is_unread, captured,
}
use agentic_ebpf_patrol.Sensor.Capture.Documented.{
  Fits, IsDocumented, argv-Fits, comm_long, filename-Fits, length-written_to, seen,
  text_of-written_to,
}

slots_long :
    (ts : List Bytes) (n : ℕ)
    → All (λ a. length a ≡ 32) (map (written_to 32) ts ++ replicate n (zeros 32))
slots_long [] zero = tt
slots_long [] (suc n) = (refl, slots_long [] n)
slots_long (t ∷ ts) n = (length-written_to 32 t, slots_long ts n)

lens_fit :
    (ts : List Bytes) (n : ℕ)
    → All (λ m. m < 2 ^ 16) (map (λ b. length b % 2 ^ 16) ts ++ replicate n 0)
lens_fit [] zero = tt
lens_fit [] (suc n) = (omega arith, lens_fit [] n)
lens_fit (t ∷ ts) n = (omega arith, lens_fit ts n)

length-filled {ℓ} :
    {A : Type ℓ} (f : Bytes → A) (z : A) (ts : List Bytes) (n : ℕ)
    → length (map f ts ++ replicate n z) ≡ length ts + n
length-filled f z [] n = omega (arith, length-replicate n z)
length-filled f z (t ∷ ts) n = omega (arith, length-filled f z ts n)

-- The filled slots, one by one.
get_or-filled {ℓ} :
    {A : Type ℓ} (f : Bytes → A) (z w : A) (ts : List Bytes) (n j : ℕ)
    → j < length ts
    → get_or (map f ts ++ replicate n z) j w ≡ f (get_or ts j [])
get_or-filled f z w [] n j h = absurd (omega arith)
get_or-filled f z w (t ∷ ts) n zero h = refl
get_or-filled f z w (t ∷ ts) n (suc j) h = get_or-filled f z w ts n j (omega arith)

All-get_or : (ts : List Bytes) (j : ℕ) → All (Fits 32) ts → j < length ts → Fits 32 (get_or ts j [])
All-get_or [] j h l = absurd (omega arith)
All-get_or (t ∷ ts) zero h l = h.0
All-get_or (t ∷ ts) (suc j) h l = All-get_or ts j h.1 (omega arith)

-- The text in the `i`th slot.
abbrev text_in : ExecEvent → ℕ → Bytes
text_in x i = text_of (get_or x.arg_lens i 0) (get_or x.args i [])

-- If the slots from the `i`th on hold these texts, then they are read back.
texts_from_lem :
    (x : ExecEvent) (ts : List Bytes) (i : ℕ)
    → ((j : ℕ) → j < length ts → text_in x (i + j) ≡ get_or ts j [])
    → texts_from x (length ts) i ≡ ts
texts_from_lem x [] i h = refl
texts_from_lem x (t ∷ ts) i h =
    let e : i ≡ i + 0 = omega arith in
    let head : text_in x i ≡ t = ap (text_in x) e ∙ h 0 (omega arith) in
    let tail = λ (j : ℕ) (l : j < length ts).
      let e' : (i + 1) + j ≡ i + suc j = omega arith in
      ap (text_in x) e' ∙ h (suc j) (omega arith) in
    rw (head, texts_from_lem x ts (i + 1) tail)

module _ (k : Kernel) (d : IsDocumented k) where
  captured-IsLaidOut : IsLaidOut (captured k)
  unfolding captured
  captured-IsLaidOut =
      let ts = (captured_argv k).texts in
      let (fit, few) = argv-Fits k d in
      record {
        timestamp_fits = d.ktime_u64;
        pid_fits = omega arith;
        tid_fits = omega arith;
        uid_fits = omega arith;
        gid_fits = omega arith;
        comm_long = comm_long k d;
        filename_long = length-written_to 256 (text_or_none (captured_filename k));
        filename_len_fits = omega arith;
        args_many = omega (arith, length-filled (written_to 32) (zeros 32) ts (6 - length ts), few);
        args_long = slots_long ts (6 - length ts);
        arg_lens_many =
            omega (arith, length-filled (λ b. length b % 2 ^ 16) 0 ts (6 - length ts), few);
        arg_lens_fit = lens_fit ts (6 - length ts);
      }

  captured-arg_count : arg_count (captured k) ≡ length (captured_argv k).texts
  unfolding captured
  captured-arg_count = let (fit, few) = argv-Fits k d in ground arith

  captured-text_in :
      (j : ℕ)
      → j < length (captured_argv k).texts
      → text_in (captured k) j ≡ get_or (captured_argv k).texts j []
  unfolding captured
  captured-text_in j h =
      let ts = (captured_argv k).texts in
      let (fit, few) = argv-Fits k d in
      rw
        (
          get_or-filled (λ b. length b % 2 ^ 16) 0 0 ts (6 - length ts) j h,
          get_or-filled (written_to 32) (zeros 32) [] ts (6 - length ts) j h,
        )
        (text_of-written_to 32 (get_or ts j []) (All-get_or ts j fit h) (omega arith))

  captured-texts : texts_from (captured k) (arg_count (captured k)) 0 ≡ (captured_argv k).texts
  captured-texts =
      let ts = (captured_argv k).texts in
      let from = λ (j : ℕ) (l : j < length ts).
        let e : 0 + j ≡ j = omega arith in ap (text_in (captured k)) e ∙ captured-text_in j l in
      rw captured-arg_count (texts_from_lem (captured k) ts 0 from)

  captured-filename :
      text_of (captured k).filename_len (captured k).filename ≡ text_or_none (captured_filename k)
  unfolding captured
  captured-filename =
      text_of-written_to 256 (text_or_none (captured_filename k)) (filename-Fits k d) (omega arith)

  captured-truncated :
      not ((captured k).truncated == 0)
      ≡ is_unread (captured_filename k) || (captured_argv k).unreadable
  unfolding captured
  captured-truncated =
      elim (Bool-cases (is_unread (captured_filename k) || (captured_argv k).unreadable)) [
        | inl t ↦ rw t
        | inr t ↦ rw t
      ]

-- `Decode` gives the event that the walk and the reads of the capture make.
pub decode-seen :
    (boot_wall : ℤ) (k : Kernel)
    → IsDocumented k
    → decode boot_wall (record_bytes (captured k)) ≡ ok (seen boot_wall k)
decode-seen boot_wall k d =
    decode-record_bytes boot_wall (captured k) (captured-IsLaidOut k d)
    ∙ rw (captured-filename k d, captured-texts k d, captured-arg_count k d, captured-truncated k d)
        (unfold captured in refl)
