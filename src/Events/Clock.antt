-- ===== src/Events/Clock.antt =====
-- broker/internal/events/events.go: `bootWallTime`, which anchors the kernel's clock to the wall clock
-- once. What `/proc/uptime` gives and the wall clock are arguments.
use agentic_ebpf_patrol.Prelude.{
  ℕ, zero, suc, ◌≤◌, ◌<◌, ◌^◌, ◌≡◌, ◌==◌, refl, ℤ, pos, ◌+ℤ◌, ◌≤ℤ◌, +ℤ_parts, to_i64, List, [], ◌∷◌,
  Option, none, some, Bytes, length, ok, ltb, le→ltb, if◌then◌else◌, arith, Bool-cases, inl, inr,
}
use agentic_ebpf_patrol.Events.{Event, Decoded, event_size, off_timestamp, decode}
use agentic_ebpf_patrol.Events.Reads.{uint_at, event_at, decode-event_at}

-- What `/proc/uptime` gives: it is not read, has no field, holds no number, or holds the seconds that
-- `time.Duration` turns into these nanoseconds.
pub data Uptime : Type 0 where
  unreadable no_fields no_number : Uptime
  elapsed_ns : ℤ → Uptime

-- `-d` of a `time.Duration`, which wraps around at the least one.
abbrev pub negated : ℤ → ℤ
negated (pos zero) = pos zero
negated (pos (suc n)) = ℤ.negsuc n
negated (ℤ.negsuc n) = if suc n == 2 ^ 63 then ℤ.negsuc n else pos (suc n)

-- What the function passed to `Do` stores in `procBootWall`.
abbrev pub first_boot_wall : Uptime → ℤ → ℤ
first_boot_wall unreadable now = now
first_boot_wall no_fields now = now
first_boot_wall no_number now = now
first_boot_wall (elapsed_ns d) now = now +ℤ negated d

-- `bootWallTime`: `procBootWall` is empty until `procBootWallOnce` has run.
unfoldable pub boot_wall_time : Uptime → ℤ → Option ℤ → ℤ × Option ℤ
boot_wall_time uptime now none = (first_boot_wall uptime now, some (first_boot_wall uptime now))
boot_wall_time uptime now (some boot_wall) = (boot_wall, some boot_wall)

-- `Decode` with that variable: a short record does not reach `bootWallTime`.
unfoldable pub decode_anchored : Uptime → ℤ → Bytes → Option ℤ → Decoded Event × Option ℤ
unfolding boot_wall_time
decode_anchored uptime now raw anchor =
    let (boot_wall, anchor') = boot_wall_time uptime now anchor in
    if ltb (length raw) event_size
    then (decode boot_wall raw, anchor)
    else (decode boot_wall raw, anchor')

-- The variable after more records, each with what the call would find.
unfoldable pub anchor_after : List (Uptime × ℤ × Bytes) → Option ℤ → Option ℤ
unfolding decode_anchored
anchor_after [] anchor = anchor
anchor_after ((uptime, now, raw) ∷ rest) anchor =
    anchor_after rest (decode_anchored uptime now raw anchor).1

decode_anchored_keeps :
    (uptime : Uptime) (now boot_wall : ℤ) (raw : Bytes)
    → (decode_anchored uptime now raw (some boot_wall)).1 ≡ some boot_wall
unfolding decode_anchored
decode_anchored_keeps uptime now boot_wall raw = elim (Bool-cases (ltb (length raw) event_size)) [
  | inl below ↦ rw below
  | inr full ↦ rw full
]

anchor_after-some :
    (rest : List (Uptime × ℤ × Bytes)) (boot_wall : ℤ)
    → anchor_after rest (some boot_wall) ≡ some boot_wall
unfolding anchor_after
anchor_after-some [] boot_wall = refl
anchor_after-some ((uptime, now, raw) ∷ rest) boot_wall =
    rw (decode_anchored_keeps uptime now boot_wall raw) (anchor_after-some rest boot_wall)

decode_anchored-some :
    (uptime : Uptime) (now boot_wall : ℤ) (raw : Bytes)
    → event_size ≤ length raw
    → decode_anchored uptime now raw (some boot_wall)
      ≡ (ok (event_at boot_wall raw), some boot_wall)
unfolding decode_anchored
decode_anchored-some uptime now boot_wall raw h =
    rw (le→ltb (length raw) event_size h, decode-event_at boot_wall raw h)

-- The value that the variable has after a full record.
abbrev pub anchored : Uptime → ℤ → Option ℤ → ℤ
anchored uptime now none = first_boot_wall uptime now
anchored uptime now (some boot_wall) = boot_wall

decode_anchored-full :
    (uptime : Uptime) (now : ℤ) (raw : Bytes) (anchor : Option ℤ)
    → event_size ≤ length raw
    → decode_anchored uptime now raw anchor
      ≡ (ok (event_at (anchored uptime now anchor) raw), some (anchored uptime now anchor))
unfolding decode_anchored
decode_anchored-full uptime now raw none h =
    rw (le→ltb (length raw) event_size h, decode-event_at (first_boot_wall uptime now) raw h)
decode_anchored-full uptime now raw (some boot_wall) h =
    decode_anchored-some uptime now boot_wall raw h

+ℤ_mono : (a : ℤ) (m n : ℕ) → m ≤ n → a +ℤ pos m ≤ℤ a +ℤ pos n
+ℤ_mono a m n h = omega (arith, +ℤ_parts a (pos m), +ℤ_parts a (pos n))

small_i64 : (n : ℕ) → n < 2 ^ 63 → to_i64 n ≡ pos n
small_i64 n h = ground arith

event_at-ordered :
    (w : ℤ) (raw raw' : Bytes)
    → uint_at raw off_timestamp 8 ≤ uint_at raw' off_timestamp 8
    → uint_at raw' off_timestamp 8 < 2 ^ 63
    → (event_at w raw).timestamp ≤ℤ (event_at w raw').timestamp
event_at-ordered w raw raw' order small =
    let m = uint_at raw off_timestamp 8 in
    let n = uint_at raw' off_timestamp 8 in
    rw (small_i64 m (omega (arith, order, small)), small_i64 n small) (+ℤ_mono w m n order)

-- Two full records decode to events whose times are in the order of the kernel's timestamps, as long
-- as these are below 2^63, whatever records come between, and however the wall clock and
-- `/proc/uptime` change between the calls.
pub decode_anchored-ordered :
    (u v : Uptime) (now later : ℤ) (raw raw' : Bytes) (between : List (Uptime × ℤ × Bytes))
    (anchor : Option ℤ)
    → event_size ≤ length raw
    → event_size ≤ length raw'
    → uint_at raw off_timestamp 8 ≤ uint_at raw' off_timestamp 8
    → uint_at raw' off_timestamp 8 < 2 ^ 63
    → let (first, anchor1) = decode_anchored u now raw anchor in
      let second = (decode_anchored v later raw' (anchor_after between anchor1)).0 in
      (e e' : Event) × (first ≡ ok e) × (second ≡ ok e') × (e.timestamp ≤ℤ e'.timestamp)
decode_anchored-ordered u v now later raw raw' between anchor full full' order small =
    let w = anchored u now anchor in
    rw
      (
        decode_anchored-full u now raw anchor full,
        anchor_after-some between w,
        decode_anchored-some v later w raw' full',
      )
      (event_at w raw, event_at w raw', refl, refl, event_at-ordered w raw raw' order small)
