-- ===== src/Sensor/Layout.antt =====
-- sensor/cyber-patrol-common/src/lib.rs against broker/internal/events/events.go: the fields of a
-- record at the offsets of the decoder.
use native.Mathlib.Nat.{pow-suc}
use agentic_ebpf_patrol.Prelude.{
  ℕ, zero, suc, ◌+◌, ◌*◌, ◌/◌, ◌^◌, ◌≤◌, ◌<◌, ◌≡◌, refl, sym, ap, ◌∙◌, List, [], ◌∷◌, ◌++◌, Bytes,
  length, length-append, take, drop, take-append, drop-append, get_or, All, arith,
}
use agentic_ebpf_patrol.Events.{little_endian}
use agentic_ebpf_patrol.Events.Reads.{bytes_at}
use agentic_ebpf_patrol.Sensor.{number_bytes, concat}

abbrev pub total : List Bytes → ℕ
total [] = 0
total (b ∷ bs) = length b + total bs

pub length-concat : (bs : List Bytes) → length (concat bs) ≡ total bs
length-concat [] = refl
length-concat (b ∷ bs) = omega (arith, length-append b (concat bs), length-concat bs)

-- One of several joined texts, at its offset.
concat_at :
    (before : List Bytes) (b : Bytes) (after : List Bytes) (off n : ℕ)
    → off ≡ total before
    → n ≡ length b
    → bytes_at (concat (before ++ b ∷ after)) off n ≡ b
concat_at [] b after off n e l = rw e (take-append b (concat after) l)
concat_at (a ∷ before) b after off n e l =
    rw (e, drop-append a (concat (before ++ b ∷ after)) (total before))
      (concat_at before b after (total before) n refl l)

pub length-number_bytes : (w n : ℕ) → length (number_bytes w n) ≡ w
length-number_bytes zero n = refl
length-number_bytes (suc w) n = ap suc (length-number_bytes w (n / 256))

pub little_endian-number_bytes : (w n : ℕ) → n < 256 ^ w → little_endian (number_bytes w n) ≡ n
little_endian-number_bytes zero n h = omega arith
little_endian-number_bytes (suc w) n h =
    let h' : n / 256 < 256 ^ w = omega (arith, rw pow-suc at h) in
    omega (arith, little_endian-number_bytes w (n / 256) h')

-- The `k`th of several joined texts.
pub text_at :
    (fs : List Bytes) (k off n : ℕ)
    → k < length fs
    → off ≡ total (take k fs)
    → n ≡ length (get_or fs k [])
    → bytes_at (concat fs) off n ≡ get_or fs k []
text_at [] k off n h e l = absurd (omega arith)
text_at (f ∷ fs) zero off n h e l = concat_at [] f fs off n e l
text_at (f ∷ fs) (suc k) off n h e l =
    rw (e, drop-append f (concat fs) (total (take k fs)))
      (text_at fs k (total (take k fs)) n (omega arith) refl l)

pub take-take : (n m : ℕ) (b : Bytes) → n ≤ m → take n (take m b) ≡ take n b
take-take zero m b h = refl
take-take (suc n) zero b h = absurd (omega arith)
take-take (suc n) (suc m) [] h = refl
take-take (suc n) (suc m) (c ∷ b) h = ap (λ t. c ∷ t) (take-take n m b (omega arith))

take-drop-take :
    (n k m : ℕ) (b : Bytes) → k + n ≤ m → take n (drop k (take m b)) ≡ take n (drop k b)
take-drop-take n zero m b h = take-take n m b (omega arith)
take-drop-take n (suc k) zero b h = absurd (omega arith)
take-drop-take n (suc k) (suc m) [] h = refl
take-drop-take n (suc k) (suc m) (c ∷ b) h = take-drop-take n k m b (omega arith)

drop-nil : (n : ℕ) → drop {A = ℕ} n [] ≡ []
drop-nil zero = refl
drop-nil (suc n) = refl

drop-drop : (i j : ℕ) (b : Bytes) → drop (i + j) b ≡ drop j (drop i b)
drop-drop zero j b = let e : 0 + j ≡ j = omega arith in ap (λ (n : ℕ). drop n b) e
drop-drop (suc i) j [] = drop-nil (suc i + j) ∙ sym (drop-nil j)
drop-drop (suc i) j (c ∷ b) =
    let e : suc i + j ≡ suc (i + j) = omega arith in
    ap (λ (n : ℕ). drop n (c ∷ b)) e ∙ drop-drop i j b

-- A part of a part.
pub bytes_at_within :
    (raw f : Bytes) (off m k n : ℕ)
    → bytes_at raw off m ≡ f
    → k + n ≤ m
    → bytes_at raw (off + k) n ≡ bytes_at f k n
bytes_at_within raw f off m k n e h =
    rw (drop-drop off k raw)
      (sym (take-drop-take n k m (drop off raw) h) ∙ ap (λ t. bytes_at t k n) e)

pub get_or_of_bytes_at :
    (raw : Bytes) (i : ℕ) {c : ℕ} → bytes_at raw i 1 ≡ c ∷ [] → get_or raw i 0 ≡ c
get_or_of_bytes_at [] zero e = cc
get_or_of_bytes_at [] (suc i) e = cc
get_or_of_bytes_at (b ∷ raw) zero e = cc
get_or_of_bytes_at (b ∷ raw) (suc i) e = get_or_of_bytes_at raw i e

-- Slots of one width stand at the multiples of it.
pub total_slots :
    (w : ℕ) (bs : List Bytes) (i : ℕ)
    → All (λ b. length b ≡ w) bs
    → i ≤ length bs
    → total (take i bs) ≡ i * w
total_slots w bs zero h l = omega arith
total_slots w [] (suc i) h l = absurd (omega arith)
total_slots w (b ∷ bs) (suc i) h l =
    let e : suc i * w ≡ w + i * w = grind arith in
    omega (arith, e, h.0, total_slots w bs i h.1 (omega arith))

pub slot_length :
    (w : ℕ) (bs : List Bytes) (i : ℕ)
    → All (λ b. length b ≡ w) bs
    → i < length bs
    → w ≡ length (get_or bs i [])
slot_length w [] i h l = absurd (omega arith)
slot_length w (b ∷ bs) zero h l = sym h.0
slot_length w (b ∷ bs) (suc i) h l = slot_length w bs i h.1 (omega arith)
