-- ===== src/Service/Float.antt =====
-- Python's comparison of floats, on the bit patterns of IEEE 754 doubles, and what hunter/models.py
-- and hunter/llm_engine.py do with it.
use agentic_ebpf_patrol.Prelude.{
  ℕ, ◌%◌, ◌^◌, ◌≤◌, ◌≡◌, ◌↔◌, Bool, true, false, not, ◌&&◌, ◌||◌, ltb, leb, ◌==◌, arith,
  if◌then◌else◌,
}

abbrev pub magnitude : ℕ → ℕ
magnitude x = x % 2 ^ 63

abbrev pub is_negative : ℕ → Bool
is_negative x = leb (2 ^ 63) x

abbrev pub is_nan : ℕ → Bool
is_nan x = ltb 0x7FF0000000000000 (magnitude x)

-- `x < y`: false if either is no number, and zero has no sign.
unfoldable pub float_lt : ℕ → ℕ → Bool
float_lt x y =
    if is_nan x || is_nan y
    then false
    else if is_negative x
    then if is_negative y
      then ltb (magnitude y) (magnitude x)
      else not ((magnitude x == 0) && (magnitude y == 0))
    else if is_negative y
    then false
    else ltb (magnitude x) (magnitude y)

-- `x <= y`.
abbrev pub float_le : ℕ → ℕ → Bool
float_le x y = not (is_nan x || is_nan y) && not (float_lt y x)

abbrev pub float_zero : ℕ
float_zero = 0

abbrev pub float_one : ℕ
float_one = 0x3FF0000000000000

-- 0.85, the default of the setting.
abbrev pub kill_confidence_floor : ℕ
kill_confidence_floor = 0x3FEB333333333333

-- `Field(ge=0.0, le=1.0)`.
unfoldable pub is_in_range : ℕ → Bool
unfolding float_lt
is_in_range v = float_le float_zero v && float_le v float_one

-- `max(0.0, min(1.0, v))`: each keeps its first argument unless the second is strictly smaller, or
-- larger.
unfoldable pub clamp_confidence : ℕ → ℕ
unfolding float_lt
clamp_confidence v =
    let below_one = if float_lt v float_one then v else float_one in
    if float_lt float_zero below_one then below_one else float_zero

-- Between zero and one the order of the floats is that of their bit patterns.
pub float_lt-unit : (x y : ℕ) → x ≤ float_one → y ≤ float_one → float_lt x y ≡ ltb x y
unfolding float_lt
float_lt-unit x y h k = ground arith

pub clamp_confidence_bounded : (v : ℕ) → clamp_confidence v ≤ float_one
unfolding clamp_confidence
clamp_confidence_bounded v = ground arith

-- Behind `Field`, the clamp only drops the sign of zero.
clamp_confidence_in_range : (v : ℕ) → is_in_range v ≡ true → clamp_confidence v ≡ magnitude v
unfolding clamp_confidence is_in_range
clamp_confidence_in_range v h = ground arith

reaches_magnitude :
    (floor c : ℕ)
    → floor ≤ float_one
    → is_in_range c ≡ true
    → (float_le floor c ≡ true) ↔ (floor ≤ magnitude c)
unfolding is_in_range float_lt
reaches_magnitude floor c f h = (λ l. ground arith, λ l. ground arith)

-- A confidence that the model gives reaches the floor exactly when the clamped one does.
pub reaches_clamp_confidence :
    (floor c : ℕ)
    → floor ≤ float_one
    → is_in_range c ≡ true
    → (float_le floor c ≡ true) ↔ (floor ≤ clamp_confidence c)
reaches_clamp_confidence floor c f h =
    rw (clamp_confidence_in_range c h) (reaches_magnitude floor c f h)
