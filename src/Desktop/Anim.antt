-- ===== src/Desktop/Anim.antt =====
-- The animations of kernel/gui/anim.h and anim.c: a value that moves from a start to a target in a
-- number of frames, by fixed-point arithmetic with 1024 for 1.
pub mod Course
use operating_system_sctrach.Common.{
  ℕ, ◌+◌, ◌-◌, ◌*◌, ◌/◌, ◌%◌, ◌^◌, Bool, true, false, leb, ltb, ◌==◌, if◌then◌else◌,
}
use operating_system_sctrach.Common.Int.{ℤ, pos, negsuc, sub_ℕ, ◌+ℤ◌, ◌-ℤ◌, signed32}

pub record CubicAnimation : Type 0 where
  pub start_val : ℤ
  pub target_val : ℤ
  pub current_val : ℤ
  pub duration_frames : ℕ
  pub frame_index : ℕ
  pub is_complete : Bool

unfoldable pub init : ℤ → ℤ → ℕ → CubicAnimation
init start target frames = record {
  start_val = start;
  target_val = target;
  current_val = start;
  duration_frames = if frames == 0 then 1 else frames;
  frame_index = 0;
  is_complete = false;
}

-- The part of 1024 that is covered after frame `i` of `frames`: `1 - (1 - t) ^ 3`.
unfoldable pub ease : ℕ → ℕ → ℕ
ease i frames = let inv = 1024 - i * 1024 / frames in 1024 - inv * inv * inv / 1048576

-- `(int32_t)` of a 64-bit integer.
unfoldable pub wrap32 : ℤ → ℤ
wrap32 (pos n) = signed32 (n % 2 ^ 32)
wrap32 (negsuc n) = signed32 (2 ^ 32 - 1 - n % 2 ^ 32)

-- `delta * part / 1024`, rounded towards 0.
unfoldable pub scale : ℤ → ℕ → ℤ
scale (pos n) part = pos (n * part / 1024)
scale (negsuc n) part = sub_ℕ 0 ((n + 1) * part / 1024)

unfoldable pub step : CubicAnimation → CubicAnimation
step a =
    let i = (a.frame_index + 1) % 2 ^ 32 in
    let covered = scale (a.target_val -ℤ a.start_val) (ease i a.duration_frames) in
    if a.is_complete
    then a
    else if leb a.duration_frames i
    then record a { frame_index = i; current_val = a.target_val; is_complete = true }
    else record a { frame_index = i; current_val = wrap32 (a.start_val +ℤ wrap32 covered) }

unfoldable pub get_val : CubicAnimation → ℤ
get_val a = a.current_val
