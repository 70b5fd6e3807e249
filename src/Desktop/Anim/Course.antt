-- ===== src/Desktop/Anim/Course.antt =====
-- The course of an animation of kernel/gui/anim.c: when it ends, and what it shows before.
use operating_system_sctrach.Common.{
  ℕ, zero, suc, ◌+◌, ◌-◌, ◌*◌, ◌/◌, ◌%◌, ◌^◌, ◌≤◌, ◌<◌, ◌≡◌, refl, sym, ap, subst, ◌∙◌, true, false,
  leb, arith,
}
use operating_system_sctrach.Common.Int.{
  ℤ, pos, negsuc, pos_part, neg_part, sub_ℕ, ◌+ℤ◌, ◌-ℤ◌, ◌≤ℤ◌,
}
use operating_system_sctrach.Desktop.Anim.{CubicAnimation, init, ease, wrap32, scale, step, get_val}

unfoldable pub steps : ℕ → CubicAnimation → CubicAnimation
steps zero a = a
steps (suc n) a = steps n (step a)

-- An animation under way, after `i` of its frames.
pub record IsUnderWay (start target : ℤ) (frames i : ℕ) (a : CubicAnimation) : Type 0 where
  pub from : a.start_val ≡ start
  pub towards : a.target_val ≡ target
  pub long : a.duration_frames ≡ frames
  pub at : a.frame_index ≡ i
  pub going : a.is_complete ≡ false

step-IsUnderWay :
    (start target : ℤ) (frames i : ℕ) (a : CubicAnimation)
    → i + 1 < frames
    → frames < 2 ^ 32
    → IsUnderWay start target frames i a
    → IsUnderWay start target frames (i + 1) (step a)
unfolding step
step-IsUnderWay start target frames i a h w v = ground arith

step-last :
    (start target : ℤ) (frames i : ℕ) (a : CubicAnimation)
    → i + 1 ≡ frames
    → frames < 2 ^ 32
    → IsUnderWay start target frames i a
    → ((step a).is_complete ≡ true) × ((step a).current_val ≡ target)
unfolding step
step-last start target frames i a h w v = ground arith

-- After fewer frames than its duration it is under way.
steps-IsUnderWay :
    (start target : ℤ) (frames n i j : ℕ) (a : CubicAnimation)
    → i + n ≡ j
    → j < frames
    → frames < 2 ^ 32
    → IsUnderWay start target frames i a
    → IsUnderWay start target frames j (steps n a)
unfolding steps
steps-IsUnderWay start target frames zero i j a e h w v =
    let same : i ≡ j = omega arith in rw (← same) v
steps-IsUnderWay start target frames (suc n) i j a e h w v =
    steps-IsUnderWay start target frames n (i + 1) j (step a) (omega arith) h w
      (step-IsUnderWay start target frames i a (omega arith) w v)

steps-last : (n : ℕ) (a : CubicAnimation) → steps (suc n) a ≡ step (steps n a)
unfolding steps
steps-last zero a = refl
steps-last (suc n) a = steps-last n (step a)

init-IsUnderWay :
    (start target : ℤ) (frames : ℕ)
    → 0 < frames
    → IsUnderWay start target frames 0 (init start target frames)
unfolding init
init-IsUnderWay start target frames h = ground arith

-- An animation of 1 to 2 ^ 32 - 1 frames is complete after exactly that many steps, and then shows
-- its target; after fewer it is not complete.
pub steps-init_complete :
    (start target : ℤ) (frames n : ℕ)
    → 0 < frames
    → frames < 2 ^ 32
    → n < frames
    → ((steps n (init start target frames)).is_complete ≡ false)
      × ((steps frames (init start target frames)).is_complete ≡ true)
      × (get_val (steps frames (init start target frames)) ≡ target)
unfolding get_val
steps-init_complete start target frames n h w less =
    let began = init-IsUnderWay start target frames h in
    let a = init start target frames in
    let there : suc (frames - 1) ≡ frames = omega arith in
    let early = steps-IsUnderWay start target frames n 0 n a (omega arith) less w began in
    let late =
      steps-IsUnderWay start target frames (frames - 1) 0 (frames - 1) a (omega arith) (omega arith)
        w began in
    let last =
      step-last start target frames (frames - 1) (steps (frames - 1) a) (omega arith) w late in
    let same : steps frames a ≡ step (steps (frames - 1) a) =
      ap (λ k. steps k a) (sym there) ∙ steps-last (frames - 1) a in
    (early.going, ap (λ b. b.is_complete) same ∙ last.0, ap (λ b. b.current_val) same ∙ last.1)

ease-le : (i frames : ℕ) → ease i frames ≤ 1024
unfolding ease
ease-le i frames = omega arith

scale_le : (n part : ℕ) → part ≤ 1024 → n * part / 1024 ≤ n
scale_le n part h = grind arith

-- The distance between two integers.
abbrev pub distance : ℤ → ℤ → ℕ
distance a b = pos_part b + neg_part a - (pos_part a + neg_part b)

scale_up : (a b : ℤ) (part : ℕ) → a ≤ℤ b → scale (b -ℤ a) part ≡ pos (distance a b * part / 1024)
unfolding scale ◌-ℤ◌
scale_up a b part h =
    let d : (b -ℤ a) ≡ pos (distance a b) = ground arith in ap (λ z. scale z part) d

scale_zero : (part : ℕ) → scale (pos 0) part ≡ pos 0
unfolding scale
scale_zero part = let z : 0 * part / 1024 ≡ 0 = grind arith in ap pos z

scale-sub_ℕ : (d part : ℕ) → scale (sub_ℕ 0 d) part ≡ sub_ℕ 0 (d * part / 1024)
unfolding scale
scale-sub_ℕ zero part = let z : 0 * part / 1024 ≡ 0 = grind arith in rw z refl
scale-sub_ℕ (suc d) part =
    let below : sub_ℕ 0 (suc d) ≡ negsuc d = ground arith in
    let next : d + 1 ≡ suc d = omega arith in
    ap (λ z. scale z part) below ∙ ap (λ k. sub_ℕ 0 (k * part / 1024)) next

scale_down :
    (a b : ℤ) (part : ℕ) → b ≤ℤ a → scale (b -ℤ a) part ≡ sub_ℕ 0 (distance b a * part / 1024)
unfolding ◌-ℤ◌
scale_down a b part h =
    let d : (b -ℤ a) ≡ sub_ℕ 0 (distance b a) = ground arith in
    ap (λ z. scale z part) d ∙ scale-sub_ℕ (distance b a) part

-- The value of a frame before it is cast to 32 bits lies between the ends.
between_up :
    (a b : ℤ) (k : ℕ) → k ≤ distance a b → a ≤ℤ b → (a ≤ℤ (a +ℤ pos k)) × ((a +ℤ pos k) ≤ℤ b)
unfolding ◌+ℤ◌
between_up a b k h o = ground arith

between_down :
    (a b : ℤ) (k : ℕ)
    → k ≤ distance b a
    → b ≤ℤ a
    → (b ≤ℤ (a +ℤ sub_ℕ 0 k)) × ((a +ℤ sub_ℕ 0 k) ≤ℤ a)
unfolding ◌+ℤ◌
between_down a b k h o = ground arith

-- An `int32_t`.
abbrev pub IsInt32 : ℤ → Type 0
IsInt32 z = (pos_part z < 2 ^ 31) × (neg_part z ≤ 2 ^ 31)

IsInt32-between : (a b v : ℤ) → IsInt32 a → IsInt32 b → a ≤ℤ v → v ≤ℤ b → IsInt32 v
IsInt32-between a b (pos n) ia ib l u = omega arith
IsInt32-between a b (negsuc n) ia ib l u = omega arith

wrap32_lem : (z : ℤ) → IsInt32 z → wrap32 z ≡ z
unfolding wrap32
wrap32_lem (pos n) h = ground arith
wrap32_lem (negsuc n) h = ground arith

-- The value lies between the two ends, in either direction.
pub record IsBetween (a b v : ℤ) : Type 0 where
  pub rising : a ≤ℤ b → (a ≤ℤ v) × (v ≤ℤ b)
  pub falling : b ≤ℤ a → (b ≤ℤ v) × (v ≤ℤ a)

-- The value that a frame shows.
abbrev frame_val : ℤ → ℤ → ℕ → ℤ
frame_val a b part = wrap32 (a +ℤ wrap32 (scale (b -ℤ a) part))

frame_rising :
    (a b : ℤ) (part : ℕ)
    → part ≤ 1024
    → IsInt32 a
    → IsInt32 b
    → distance a b < 2 ^ 31
    → a ≤ℤ b
    → (a ≤ℤ frame_val a b part) × (frame_val a b part ≤ℤ b)
frame_rising a b part p ia ib near o =
    let k = distance a b * part / 1024 in
    let small = scale_le (distance a b) part p in
    let inside = between_up a b k small o in
    let inner = wrap32_lem (pos k) (omega (arith, small)) in
    let outer =
      wrap32_lem (a +ℤ pos k) (IsInt32-between a b (a +ℤ pos k) ia ib inside.0 inside.1) in
    rw (scale_up a b part o, inner, outer) inside

frame_falling :
    (a b : ℤ) (part : ℕ)
    → part ≤ 1024
    → IsInt32 a
    → IsInt32 b
    → distance b a < 2 ^ 31
    → b ≤ℤ a
    → (b ≤ℤ frame_val a b part) × (frame_val a b part ≤ℤ a)
frame_falling a b part p ia ib near o =
    let k = distance b a * part / 1024 in
    let small = scale_le (distance b a) part p in
    let inside = between_down a b k small o in
    let inner = wrap32_lem (sub_ℕ 0 k) (ground arith) in
    let outer =
      wrap32_lem (a +ℤ sub_ℕ 0 k) (IsInt32-between b a (a +ℤ sub_ℕ 0 k) ib ia inside.0 inside.1) in
    rw (scale_down a b part o, inner, outer) inside

step-frame_val :
    (start target : ℤ) (frames i : ℕ) (a : CubicAnimation)
    → i + 1 < frames
    → frames < 2 ^ 32
    → IsUnderWay start target frames i a
    → (step a).current_val ≡ frame_val start target (ease (i + 1) frames)
unfolding step
step-frame_val start target frames i a h w v =
    let wrapped : (a.frame_index + 1) % 2 ^ 32 ≡ i + 1 = omega (arith, v.at) in
    let going : leb a.duration_frames ((a.frame_index + 1) % 2 ^ 32) ≡ false =
      ground (arith, v.at, v.long) in
    rw (step, v.going, going, wrapped, v.from, v.towards, v.long) refl

-- Before an animation is complete it shows a value between its start and its target, whichever is
-- larger, for two 32-bit integers that are less than 2 ^ 31 apart.
pub steps-init-IsBetween :
    (start target : ℤ) (frames n : ℕ)
    → IsInt32 start
    → IsInt32 target
    → distance start target < 2 ^ 31
    → distance target start < 2 ^ 31
    → frames < 2 ^ 32
    → n < frames
    → IsBetween start target (get_val (steps n (init start target frames)))
unfolding get_val steps init
steps-init-IsBetween start target frames zero is it near near' w h = record {
  rising = λ o. (omega arith, o);
  falling = λ o. (o, omega arith);
}
steps-init-IsBetween start target frames (suc n) is it near near' w h =
    let a = steps n (init start target frames) in
    let v =
      steps-IsUnderWay start target frames n 0 n (init start target frames) (omega arith)
        (omega arith) w (init-IsUnderWay start target frames (omega arith)) in
    let shown =
      ap (λ b. b.current_val) (steps-last n (init start target frames))
      ∙ step-frame_val start target frames n a (omega arith) w v in
    let part = ease (n + 1) frames in
    subst (IsBetween start target) (sym shown) (record {
      rising = λ o. frame_rising start target part (ease-le (n + 1) frames) is it near o;
      falling = λ o. frame_falling start target part (ease-le (n + 1) frames) is it near' o;
    })
