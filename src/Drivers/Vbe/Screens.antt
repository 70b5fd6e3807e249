-- ===== src/Drivers/Vbe/Screens.antt =====
-- The boot screen and the panic screen of kernel/drivers/gpu/vbe.c.
use operating_system_sctrach.Common.{
  ℕ, ◌+◌, ◌*◌, ◌/◌, ◌^◌, ◌≤◌, ◌≡◌, refl, List, Option, none, some, not, ◌||◌, ltb, if◌then◌else◌,
  length, codes, arith,
}
use operating_system_sctrach.Common.Decimal.{decimal}
use operating_system_sctrach.Drivers.Vbe.{
  Vbe, Font, present, clear, fill_rect, fill_gradient, draw_rect_outline, draw_string,
  draw_boot_splash, draw_panic, draw_status, add32, sub32, rgb, white, xenithra_dark, accent_blue,
  accent_purple, title, subtitle, centred, buffer_size,
}
use operating_system_sctrach.Drivers.Vbe.Inside.{
  if-Draws, Draws-refl, Draws-trans, Draws-IsScreen, draw_string-Draws, IsScreen, Draws,
}
use operating_system_sctrach.Drivers.Vbe.Shapes.{
  fill_rect-Draws, clear-Draws, fill_gradient-Draws, draw_rect_outline-Draws, same_width,
  same_height,
}

present-Draws : (s : Vbe) → Draws s (present s)
unfolding present
present-Draws s =
    if-Draws (not s.ready || s.direct) s s _ (λ _. Draws-refl s)
      (λ _. record { width_is = refl; height_is = refl; pitch_is = refl; outside = λ o k. refl })

and_string :
    (font : Font) (s t : Vbe) (x y : ℕ) (str : Option (List ℕ))
    → IsScreen s
    → Draws s t
    → Draws s (draw_string font t x y str white 0)
and_string font s t x y str v d =
    Draws-trans d (draw_string-Draws font t x y str white 0 (Draws-IsScreen d v))

-- A panic screen leaves everything behind the buffer alone, whatever its texts are.
draw_panic-Draws :
    (font : Font) (s : Vbe) (message file : Option (List ℕ)) (line : ℕ)
    → IsScreen s
    → Draws s (draw_panic font s message file line)
unfolding draw_panic
draw_panic-Draws font s message file line v =
    let s1 = clear s (rgb 120 10 10) in
    let d1 = clear-Draws s (rgb 120 10 10) v in
    let s2 = draw_string font s1 40 40 (some (codes "=== KERNEL PANIC ===")) white 0 in
    let d2 = and_string font s s1 40 40 (some (codes "=== KERNEL PANIC ===")) v d1 in
    let s3 = draw_string font s2 40 70 message white 0 in
    let d3 = and_string font s s2 40 70 message v d2 in
    let s4 = draw_string font s3 40 100 file white 0 in
    let d4 = and_string font s s3 40 100 file v d3 in
    let s5 = draw_string font s4 40 120 (some (codes "Line: ")) white 0 in
    let d5 = and_string font s s4 40 120 (some (codes "Line: ")) v d4 in
    let s6 = draw_string font s5 90 120 (some (decimal 20 line)) white 0 in
    let d6 = and_string font s s5 90 120 (some (decimal 20 line)) v d5 in
    if-Draws s.ready s _ s (λ _. Draws-trans d6 (present-Draws s6)) (λ _. Draws-refl s)

draw_status-Draws :
    (font : Font) (s t : Vbe) (status_line : Option (List ℕ)) (cx y : ℕ)
    → IsScreen s
    → Draws s t
    → Draws s (draw_status font t status_line cx y)
unfolding draw_status
draw_status-Draws font s t none cx y v d = d
draw_status-Draws font s t (some line) cx y v d =
    and_string font s t (centred cx (length line)) y (some line) v d

draw_boot_splash-Draws :
    (font : Font) (s : Vbe) (status_line : Option (List ℕ)) (progress : ℕ)
    → IsScreen s
    → s.width + 404 ≤ 2 ^ 32
    → s.height + 404 ≤ 2 ^ 32
    → Draws s (draw_boot_splash font s status_line progress)
unfolding draw_boot_splash
draw_boot_splash-Draws font s status_line progress v fw fh =
    let pct = if ltb 100 progress then 100 else progress in
    let cx = s.width / 2 in
    let cy = s.height / 2 in
    let s1 = clear s xenithra_dark in
    let d1 = clear-Draws s xenithra_dark v in
    let s2 =
      draw_string font s1 (centred cx (length title)) (sub32 cy 60) (some title) accent_blue 0 in
    let d2 = Draws-trans d1 (
      draw_string-Draws font s1 (centred cx (length title)) (sub32 cy 60) (some title) accent_blue 0
        (Draws-IsScreen d1 v)) in
    let s3 =
      draw_string font s2 (centred cx (length subtitle)) (sub32 cy 36) (some subtitle) accent_purple
        0 in
    let d3 = Draws-trans d2 (
      draw_string-Draws font s2 (centred cx (length subtitle)) (sub32 cy 36) (some subtitle)
        accent_purple 0 (Draws-IsScreen d2 v)) in
    let bar_x = sub32 cx 200 in
    let bar_y = add32 cy 10 in
    let s4 = draw_rect_outline s3 (sub32 bar_x 2) (sub32 bar_y 2) 404 14 (rgb 40 50 70) 1 in
    let d4 = Draws-trans d3 (
      draw_rect_outline-Draws s3 (sub32 bar_x 2) (sub32 bar_y 2) 404 14 (rgb 40 50 70) 1
        (Draws-IsScreen d3 v) (same_width d3 404 fw) (same_height d3 14 (omega arith))
        (same_width d3 1 (omega arith)) (same_height d3 1 (omega arith))) in
    let s5 = fill_rect s4 bar_x bar_y 400 10 (rgb 15 20 30) in
    let d5 = Draws-trans d4 (
      fill_rect-Draws s4 bar_x bar_y 400 10 (rgb 15 20 30) (Draws-IsScreen d4 v)
        (same_width d4 400 (omega arith)) (same_height d4 10 (omega arith))) in
    let filled = 400 * pct / 100 in
    let d6 =
      if-Draws (ltb 0 filled) s (fill_gradient s5 bar_x bar_y filled 10 accent_blue accent_purple)
        s5
        (λ _. Draws-trans d5 (
          fill_gradient-Draws s5 bar_x bar_y filled 10 accent_blue accent_purple
            (Draws-IsScreen d5 v) (same_width d5 filled (ground arith))
            (same_height d5 10 (omega arith))))
        (λ _. d5) in
    let s6 =
      if ltb 0 filled
      then fill_gradient s5 bar_x bar_y filled 10 accent_blue accent_purple
      else s5 in
    let s7 = draw_status font s6 status_line cx (add32 bar_y 24) in
    let d7 = draw_status-Draws font s s6 status_line cx (add32 bar_y 24) v d6 in
    if-Draws s.ready s _ s (λ _. Draws-trans d7 (present-Draws s7)) (λ _. Draws-refl s)

-- The boot screen and the panic screen write into the array that they draw into only: whatever the texts,
-- the progress and the font are, no pixel at or behind the end of `g_back_storage` (of the frame buffer, if
-- that is drawn into) changes, for a mode whose rows hold their pixels, whose `pitch * height` bytes fit into
-- that array and are fewer than 4 GB, and whose sides are at most 2 ^ 32 - 404.
pub draw_screens-outside :
    (font : Font) (s : Vbe) (status_line message file : Option (List ℕ)) (progress line o : ℕ)
    → IsScreen s
    → s.width + 404 ≤ 2 ^ 32
    → s.height + 404 ≤ 2 ^ 32
    → s.pitch * s.height ≤ buffer_size s
    → buffer_size s ≤ o
    → ((draw_boot_splash font s status_line progress).back o ≡ s.back o)
      × ((draw_panic font s message file line).back o ≡ s.back o)
draw_screens-outside font s status_line message file progress line o v fw fh fits h =
    let behind : s.pitch * s.height ≤ o = omega (arith, fits, h) in
    (
      (draw_boot_splash-Draws font s status_line progress v fw fh).outside o behind,
      (draw_panic-Draws font s message file line v).outside o behind,
    )
