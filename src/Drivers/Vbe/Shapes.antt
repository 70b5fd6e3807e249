-- ===== src/Drivers/Vbe/Shapes.antt =====
-- Drawing of rectangles of kernel/drivers/gpu/vbe.c writes into the buffer only.
use operating_system_sctrach.Common.{
  ℕ, zero, suc, ◌+◌, ◌*◌, ◌/◌, ◌%◌, ◌^◌, ◌≤◌, ◌<◌, ◌≡◌, refl, ◌∙◌, not, ◌||◌, leb, ◌==◌, arith,
}
use operating_system_sctrach.Common.Memory.{write_ne}
use operating_system_sctrach.Drivers.Vbe.{
  Vbe, offset, fill_row, clear, clip, fill_rows, fill_rect, fill_column, fill_columns,
  fill_gradient, draw_rect_outline, add32, sub32, blend,
}
use operating_system_sctrach.Drivers.Vbe.Inside.{
  if-Draws, Draws-refl, Draws-trans, Draws-IsScreen, row_fits, offset_lem, IsScreen, Draws,
}

-- A row of pixels does not reach from its end on.
pub fill_row-outside :
    (n base color : ℕ) (m : ℕ → ℕ) (o : ℕ) → base + 4 * n ≤ o → fill_row n base color m o ≡ m o
unfolding fill_row
fill_row-outside zero base color m o h = refl
fill_row-outside (suc n) base color m o h =
    write_ne (fill_row n base color m) (base + 4 * n) color o (λ e. absurd (omega (arith, e)))
    ∙ fill_row-outside n base color m o (omega arith)

-- Pixels of rows and columns that lie on the screen.
fill_rows-outside :
    (n : ℕ) (s : Vbe) (x y w color : ℕ) (m : ℕ → ℕ) (o : ℕ)
    → IsScreen s
    → x < s.width
    → x + w ≤ s.width
    → y + n ≤ s.height
    → s.height < 2 ^ 32
    → s.pitch * s.height ≤ o
    → fill_rows n s x y w color m o ≡ m o
unfolding fill_rows
fill_rows-outside zero s x y w color m o v p hx hy hs h = refl
fill_rows-outside (suc n) s x y w color m o v p hx hy hs h =
    let row : (y + n) % 2 ^ 32 ≡ y + n = omega arith in
    let start = offset_lem s x (y + n) v p (omega arith) in
    let fits = row_fits (y + n) s.height s.pitch (omega arith) in
    rw row (
      fill_row-outside w (offset s x (y + n)) color (fill_rows n s x y w color m) o
        (omega (arith, fits, start.0, v.rows))
      ∙ fill_rows-outside n s x y w color m o v p hx (omega arith) hs h)

-- A rectangle that starts on the screen and whose far corner is a number of 32 bits.
abbrev pub Fits : ℕ → ℕ → Type 0
Fits size extent = size + extent ≤ 2 ^ 32

pub clip-le :
    (size start extent : ℕ)
    → start < size
    → Fits size extent
    → start + clip size start extent ≤ size
clip-le size start extent h k = ground arith

pub same_width : {s t : Vbe} → Draws s t → (n : ℕ) → Fits s.width n → Fits t.width n
same_width d n h = rw d.width_is h

pub same_height : {s t : Vbe} → Draws s t → (n : ℕ) → Fits s.height n → Fits t.height n
same_height d n h = rw d.height_is h

pub area : (w h m : ℕ) → w ≤ m → w * h ≤ m * h
area w h m p = grind arith

pub fill_rect-Draws :
    (s : Vbe) (x y w h color : ℕ)
    → IsScreen s
    → Fits s.width w
    → Fits s.height h
    → Draws s (fill_rect s x y w h color)
unfolding fill_rect
fill_rect-Draws s x y w h color v fw fh =
    if-Draws (not s.ready || (leb s.width x || leb s.height y)) s s _ (λ _. Draws-refl s)
      (λ e.
        let hx : x < s.width = ground arith in
        let hy : y < s.height = ground arith in
        record {
          width_is = refl;
          height_is = refl;
          pitch_is = refl;
          outside = λ o k.
              fill_rows-outside (clip s.height y h) s x y (clip s.width x w) color s.back o v hx
                (clip-le s.width x w hx fw) (clip-le s.height y h hy fh) (ground arith) k;
        })

fill_column-outside :
    (n : ℕ) (s : Vbe) (x y color : ℕ) (m : ℕ → ℕ) (o : ℕ)
    → IsScreen s
    → x < s.width
    → y + n ≤ s.height
    → s.height < 2 ^ 32
    → s.pitch * s.height ≤ o
    → fill_column n s x y color m o ≡ m o
unfolding fill_column
fill_column-outside zero s x y color m o v hx hy hs h = refl
fill_column-outside (suc n) s x y color m o v hx hy hs h =
    let row : (y + n) % 2 ^ 32 ≡ y + n = omega arith in
    let at = offset_lem s x (y + n) v hx (omega arith) in
    rw row (
      write_ne (fill_column n s x y color m) (offset s x (y + n)) color o
        (λ e. absurd (omega (arith, at.1, e)))
      ∙ fill_column-outside n s x y color m o v hx (omega arith) hs h)

fill_columns-outside :
    (n : ℕ) (s : Vbe) (x y w h left right : ℕ) (m : ℕ → ℕ) (o : ℕ)
    → IsScreen s
    → x + n ≤ s.width
    → s.width < 2 ^ 32
    → y + h ≤ s.height
    → s.height < 2 ^ 32
    → s.pitch * s.height ≤ o
    → fill_columns n s x y w h left right m o ≡ m o
unfolding fill_columns
fill_columns-outside zero s x y w h left right m o v hx ws hy hs k = refl
fill_columns-outside (suc n) s x y w h left right m o v hx ws hy hs k =
    let column : (x + n) % 2 ^ 32 ≡ x + n = omega arith in
    rw column (
      fill_column-outside h s (x + n) y (blend left right n w)
        (fill_columns n s x y w h left right m) o v (omega arith) hy hs k
      ∙ fill_columns-outside n s x y w h left right m o v (omega arith) ws hy hs k)

pub fill_gradient-Draws :
    (s : Vbe) (x y w h left right : ℕ)
    → IsScreen s
    → Fits s.width w
    → Fits s.height h
    → Draws s (fill_gradient s x y w h left right)
unfolding fill_gradient
fill_gradient-Draws s x y w h left right v fw fh =
    if-Draws (not s.ready || (w == 0) || leb s.width x || leb s.height y) s s _ (λ _. Draws-refl s)
      (λ e.
        let hx : x < s.width = ground arith in
        let hy : y < s.height = ground arith in
        record {
          width_is = refl;
          height_is = refl;
          pitch_is = refl;
          outside = λ o k.
              fill_columns-outside (clip s.width x w) s x y (clip s.width x w) (clip s.height y h)
                left right s.back o v (clip-le s.width x w hx fw) (ground arith)
                (clip-le s.height y h hy fh) (ground arith) k;
        })

pub clear-Draws : (s : Vbe) (color : ℕ) → IsScreen s → Draws s (clear s color)
unfolding clear
clear-Draws s color v =
    if-Draws s.ready s _ s
      (λ _. record {
        width_is = refl;
        height_is = refl;
        pitch_is = refl;
        outside = λ o k.
            fill_row-outside (s.pitch / 4 * s.height % 2 ^ 32) 0 color s.back o
              (omega (arith, quarter s.pitch s.height, k));
      })
      (λ _. Draws-refl s)
  where
    regroup : (q h : ℕ) → q * 4 * h ≡ 4 * (q * h)
    regroup q h = grind arith

    quarter : (p h : ℕ) → 4 * (p / 4 * h % 2 ^ 32) ≤ p * h
    quarter p h =
        let part : p / 4 * 4 * h ≤ p * h = area (p / 4 * 4) h p (omega arith) in
        omega (arith, part, regroup (p / 4) h)

pub draw_rect_outline-Draws :
    (s : Vbe) (x y w h color thickness : ℕ)
    → IsScreen s
    → Fits s.width w
    → Fits s.height h
    → Fits s.width thickness
    → Fits s.height thickness
    → Draws s (draw_rect_outline s x y w h color thickness)
unfolding draw_rect_outline
draw_rect_outline-Draws s x y w h color t v fw fh ft gt =
    let s1 = fill_rect s x y w t color in
    let s2 = fill_rect s1 x (sub32 (add32 y h) t) w t color in
    let s3 = fill_rect s2 x y t h color in
    let d1 = fill_rect-Draws s x y w t color v fw gt in
    let v1 = Draws-IsScreen d1 v in
    let d2 = Draws-trans d1 (
      fill_rect-Draws s1 x (sub32 (add32 y h) t) w t color v1 (same_width d1 w fw)
        (same_height d1 t gt)) in
    let v2 = Draws-IsScreen d2 v in
    let d3 =
      Draws-trans d2
        (fill_rect-Draws s2 x y t h color v2 (same_width d2 t ft) (same_height d2 h fh)) in
    Draws-trans d3 (
      fill_rect-Draws s3 (sub32 (add32 x w) t) y t h color (Draws-IsScreen d3 v)
        (same_width d3 t ft) (same_height d3 h fh))
