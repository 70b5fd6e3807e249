-- ===== src/Drivers/Vbe.antt =====
-- The frame buffer driver of kernel/drivers/gpu/vbe.h and vbe.c. The back buffer is a function from the byte
-- offset of a pixel to its colour, so that pixels are apart if the pitch is a multiple of 4, as it is for a
-- mode of 32 bits per pixel. A screen that is too large for the back buffer draws into the frame buffer
-- itself (`direct`); then `back` is the frame buffer. The array `g_back_storage` has `back_storage_size` bytes;
-- what `back` holds from there on is the memory behind it. The font of shared/font.c is an argument: the rows of
-- a glyph as bytes.
pub mod Inside
pub mod Shapes
pub mod Screens
pub mod Rect
pub mod Storage
use operating_system_sctrach.Common.{
  ℕ, zero, suc, ◌+◌, ◌-◌, ◌*◌, ◌/◌, ◌%◌, ◌^◌, List, [], ◌∷◌, Option, none, some, Bool, true, false,
  not, ◌&&◌, ◌||◌, ltb, leb, ◌==◌, if◌then◌else◌, length, codes, copy_text,
}
use operating_system_sctrach.Common.Memory.{write}
use operating_system_sctrach.Common.Decimal.{decimal}
use operating_system_sctrach.Common.Int.{ℤ, pos, negsuc}

pub record Vbe : Type 0 where
  pub ready : Bool
  pub fb_phys : ℕ
  pub width : ℕ
  pub height : ℕ
  pub pitch : ℕ
  pub bpp : ℕ
  pub fb_size : ℕ
  pub direct : Bool
  pub back : ℕ → ℕ
  pub front : ℕ → ℕ

-- `VBE_RGB`, for channels below 256.
abbrev pub rgb : ℕ → ℕ → ℕ → ℕ
rgb r g b = 0xFF000000 + r * 2 ^ 16 + g * 2 ^ 8 + b

abbrev pub white : ℕ
white = rgb 255 255 255

abbrev pub xenithra_dark : ℕ
xenithra_dark = rgb 3 5 10

abbrev pub accent_blue : ℕ
accent_blue = rgb 96 165 250

abbrev pub accent_purple : ℕ
accent_purple = rgb 167 139 250

-- `sizeof(g_back_storage)`
abbrev pub back_storage_size : ℕ
back_storage_size = 4 * (1920 * 1080)

-- The bytes of the array that is drawn into, or of the frame buffer.
abbrev pub buffer_size : Vbe → ℕ
buffer_size s = if s.direct then s.fb_size else back_storage_size

-- The offset of pixel `x` of row `y`: the row's is computed with 32 bits.
abbrev pub offset : Vbe → ℕ → ℕ → ℕ
offset s x y = y * s.pitch % 2 ^ 32 + 4 * x

-- `vbe_present`: the whole of the buffer is copied, `fb_size` bytes.
unfoldable pub present : Vbe → Vbe
present s =
    if not s.ready || s.direct
    then s
    else record s { front = λ o. if ltb o s.fb_size then s.back o else s.front o }

-- `n` pixels from offset `base` on.
unfoldable pub fill_row : ℕ → ℕ → ℕ → (ℕ → ℕ) → ℕ → ℕ
fill_row zero base color m = m
fill_row (suc n) base color m = write (fill_row n base color m) (base + 4 * n) color

-- `vbe_clear`
unfoldable pub clear : Vbe → ℕ → Vbe
clear s color =
    if s.ready
    then record s { back = fill_row (s.pitch / 4 * s.height % 2 ^ 32) 0 color s.back }
    else s

-- `vbe_init`
unfoldable pub init : Vbe → ℕ → ℕ → ℕ → ℕ → ℕ → Vbe × ℤ
init s phys_base width height pitch bpp =
    let p = if pitch == 0 then width * 4 % 2 ^ 32 else pitch in
    let s1 = record s {
      ready = true;
      fb_phys = phys_base;
      width = width;
      height = height;
      pitch = p;
      bpp = if bpp == 0 then 32 else bpp;
      fb_size = p * height % 2 ^ 32;
      direct = not (leb (width * height % 2 ^ 32) (1920 * 1080));
    } in
    if (phys_base == 0) || (width == 0) || (height == 0)
    then (s, negsuc 0)
    else (present (clear s1 xenithra_dark), pos 0)

-- The extent that a rectangle keeps on the screen.
abbrev pub clip : ℕ → ℕ → ℕ → ℕ
clip size start extent = if ltb size ((start + extent) % 2 ^ 32) then size - start else extent

-- `n` rows from row `y` on.
unfoldable pub fill_rows : ℕ → Vbe → ℕ → ℕ → ℕ → ℕ → (ℕ → ℕ) → ℕ → ℕ
fill_rows zero s x y w color m = m
fill_rows (suc n) s x y w color m =
    fill_row w (offset s x ((y + n) % 2 ^ 32)) color (fill_rows n s x y w color m)

-- `vbe_fill_rect`
unfoldable pub fill_rect : Vbe → ℕ → ℕ → ℕ → ℕ → ℕ → Vbe
fill_rect s x y w h color =
    if not s.ready || (leb s.width x || leb s.height y)
    then s
    else record s { back = fill_rows (clip s.height y h) s x y (clip s.width x w) color s.back }

-- A colour channel of a gradient; the division cuts towards zero.
unfoldable pub channel : ℕ → ℕ → ℕ → ℕ → ℕ
channel from to col w =
    if leb from to then from + (to - from) * col / w else from - (from - to) * col / w

abbrev pub red : ℕ → ℕ
red c = c / 2 ^ 16 % 256

abbrev pub green : ℕ → ℕ
green c = c / 2 ^ 8 % 256

abbrev pub blue : ℕ → ℕ
blue c = c % 256

unfoldable pub blend : ℕ → ℕ → ℕ → ℕ → ℕ
blend left right col w =
    rgb (channel (red left) (red right) col w) (channel (green left) (green right) col w)
      (channel (blue left) (blue right) col w)

-- A column of `n` pixels, one to a row.
unfoldable pub fill_column : ℕ → Vbe → ℕ → ℕ → ℕ → (ℕ → ℕ) → ℕ → ℕ
fill_column zero s x y color m = m
fill_column (suc n) s x y color m =
    write (fill_column n s x y color m) (offset s x ((y + n) % 2 ^ 32)) color

unfoldable pub fill_columns : ℕ → Vbe → ℕ → ℕ → ℕ → ℕ → ℕ → ℕ → (ℕ → ℕ) → ℕ → ℕ
fill_columns zero s x y w h left right m = m
fill_columns (suc n) s x y w h left right m =
    fill_column h s ((x + n) % 2 ^ 32) y (blend left right n w)
      (fill_columns n s x y w h left right m)

-- `vbe_fill_gradient`
unfoldable pub fill_gradient : Vbe → ℕ → ℕ → ℕ → ℕ → ℕ → ℕ → Vbe
fill_gradient s x y w h left right =
    let w' = clip s.width x w in
    if not s.ready || (w == 0) || leb s.width x || leb s.height y
    then s
    else record s { back = fill_columns w' s x y w' (clip s.height y h) left right s.back }

-- Subtraction of 32-bit numbers.
abbrev pub sub32 : ℕ → ℕ → ℕ
sub32 a b = (a + 2 ^ 32 - b) % 2 ^ 32

abbrev pub add32 : ℕ → ℕ → ℕ
add32 a b = (a + b) % 2 ^ 32

-- `vbe_draw_rect_outline`
unfoldable pub draw_rect_outline : Vbe → ℕ → ℕ → ℕ → ℕ → ℕ → ℕ → Vbe
draw_rect_outline s x y w h color thickness =
    let s1 = fill_rect s x y w thickness color in
    let s2 = fill_rect s1 x (sub32 (add32 y h) thickness) w thickness color in
    let s3 = fill_rect s2 x y thickness h color in
    fill_rect s3 (sub32 (add32 x w) thickness) y thickness h color

-- `vbe_put_pixel`
unfoldable pub put_pixel : Vbe → ℕ → ℕ → ℕ → Vbe
put_pixel s x y color =
    if leb s.width x || leb s.height y
    then s
    else record s { back = write s.back (offset s x y) color }

abbrev pub Font : Type 0
Font = ℕ → ℕ → ℕ

-- Bit `col` of a row, the leftmost first.
abbrev pub is_set : ℕ → ℕ → Bool
is_set bits col = not (bits / 2 ^ (7 - col) % 2 == 0)

-- The first `n` columns of a row of a glyph.
unfoldable pub glyph_row : ℕ → ℕ → ℕ → ℕ → ℕ → ℕ → Vbe → Vbe
glyph_row zero bits x y fg bg s = s
glyph_row (suc n) bits x y fg bg s =
    let s' = glyph_row n bits x y fg bg s in
    if is_set bits n
    then put_pixel s' (add32 x n) y fg
    else if bg == 0
    then s'
    else put_pixel s' (add32 x n) y bg

unfoldable pub glyph_rows : ℕ → (ℕ → ℕ) → ℕ → ℕ → ℕ → ℕ → Vbe → Vbe
glyph_rows zero glyph x y fg bg s = s
glyph_rows (suc n) glyph x y fg bg s =
    glyph_row 8 (glyph n) x (add32 y n) fg bg (glyph_rows n glyph x y fg bg s)

-- `vbe_draw_glyph`; a `char` above 127 is negative.
unfoldable pub draw_glyph : Font → Vbe → ℕ → ℕ → ℕ → ℕ → ℕ → Vbe
draw_glyph font s x y c fg bg =
    let shown = if ltb c 32 || ltb 126 c then 32 else c in
    if s.ready then glyph_rows 16 (font (shown - 32)) x y fg bg s else s

-- The loop of `vbe_draw_string`, from column `cur` on.
unfoldable pub draw_from : Font → Vbe → ℕ → ℕ → ℕ → List ℕ → ℕ → ℕ → Vbe
draw_from font s x cur y [] fg bg = s
draw_from font s x cur y (c ∷ cs) fg bg =
    draw_from font (if c == 10 then s else draw_glyph font s cur y c fg bg) x
      (if c == 10 then x else add32 cur 8) (if c == 10 then add32 y 16 else y) cs fg bg

unfoldable pub draw_string : Font → Vbe → ℕ → ℕ → Option (List ℕ) → ℕ → ℕ → Vbe
draw_string font s x y none fg bg = s
draw_string font s x y (some str) fg bg = draw_from font s x x y str fg bg

-- `vbe_printf`, which prints its format as it is.
unfoldable pub printf : Font → Vbe → ℕ → ℕ → ℕ → ℕ → List ℕ → Vbe
printf font s x y fg bg fmt = draw_string font s x y (some (copy_text 255 fmt)) fg bg

-- The column at which a text of `len` characters is centred about `cx`.
abbrev pub centred : ℕ → ℕ → ℕ
centred cx len = sub32 cx (len * 8 / 2)

abbrev pub title : List ℕ
title = codes "X E N I T H R A   O S   v 3 . 0"

abbrev pub subtitle : List ℕ
subtitle = codes "Kernel + Render Engine Subsystem"

-- The status line, if there is one.
unfoldable pub draw_status : Font → Vbe → Option (List ℕ) → ℕ → ℕ → Vbe
draw_status font s none cx y = s
draw_status font s (some line) cx y =
    draw_string font s (centred cx (length line)) y (some line) white 0

-- `vbe_draw_boot_splash`
unfoldable pub draw_boot_splash : Font → Vbe → Option (List ℕ) → ℕ → Vbe
draw_boot_splash font s status_line progress =
    let pct = if ltb 100 progress then 100 else progress in
    let cx = s.width / 2 in
    let cy = s.height / 2 in
    let s1 = clear s xenithra_dark in
    let s2 =
      draw_string font s1 (centred cx (length title)) (sub32 cy 60) (some title) accent_blue 0 in
    let s3 =
      draw_string font s2 (centred cx (length subtitle)) (sub32 cy 36) (some subtitle) accent_purple
        0 in
    let bar_x = sub32 cx 200 in
    let bar_y = add32 cy 10 in
    let s4 = draw_rect_outline s3 (sub32 bar_x 2) (sub32 bar_y 2) 404 14 (rgb 40 50 70) 1 in
    let s5 = fill_rect s4 bar_x bar_y 400 10 (rgb 15 20 30) in
    let filled = 400 * pct / 100 in
    let s6 =
      if ltb 0 filled
      then fill_gradient s5 bar_x bar_y filled 10 accent_blue accent_purple
      else s5 in
    let s7 = draw_status font s6 status_line cx (add32 bar_y 24) in
    if s.ready then present s7 else s

-- `vbe_draw_panic`; the registers that it is given are not drawn.
unfoldable pub draw_panic : Font → Vbe → Option (List ℕ) → Option (List ℕ) → ℕ → Vbe
draw_panic font s message file line =
    let s1 = clear s (rgb 120 10 10) in
    let s2 = draw_string font s1 40 40 (some (codes "=== KERNEL PANIC ===")) white 0 in
    let s3 = draw_string font s2 40 70 message white 0 in
    let s4 = draw_string font s3 40 100 file white 0 in
    let s5 = draw_string font s4 40 120 (some (codes "Line: ")) white 0 in
    let s6 = draw_string font s5 90 120 (some (decimal 20 line)) white 0 in
    if s.ready then present s6 else s
