-- ===== src/Drivers/Vbe/Inside.antt =====
-- Drawing of pixels and text of kernel/drivers/gpu/vbe.c writes into the buffer only.
use operating_system_sctrach.Common.{
  ℕ, zero, suc, ◌+◌, ◌-◌, ◌*◌, ◌%◌, ◌^◌, ◌≤◌, ◌<◌, ◌≡◌, refl, ◌∙◌, List, [], ◌∷◌, Option, none,
  some, Bool, true, false, ◌||◌, ltb, leb, ◌==◌, if◌then◌else◌, arith, Bool-cases, inl, inr,
}
use operating_system_sctrach.Common.Memory.{write_ne}
use operating_system_sctrach.Drivers.Vbe.{
  Vbe, Font, offset, put_pixel, is_set, glyph_row, glyph_rows, draw_glyph, draw_from, draw_string,
  add32,
}

-- A mode whose rows hold their pixels, and whose buffer is smaller than 4 GB.
pub record IsScreen (s : Vbe) : Type 0 where
  pub rows : 4 * s.width ≤ s.pitch
  pub small : s.pitch * s.height < 2 ^ 32

-- `s'` has the mode of `s`, and its buffer's contents from the end of the buffer on.
pub record Draws (s s' : Vbe) : Type 0 where
  pub width_is : s'.width ≡ s.width
  pub height_is : s'.height ≡ s.height
  pub pitch_is : s'.pitch ≡ s.pitch
  pub outside : (o : ℕ) → s.pitch * s.height ≤ o → s'.back o ≡ s.back o

pub Draws-refl : (s : Vbe) → Draws s s
Draws-refl s = record { width_is = refl; height_is = refl; pitch_is = refl; outside = λ o h. refl }

pub Draws-trans : {r s t : Vbe} → Draws r s → Draws s t → Draws r t
Draws-trans {r} {s} {t} a b = record {
  width_is = b.width_is ∙ a.width_is;
  height_is = b.height_is ∙ a.height_is;
  pitch_is = b.pitch_is ∙ a.pitch_is;
  outside = λ o h. b.outside o (rw (a.pitch_is, a.height_is) h) ∙ a.outside o h;
}

pub if-Draws :
    (b : Bool) (s x y : Vbe)
    → (b ≡ true → Draws s x)
    → (b ≡ false → Draws s y)
    → Draws s (if b then x else y)
if-Draws true s x y dx dy = dx refl
if-Draws false s x y dx dy = dy refl

pub Draws-IsScreen : {s t : Vbe} → Draws s t → IsScreen s → IsScreen t
Draws-IsScreen d v = record {
  rows = rw (d.width_is, d.pitch_is) v.rows;
  small = rw (d.pitch_is, d.height_is) v.small;
}

pub row_fits : (y h p : ℕ) → y < h → y * p + p ≤ p * h
row_fits y h p k = grind arith

-- The offset of a pixel of the screen.
pub offset_lem :
    (s : Vbe) (x y : ℕ)
    → IsScreen s
    → x < s.width
    → y < s.height
    → (offset s x y ≡ y * s.pitch + 4 * x) × (offset s x y + 4 ≤ s.pitch * s.height)
offset_lem s x y v hx hy =
    let fits = row_fits y s.height s.pitch hy in
    let whole : y * s.pitch % 2 ^ 32 ≡ y * s.pitch = omega (arith, fits, v.small) in
    (omega (arith, whole), omega (arith, whole, fits, v.rows))

put_pixel-Draws : (s : Vbe) (x y color : ℕ) → IsScreen s → Draws s (put_pixel s x y color)
unfolding put_pixel
put_pixel-Draws s x y color v = elim (Bool-cases (leb s.width x || leb s.height y)) [
  | inl e ↦ rw (put_pixel, e) (Draws-refl s)
  | inr e ↦
      let at = offset_lem s x y v (ground arith) (ground arith) in
      rw (put_pixel, e)
        (record {
          width_is = refl;
          height_is = refl;
          pitch_is = refl;
          outside = λ o h.
              write_ne s.back (offset s x y) color o (λ k. absurd (omega (arith, at.1, h, k)));
        })
]

glyph_row-Draws :
    (n bits x y fg bg : ℕ) (s : Vbe) → IsScreen s → Draws s (glyph_row n bits x y fg bg s)
unfolding glyph_row
glyph_row-Draws zero bits x y fg bg s v = Draws-refl s
glyph_row-Draws (suc n) bits x y fg bg s v =
    let s' = glyph_row n bits x y fg bg s in
    let d = glyph_row-Draws n bits x y fg bg s v in
    let w = Draws-IsScreen d v in
    elim (Bool-cases (is_set bits n)) [
      | inl e ↦ rw (glyph_row, e) (Draws-trans d (put_pixel-Draws s' (add32 x n) y fg w))
      | inr e ↦ elim (Bool-cases (bg == 0)) [
        | inl k ↦ rw (glyph_row, e, k) d
        | inr k ↦ rw (glyph_row, e, k) (Draws-trans d (put_pixel-Draws s' (add32 x n) y bg w))
      ]
    ]

glyph_rows-Draws :
    (n : ℕ) (glyph : ℕ → ℕ) (x y fg bg : ℕ) (s : Vbe)
    → IsScreen s
    → Draws s (glyph_rows n glyph x y fg bg s)
unfolding glyph_rows
glyph_rows-Draws zero glyph x y fg bg s v = Draws-refl s
glyph_rows-Draws (suc n) glyph x y fg bg s v =
    let d = glyph_rows-Draws n glyph x y fg bg s v in
    Draws-trans d (
      glyph_row-Draws 8 (glyph n) x (add32 y n) fg bg (glyph_rows n glyph x y fg bg s)
        (Draws-IsScreen d v))

draw_glyph-Draws :
    (font : Font) (s : Vbe) (x y c fg bg : ℕ) → IsScreen s → Draws s (draw_glyph font s x y c fg bg)
unfolding draw_glyph
draw_glyph-Draws font s x y c fg bg v =
    if-Draws s.ready s _ s
      (λ _.
        glyph_rows-Draws 16 (font ((if ltb c 32 || ltb 126 c then 32 else c) - 32)) x y fg bg s v)
      (λ _. Draws-refl s)

draw_from-Draws :
    (font : Font) (cs : List ℕ) (s : Vbe) (x cur y fg bg : ℕ)
    → IsScreen s
    → Draws s (draw_from font s x cur y cs fg bg)
unfolding draw_from
draw_from-Draws font [] s x cur y fg bg v = Draws-refl s
draw_from-Draws font (c ∷ cs) s x cur y fg bg v = elim (Bool-cases (c == 10)) [
  | inl e ↦ rw (draw_from, e) (draw_from-Draws font cs s x x (add32 y 16) fg bg v)
  | inr e ↦
      let d = draw_glyph-Draws font s cur y c fg bg v in
      rw (draw_from, e)
        (Draws-trans d (
          draw_from-Draws font cs (draw_glyph font s cur y c fg bg) x (add32 cur 8) y fg bg
            (Draws-IsScreen d v)))
]

pub draw_string-Draws :
    (font : Font) (s : Vbe) (x y : ℕ) (str : Option (List ℕ)) (fg bg : ℕ)
    → IsScreen s
    → Draws s (draw_string font s x y str fg bg)
unfolding draw_string
draw_string-Draws font s x y none fg bg v = Draws-refl s
draw_string-Draws font s x y (some str) fg bg v = draw_from-Draws font str s x x y fg bg v
