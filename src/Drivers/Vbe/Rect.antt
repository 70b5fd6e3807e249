-- ===== src/Drivers/Vbe/Rect.antt =====
-- What `vbe_fill_rect` of kernel/drivers/gpu/vbe.c draws.
use operating_system_sctrach.Common.{
  ℕ, zero, suc, ◌+◌, ◌-◌, ◌*◌, ◌%◌, ◌^◌, ◌≤◌, ◌<◌, ◌≡◌, ◌≢◌, ◌⊎◌, refl, ap, ◌∙◌, Bool, true, false,
  not, ◌&&◌, ◌||◌, ltb, leb, ◌==◌, if◌then◌else◌, arith, Bool-cases, inl, inr, ltb→lt, subst,
}
use operating_system_sctrach.Common.Memory.{write_ne, write_self}
use operating_system_sctrach.Drivers.Vbe.{Vbe, offset, fill_row, clip, fill_rows, fill_rect}
use operating_system_sctrach.Drivers.Vbe.Inside.{IsScreen, offset_lem}
use operating_system_sctrach.Drivers.Vbe.Shapes.{Fits, clip-le}

-- The colour of a pixel.
abbrev pub pixel : Vbe → ℕ → ℕ → ℕ
pixel s x y = s.back (offset s x y)

pub fill_row-hit :
    (n base color : ℕ) (m : ℕ → ℕ) (k : ℕ) → k < n → fill_row n base color m (base + 4 * k) ≡ color
unfolding fill_row
fill_row-hit zero base color m k h = absurd (omega arith)
fill_row-hit (suc n) base color m k h = elim (Bool-cases (k == n)) [
  | inl e ↦
      let same : k ≡ n = ground arith in
      rw same (write_self (fill_row n base color m) (base + 4 * n) color)
  | inr e ↦
      let less : k < n = ground arith in
      write_ne (fill_row n base color m) (base + 4 * n) color (base + 4 * k)
        (λ q. absurd (omega (arith, q, less)))
      ∙ fill_row-hit n base color m k less
]

fill_row-miss :
    (n base color : ℕ) (m : ℕ → ℕ) (o : ℕ)
    → (o < base) ⊎ (base + 4 * n ≤ o)
    → fill_row n base color m o ≡ m o
unfolding fill_row
fill_row-miss zero base color m o h = refl
fill_row-miss (suc n) base color m o h =
    write_ne (fill_row n base color m) (base + 4 * n) color o (λ q. absurd (ground arith))
    ∙ fill_row-miss n base color m o (ground arith)

-- Whether a pixel lies in the rectangle of `w` by `n` pixels at `x` and `y`.
abbrev pub covers : ℕ → ℕ → ℕ → ℕ → ℕ → ℕ → Bool
covers x y w n px py = (leb y py && ltb py (y + n)) && (leb x px && ltb px (x + w))

row_before : (a b p : ℕ) → a < b → a * p + p ≤ b * p
row_before a b p h = grind arith

module _ (s : Vbe) (x w color : ℕ) (m : ℕ → ℕ) (v : IsScreen s) (hx : x < s.width)
    (hw : x + w ≤ s.width) where
  -- One row, at a pixel of the same row and at one of another.
  row_same :
      (r px : ℕ)
      → fill_row w (offset s x r) color m (offset s px r)
        ≡ (if leb x px && ltb px (x + w) then color else m (offset s px r))
  row_same r px = elim (Bool-cases (leb x px && ltb px (x + w))) [
    | inl e ↦
        let from : x ≤ px = ground arith in
        let to : px < x + w = ground arith in
        let at : offset s px r ≡ offset s x r + 4 * (px - x) = omega arith in
        rw (e, at) (fill_row-hit w (offset s x r) color m (px - x) (omega arith))
    | inr e ↦ rw e (fill_row-miss w (offset s x r) color m (offset s px r) (ground arith))
  ]

  row_other :
      (r px py : ℕ)
      → r < s.height
      → px < s.width
      → py < s.height
      → py ≢ r
      → fill_row w (offset s x r) color m (offset s px py) ≡ m (offset s px py)
  row_other r px py hr hp hq ne =
      let start = offset_lem s x r v hx hr in
      let at = offset_lem s px py v hp hq in
      fill_row-miss w (offset s x r) color m (offset s px py) (elim (Bool-cases (ltb py r)) [
        | inl e ↦
            inl (omega (arith, row_before py r s.pitch (ltb→lt py r e), start.0, at.0, v.rows))
        | inr e ↦
            let later : r < py = ground arith in
            inr (omega (arith, row_before r py s.pitch later, start.0, at.0, v.rows))
      ])

fill_rows-pixel :
    (n : ℕ) (s : Vbe) (x y w color : ℕ) (m : ℕ → ℕ) (px py : ℕ)
    → IsScreen s
    → x < s.width
    → x + w ≤ s.width
    → y + n ≤ s.height
    → s.height < 2 ^ 32
    → px < s.width
    → py < s.height
    → fill_rows n s x y w color m (offset s px py)
      ≡ (if covers x y w n px py then color else m (offset s px py))
unfolding fill_rows
fill_rows-pixel zero s x y w color m px py v hx hw hn hs hp hq =
    let none_yet : covers x y w 0 px py ≡ false = ground arith in rw none_yet refl
fill_rows-pixel (suc n) s x y w color m px py v hx hw hn hs hp hq =
    let row : (y + n) % 2 ^ 32 ≡ y + n = omega arith in
    let before = fill_rows n s x y w color m in
    let ih = fill_rows-pixel n s x y w color m px py v hx hw (omega arith) hs hp hq in
    elim (Bool-cases (py == y + n)) [
      | inl e ↦
          let same : py ≡ y + n = ground arith in
          let old : covers x y w n px py ≡ false = ground arith in
          let new : covers x y w (suc n) px py ≡ (leb x px && ltb px (x + w)) = ground arith in
          let kept : before (offset s px py) ≡ m (offset s px py) =
            ih ∙ ap (λ b. if b then color else m (offset s px py)) old in
          let here = leb x px && ltb px (x + w) in
          rw (row, new)
            (subst
                (λ r.
                  fill_row w (offset s x r) color before (offset s px py)
                  ≡ (if here then color else before (offset s px py)))
                same (row_same s x w color before v hx hw py px)
              ∙ ap (λ c. if here then color else c) kept)
      | inr e ↦
          let ne : py ≢ y + n = λ q. absurd (ground arith) in
          let new : covers x y w (suc n) px py ≡ covers x y w n px py = ground arith in
          rw (row, new)
            (row_other s x w color before v hx hw (y + n) px py (omega arith) hp hq ne ∙ ih)
    ]

-- On a screen whose rows hold their pixels and whose buffer is smaller than 4 GB, a rectangle that starts
-- on the screen, and whose far corner is a number of 32 bits, colours exactly the pixels of the screen that
-- it covers, and leaves the others as they were.
pub fill_rect-pixel :
    (s : Vbe) (x y w h color px py : ℕ)
    → s.ready ≡ true
    → IsScreen s
    → x < s.width
    → y < s.height
    → Fits s.width w
    → Fits s.height h
    → px < s.width
    → py < s.height
    → pixel (fill_rect s x y w h color) px py
      ≡ (if covers x y w h px py then color else pixel s px py)
unfolding fill_rect
fill_rect-pixel s x y w h color px py ready v hx hy fw fh hp hq =
    let on : (not s.ready || (leb s.width x || leb s.height y)) ≡ false = ground arith in
    let within = clip-le s.width x w hx fw in
    let below = clip-le s.height y h hy fh in
    let same : covers x y (clip s.width x w) (clip s.height y h) px py ≡ covers x y w h px py =
      ground arith in
    let drawn =
      fill_rows-pixel (clip s.height y h) s x y (clip s.width x w) color s.back px py v hx within
        below (ground arith) hp hq in
    let after : Vbe = record s {
      back = fill_rows (clip s.height y h) s x y (clip s.width x w) color s.back;
    } in
    ap (λ b. pixel (if b then s else after) px py) on
    ∙ drawn
    ∙ ap (λ b. if b then color else pixel s px py) same
