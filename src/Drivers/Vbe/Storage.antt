-- ===== src/Drivers/Vbe/Storage.antt =====
-- The array that kernel/drivers/gpu/vbe.c draws into, and modes that it is too small for.
use operating_system_sctrach.Common.{
  ℕ, ◌+◌, ◌*◌, ◌/◌, ◌%◌, ◌^◌, ◌≤◌, ◌<◌, ◌≡◌, refl, sym, ap, ◌∙◌, true, false, ◌==◌, leb, arith,
  if◌then◌else◌,
}
use operating_system_sctrach.Common.Int.{pos}
use operating_system_sctrach.Drivers.Vbe.{
  Vbe, init, clear, present, fill_row, xenithra_dark, back_storage_size,
}
use operating_system_sctrach.Drivers.Vbe.Rect.{fill_row-hit}

present-back : (s : Vbe) → (present s).back ≡ s.back
unfolding present
present-back s = ground arith

present-direct : (s : Vbe) → (present s).direct ≡ s.direct
unfolding present
present-direct s = ground arith

clear-direct : (s : Vbe) (color : ℕ) → (clear s color).direct ≡ s.direct
unfolding clear
clear-direct s color = ground arith

-- The mode that `vbe_init` sets for few pixels and a pitch that is given.
abbrev entered : Vbe → ℕ → ℕ → ℕ → ℕ → ℕ → Vbe
entered s phys_base width height pitch bpp = record s {
  ready = true;
  fb_phys = phys_base;
  width = width;
  height = height;
  pitch = pitch;
  bpp = if bpp == 0 then 32 else bpp;
  fb_size = pitch * height % 2 ^ 32;
  direct = false;
}

clear-back :
    (s : Vbe) (color k : ℕ)
    → s.ready ≡ true
    → s.pitch / 4 * s.height < 2 ^ 32
    → k < s.pitch / 4 * s.height
    → (clear s color).back (4 * k) ≡ color
unfolding clear
clear-back s color k ready small h =
    let n = s.pitch / 4 * s.height in
    let whole : n % 2 ^ 32 ≡ n = omega (arith, small) in
    let at : 0 + 4 * k ≡ 4 * k = omega arith in
    rw (clear, ready, whole)
      (sym (ap (fill_row n 0 color s.back) at) ∙ fill_row-hit n 0 color s.back k h)

-- `vbe_init` accepts modes that the array is too small for: where a mode has at most 1920 * 1080 pixels, but
-- its rows with their padding have more together (and fewer than 2 ^ 32), it reports success, draws into the
-- array, and clearing the screen writes the word behind the array's end.
pub init-Overruns :
    (s : Vbe) (phys_base width height pitch bpp : ℕ)
    → 0 < phys_base
    → 0 < width
    → 0 < height
    → 0 < pitch
    → width * height ≤ 1920 * 1080
    → 1920 * 1080 < pitch / 4 * height
    → pitch / 4 * height < 2 ^ 32
    → let (s', r) = init s phys_base width height pitch bpp in
      (r ≡ pos 0) × (s'.direct ≡ false) × (s'.back back_storage_size ≡ xenithra_dark)
unfolding init
init-Overruns s phys_base width height pitch bpp p w h q few more small =
    let p0 : (phys_base == 0) ≡ false = ground arith in
    let w0 : (width == 0) ≡ false = ground arith in
    let h0 : (height == 0) ≡ false = ground arith in
    let q0 : (pitch == 0) ≡ false = ground arith in
    let low : width * height % 2 ^ 32 ≡ width * height = omega (arith, few) in
    let inside : leb (width * height % 2 ^ 32) (1920 * 1080) ≡ true = ground (arith, low, few) in
    let t = entered s phys_base width height pitch bpp in
    rw (init, p0, w0, h0, q0, inside)
      (
        refl,
        present-direct (clear t xenithra_dark) ∙ clear-direct t xenithra_dark,
        ap (λ (m : ℕ → ℕ). m back_storage_size) (present-back (clear t xenithra_dark))
            ∙ clear-back t xenithra_dark (1920 * 1080) refl small more,
      )
