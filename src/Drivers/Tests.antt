-- ===== src/Drivers/Tests.antt =====
-- Runs of the frame buffer driver of kernel/drivers/gpu/vbe.c.
use operating_system_sctrach.Common.{
  ◌*◌, ◌≡◌, refl, none, some, true, false, if◌then◌else◌, codes, arith,
}
use operating_system_sctrach.Common.Memory.{write}
use operating_system_sctrach.Drivers.Vbe.{
  Vbe, Font, fill_rect, fill_rows, fill_row, draw_boot_splash, draw_panic, init, xenithra_dark,
}
use operating_system_sctrach.Drivers.Vbe.Storage.{init-Overruns}
use operating_system_sctrach.Common.Int.{pos}
use operating_system_sctrach.Drivers.Vbe.Inside.{IsScreen}
use operating_system_sctrach.Drivers.Vbe.Screens.{draw_screens-outside}
use operating_system_sctrach.Drivers.Vbe.Rect.{pixel, covers, fill_rect-pixel}

-- A screen of 640 by 480 pixels.
abbrev screen : Vbe
screen = record {
  ready = true;
  fb_phys = 0xE0000000;
  width = 640;
  height = 480;
  pitch = 2560;
  bpp = 32;
  fb_size = 1228800;
  direct = false;
  back = λ _. 0;
  front = λ _. 0;
}

screen-IsScreen : IsScreen screen
screen-IsScreen = record { rows = omega arith; small = omega arith }

-- A rectangle that reaches over the right edge.
fill_rect-pixel_example :
    pixel (fill_rect screen 630 10 20 5 7) 635 12
    ≡ (if covers 630 10 20 5 635 12 then 7 else pixel screen 635 12)
fill_rect-pixel_example =
    fill_rect-pixel screen 630 10 20 5 7 635 12 refl screen-IsScreen (omega arith) (omega arith)
      (omega arith) (omega arith) (omega arith) (omega arith)

fill_rect_run : (fill_rect screen 630 10 20 5 7).back (11 * 2560) ≡ 0
unfolding fill_rect fill_rows fill_row write
fill_rect_run = refl

abbrev stripes : Font
stripes glyph row = 0xAA

draw_screens-outside_example :
    ((draw_boot_splash stripes screen (some (codes "Loading")) 50).back 8294400 ≡ 0)
    × ((draw_panic stripes screen (some (codes "out of memory")) none 12).back 8294400 ≡ 0)
draw_screens-outside_example =
    draw_screens-outside stripes screen (some (codes "Loading")) (some (codes "out of memory")) none
      50 12 8294400 screen-IsScreen (omega arith) (omega arith) (omega arith) (omega arith)

-- A mode of 1920 by 1080 pixels whose rows take 8192 bytes.
init-Overruns_example :
    let (s', r) = init screen 0xE0000000 1920 1080 8192 32 in
    (r ≡ pos 0) × (s'.direct ≡ false) × (s'.back 8294400 ≡ xenithra_dark)
init-Overruns_example =
    init-Overruns screen 0xE0000000 1920 1080 8192 32 (omega arith) (omega arith) (omega arith)
      (omega arith) (omega arith) (omega arith) (omega arith)
