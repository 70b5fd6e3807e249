-- ===== src/Input/Tests.antt =====
-- Runs of the PS/2 mouse of kernel/drivers/ps2.c.
use operating_system_sctrach.Common.{ℕ, ◌≡◌, refl, List, [], ◌∷◌, arith}
use operating_system_sctrach.Common.Int.{pos, ◌+ℤ◌, ◌-ℤ◌}
use operating_system_sctrach.Input.{Ps2, init, set_screen_bounds, poll_mouse, finish_packet, clamp}
use operating_system_sctrach.Input.Mouse.{IsOnScreen, poll_all, poll_all-init-IsOnScreen}

abbrev switched_on : Ps2
switched_on = record {
  screen_w = pos 1280;
  screen_h = pos 720;
  mouse = record {
    x = pos 640;
    y = pos 360;
    dx = pos 0;
    dy = pos 0;
    left_button = 0;
    right_button = 0;
    middle_button = 0;
    updated = 0;
  };
  cycle = 0;
  packet0 = 0;
  packet1 = 0;
  shift_state = 0;
  ctrl_state = 0;
  alt_state = 0;
}

-- A packet that moves the pointer 5 to the left and 3 up, with the left button down.
abbrev packet : List (ℕ × ℕ)
packet = (0x21, 0x19) ∷ (0x21, 251) ∷ (0x21, 3) ∷ []

poll_all-init-IsOnScreen_example : IsOnScreen 4 100 (poll_all (init switched_on 4 100) packet)
poll_all-init-IsOnScreen_example =
    poll_all-init-IsOnScreen switched_on 4 100 packet (omega arith) (omega arith) (omega arith)
      (omega arith)

-- The pointer stops at the left edge.
pointer_run :
    ((poll_all (init switched_on 4 100) packet).mouse.x ≡ pos 0)
    × ((poll_all (init switched_on 4 100) packet).mouse.y ≡ pos 47)
    × ((poll_all (init switched_on 4 100) packet).mouse.left_button ≡ 1)
unfolding poll_all init set_screen_bounds poll_mouse finish_packet clamp ◌+ℤ◌ ◌-ℤ◌
pointer_run = (refl, refl, refl)
