-- ===== src/Desktop/Tests.antt =====
-- Runs of the animations and of the windows of kernel/gui.
use operating_system_sctrach.Common.{
  ℕ, ◌+◌, ◌≡◌, ◌≢◌, ◌≤◌, refl, List, [], ◌∷◌, none, some, true, false, All, count, get_elem?, arith,
  find_first, same_text,
}
use operating_system_sctrach.Common.Int.{pos, pos_part, ◌+ℤ◌, ◌-ℤ◌}
use operating_system_sctrach.Desktop.Anim
use operating_system_sctrach.Desktop.Anim.{get_val, ease, scale, wrap32, step}
use operating_system_sctrach.Desktop.Anim.Course.{
  steps, IsBetween, steps-init_complete, steps-init-IsBetween,
}
use operating_system_sctrach.Desktop.Windows
use operating_system_sctrach.Desktop.Windows.{
  Window, Compositor, Request, is_used, create, opened, focus, focus_windows, max_z, maximize,
  toggle_maximized, clicked, contains, topmost, get_focused, get_by_tag, destroy, move,
}
use operating_system_sctrach.Desktop.Windows.Count.{has_focus}
use operating_system_sctrach.Desktop.Windows.Run
use operating_system_sctrach.Desktop.Windows.Run.{perform_all, perform_all-init-IsCounted}
use operating_system_sctrach.Desktop.Windows.Focus.Click.{maximize-maximize}
use operating_system_sctrach.Desktop.Windows.Draw.{
  render_order, draw_from, layer, focus_times, focus_times-undrawn,
}
use operating_system_sctrach.Desktop.Windows.Pointer.{
  dispatch_key, dispatch_key-focus, drag, click_window, toggle_start_menu,
}
use operating_system_sctrach.Desktop.Windows.Mouse.{
  Programs, Desk, update_mouse, press, taskbar_button, press_button, press_behind, press_start_menu,
  press_tile, find_tile, press_desktop, press_icon, find_icon, column_x,
}
use operating_system_sctrach.Desktop.Windows.Mouse.Target.{windows_after, update_mouse-focus}

steps-init_complete_example :
    ((steps 2 (Anim.init (pos 0) (pos 100) 4)).is_complete ≡ false)
    × ((steps 4 (Anim.init (pos 0) (pos 100) 4)).is_complete ≡ true)
    × (get_val (steps 4 (Anim.init (pos 0) (pos 100) 4)) ≡ pos 100)
steps-init_complete_example =
    steps-init_complete (pos 0) (pos 100) 4 2 (omega arith) (omega arith) (omega arith)

steps-init-IsBetween_run :
    IsBetween (pos 0) (pos 100) (get_val (steps 2 (Anim.init (pos 0) (pos 100) 4)))
steps-init-IsBetween_run =
    steps-init-IsBetween (pos 0) (pos 100) 4 2 (ground arith) (ground arith) (omega arith)
      (omega arith) (omega arith) (omega arith)

-- Half of the frames cover 7/8 of the way.
anim_run : get_val (steps 2 (Anim.init (pos 0) (pos 100) 4)) ≡ pos 87
unfolding steps Anim.init step ease scale wrap32 get_val ◌+ℤ◌ ◌-ℤ◌
anim_run = refl

abbrev closed : Window
closed = record {
  id = 0;
  title = [];
  app_tag = [];
  x = pos 0;
  y = pos 0;
  width = pos 0;
  height = pos 0;
  is_minimized = false;
  is_maximized = false;
  is_focused = false;
  is_visible = false;
  saved_x = pos 0;
  saved_y = pos 0;
  saved_w = pos 0;
  saved_h = pos 0;
  z_order = 0;
  on_paint = 0;
  on_key = 0;
  on_mouse = 0;
  user_data = 0;
}

abbrev left_window : Window
left_window = record closed {
  id = 1;
  app_tag = 118 ∷ [];
  x = pos 10;
  y = pos 10;
  width = pos 200;
  height = pos 100;
  is_focused = true;
  is_visible = true;
  z_order = 3;
  on_key = 7;
}

abbrev right_window : Window
right_window = record left_window {
  id = 2;
  x = pos 50;
  is_focused = false;
  z_order = 1;
  on_key = 9;
}

abbrev two_windows : Compositor
two_windows = record {
  fb_width = 1280;
  fb_height = 720;
  windows = left_window ∷ right_window ∷ [];
  window_count = 2;
  next_win_id = 3;
  start_menu_open = false;
  calendar_open = false;
  volume_open = false;
  power_menu_open = false;
  is_suspended = false;
  drag_window = none;
  drag_offset_x = pos 0;
  drag_offset_y = pos 0;
}

abbrev request : Request
request = record {
  title = 118 ∷ [];
  app_tag = none;
  x = pos 5;
  y = pos 5;
  w = pos 100;
  h = pos 100;
  on_paint = 1;
  user_data = 0;
}

abbrev calls : List Run.Operation
calls =
    Run.create request
    ∷ Run.create request
    ∷ Run.minimize (some 0)
    ∷ Run.maximize (some 1)
    ∷ Run.destroy 3 (λ e. omega arith)
    ∷ []

perform_all-init-IsCounted_example :
    (count is_used (perform_all (Windows.init two_windows 1280 720) calls).windows
      ≡ (perform_all (Windows.init two_windows 1280 720) calls).window_count)
    × (count has_focus (perform_all (Windows.init two_windows 1280 720) calls).windows ≤ 1)
perform_all-init-IsCounted_example =
    perform_all-init-IsCounted two_windows 1280 720 calls (omega arith) (omega arith)

-- A handler that takes the click's column for the width of the frame buffer.
abbrev programs : Programs
programs = record {
  launch = λ a c. record c { next_win_id = a };
  on_mouse = λ routine c i x y. record c { fb_width = pos_part x };
}

abbrev desk : Desk
desk = record {
  compositor = two_windows;
  mouse_x = pos 0;
  mouse_y = pos 0;
  left_button = false;
  right_button = false;
  prev_left = false;
  prev_right = false;
  selected_icon = none;
}

-- A point below the titlebar at which the other window lay in front.
contains_run : contains (record right_window { is_minimized = false }) (pos 60) (pos 80) ≡ true
unfolding contains ◌+ℤ◌
contains_run = refl

update_mouse-focus_example :
    let c' = focus two_windows (some 1) in
    (get_focused c' ≡ some 1)
    × (windows_after
          (update_mouse programs (record desk { compositor = c' }) (pos 60) (pos 80) true false)
        ≡ some (click_window programs.on_mouse c' 1 (pos 60) (pos 80)))
unfolding ◌-ℤ◌
update_mouse-focus_example =
    update_mouse-focus programs desk 1 right_window (pos 60) (pos 80) false refl refl refl refl refl
      refl contains_run

-- The start button opens the menu, and a click on its last tile starts the browser and shuts it.
menu_run :
    (windows_after (update_mouse programs desk (pos 20) (pos 700) true false)
      ≡ some (record two_windows { start_menu_open = true }))
    × (windows_after (
          update_mouse programs
            (record desk { compositor = record two_windows { start_menu_open = true } })
            (pos 370)
            (pos 310)
            true
            false)
        ≡ some (record two_windows { next_win_id = 7 }))
unfolding update_mouse press taskbar_button press_button press_behind press_start_menu press_tile
    find_tile toggle_start_menu drag ◌+ℤ◌ ◌-ℤ◌
menu_run = (refl, refl)

-- Clicks on an icon select it, and then start its program.
icon_run :
    (d : Desk) × (update_mouse programs desk (pos 1200) (pos 320) true false ≡ some d)
    × (d.selected_icon ≡ some 24)
    × (windows_after
          (update_mouse programs (record d { prev_left = false }) (pos 1200) (pos 320) true false)
        ≡ some (record two_windows { next_win_id = 5 }))
unfolding update_mouse press press_behind press_start_menu press_desktop press_icon find_icon
    column_x topmost contains drag ◌+ℤ◌ ◌-ℤ◌
icon_run = (
  record desk {
    mouse_x = pos 1200;
    mouse_y = pos 320;
    left_button = true;
    prev_left = true;
    selected_icon = some 24;
  },
  refl,
  refl,
  refl,
)

-- Where both windows lie, a click goes to the one in front.
click_run :
    (clicked two_windows (pos 60) (pos 20) ≡ some 0)
    × (clicked (focus two_windows (some 1)) (pos 60) (pos 20) ≡ some 1)
    × (clicked two_windows (pos 230) (pos 20) ≡ some 1)
    × (clicked two_windows (pos 600) (pos 20) ≡ none)
unfolding topmost contains focus focus_windows max_z ◌+ℤ◌
click_run = (refl, refl, refl, refl)

maximize-maximize_example :
    (v : Window) × (get_elem? (maximize (maximize two_windows (some 1)) (some 1)).windows 1
      ≡ some v)
    × (v.x ≡ pos 50)
    × (v.y ≡ pos 10)
    × (v.width ≡ pos 200)
    × (v.height ≡ pos 100)
    × (v.is_maximized ≡ false)
    × (get_focused (maximize (maximize two_windows (some 1)) (some 1)) ≡ some 1)
maximize-maximize_example = maximize-maximize two_windows 1 right_window refl refl refl

focus_times-undrawn_example : All (λ j. j ≢ 1) (render_order (focus_times 18 two_windows 1))
focus_times-undrawn_example =
    focus_times-undrawn 18 two_windows 1 right_window refl refl (omega arith)

-- Before that, the windows are drawn from the lowest to the highest.
render_run : render_order two_windows ≡ 1 ∷ 0 ∷ []
unfolding render_order draw_from layer
render_run = refl

-- A handler that takes the key's code for the height of the frame buffer.
abbrev resize : ℕ → Compositor → ℕ → ℕ → ℕ → Compositor
resize routine c i ascii scancode = record c { fb_height = routine + scancode }

dispatch_key-focus_run :
    dispatch_key resize (focus two_windows (some 1)) 97 30 1
    ≡ resize 9 (focus two_windows (some 1)) 1 97 30
dispatch_key-focus_run =
    dispatch_key-focus resize two_windows 1 right_window 97 30 1 refl refl (omega arith)
      (omega arith)

tag_run : (get_by_tag two_windows (some (118 ∷ [])) ≡ some 0) × (get_by_tag two_windows none ≡ none)
unfolding get_by_tag same_text find_first
tag_run = (refl, refl)
