-- ===== src/Desktop/Windows/Mouse.antt =====
-- The whole of `compositor_update_mouse` of kernel/gui/compositor.c: waking up, dragging, the taskbar, the
-- start menu with its power menu, the windows and the icons of the desktop. What starting a program does to
-- the desktop is the argument `launch`; the programs are numbered as the tiles of the start menu are:
-- explorer, vlc, installer, diskclone, taskmgr, firewall, terminal, browser. Coordinates do not overflow.
pub mod Target
use operating_system_sctrach.Common.{
  ℕ, zero, suc, ◌+◌, ◌*◌, ◌/◌, ◌%◌, ◌^◌, ◌-◌, List, [], ◌∷◌, ◌++◌, Option, none, some, Bool, true,
  false, not, ◌&&◌, ◌==◌, if◌then◌else◌, get_elem?, codes,
}
use operating_system_sctrach.Common.Int.{ℤ, pos, ◌+ℤ◌, ◌-ℤ◌, ltb_ℤ, signed32}
use operating_system_sctrach.Desktop.Windows.{
  Window, Compositor, taskbar_height, focus, minimize, restore, get_by_tag, clicked,
}
use operating_system_sctrach.Desktop.Windows.Pointer.{
  drag, click_window, toggle_start_menu, toggle_calendar, toggle_volume, toggle_power_menu,
}

-- What the programs do: starting one, and a window's handler of clicks.
pub record Programs : Type 0 where
  pub launch : ℕ → Compositor → Compositor
  pub on_mouse : ℕ → Compositor → ℕ → ℤ → ℤ → Compositor

-- The windows, the state of the mouse (`g_mouse`) and the icon selected (`g_selected_desktop_icon`, with
-- `none` for -1).
pub record Desk : Type 0 where
  pub compositor : Compositor
  pub mouse_x : ℤ
  pub mouse_y : ℤ
  pub left_button : Bool
  pub right_button : Bool
  pub prev_left : Bool
  pub prev_right : Bool
  pub selected_icon : Option ℕ

abbrev pub within : ℤ → ℤ → ℤ → Bool
within low high v = not (ltb_ℤ v low) && not (ltb_ℤ high v)

-- A button of the taskbar: the start menu, a program, the window of a tag or else its program, and the
-- two popups.
pub data Button : Type 0 where
  start : Button
  program : ℕ → Button
  window : List ℕ → ℕ → Button
  calendar : Button
  volume : Button

unfoldable pub taskbar_button : Compositor → ℤ → Option Button
taskbar_button c x =
    let tw = signed32 c.fb_width in
    if within (pos 12) (pos 52) x
    then some start
    else if within (pos 56) (pos 96) x
    then some (program 6)
    else if within (pos 100) (pos 140) x
    then some (window (codes "browser") 7)
    else if within (pos 144) (pos 184) x
    then some (window (codes "installer") 2)
    else if within (pos 188) (pos 228) x
    then some (window (codes "explorer") 0)
    else if within (pos 232) (pos 272) x
    then some (program 6)
    else if within (pos 276) (pos 316) x
    then some (window (codes "taskmgr") 4)
    else if within (pos 320) (pos 360) x
    then some (program 6)
    else if within (pos 364) (pos 404) x
    then some (window (codes "diskclone") 3)
    else if within (pos 408) (pos 448) x
    then some (window (codes "vlc") 1)
    else if within (tw -ℤ pos 120) (tw -ℤ pos 34) x
    then some calendar
    else if within (tw -ℤ pos 240) (tw -ℤ pos 160) x
    then some volume
    else none

-- The window of a button is restored, minimized or focused.
unfoldable pub press_window : Compositor → ℕ → Compositor
press_window c i = elim (get_elem? c.windows i) [
  | none ↦ c
  | some w ↦
      if w.is_minimized
      then restore c (some i)
      else if w.is_focused
      then minimize c (some i)
      else focus c (some i)
]

unfoldable pub press_button : Programs → Button → Compositor → Compositor
press_button p start c = toggle_start_menu c
press_button p (program a) c = p.launch a c
press_button p (window tag a) c = elim (get_by_tag c (some tag)) [
  | none ↦ p.launch a c
  | some i ↦ press_window c i
]
press_button p calendar c = toggle_calendar c
press_button p volume c = toggle_volume c

-- Where a press leads: it is served, the machine hibernates, it is switched off or restarted, or the press
-- goes on to the windows.
pub data Press : Type 0 where
  served : Compositor → Press
  hibernates : Compositor → Press
  off : Press
  goes_on : Compositor → Press

-- The first of the `n` tiles of the start menu from `i` on that lies at the point.
unfoldable pub find_tile : ℕ → ℤ → ℤ → ℤ → ℕ → Option ℕ
find_tile zero sm_y x y i = none
find_tile (suc n) sm_y x y i =
    let px = 32 + i % 4 * 110 in
    let py = sm_y +ℤ pos (96 + i / 4 * 78) in
    let rest = find_tile n sm_y x y (i + 1) in
    if within (pos px) (pos (px + 102)) x && within py (py +ℤ pos 70) y then some i else rest

abbrev pub closed_menus : Compositor → Compositor
closed_menus c = record c { start_menu_open = false; power_menu_open = false }

-- The rectangle of the start menu, with its tiles.
unfoldable pub press_tile : Programs → Compositor → ℤ → ℤ → ℤ → Press
press_tile p c sm_y x y =
    if within (pos 12) (pos 492) x && within sm_y (sm_y +ℤ pos 540) y
    then elim (find_tile 8 sm_y x y 0) [
      | some i ↦ Press.served (closed_menus (p.launch i c))
      | none ↦ Press.goes_on c
    ]
    else Press.goes_on (closed_menus c)

-- The part for the start menu, if it is open.
unfoldable pub press_start_menu : Programs → Compositor → ℤ → ℤ → Press
press_start_menu p c x y =
    let sm_y = signed32 ((c.fb_height + 2 ^ 32 - 598) % 2 ^ 32) in
    let ubar_y = sm_y +ℤ pos 484 in
    let pw_y = ubar_y -ℤ pos 126 in
    let on_power_menu =
      c.power_menu_open && (within (pos 322) (pos 482) x && within pw_y (pw_y +ℤ pos 120) y) in
    if not c.start_menu_open
    then Press.goes_on c
    else if within (pos 444) (pos 478) x && within (ubar_y +ℤ pos 11) (ubar_y +ℤ pos 45) y
    then Press.served (toggle_power_menu c)
    else if on_power_menu && within (pw_y +ℤ pos 8) (pw_y +ℤ pos 40) y
    then Press.hibernates (record (closed_menus c) { is_suspended = true })
    else if on_power_menu && within (pw_y +ℤ pos 44) (pw_y +ℤ pos 76) y
    then Press.off
    else if on_power_menu && within (pw_y +ℤ pos 80) (pw_y +ℤ pos 112) y
    then Press.off
    else press_tile p c sm_y x y

-- An icon of the desktop: its column, its row and the program that it starts.
pub record Icon : Type 0 where
  pub col : ℕ
  pub row : ℕ
  pub app : ℕ

abbrev pub selected_is : Option ℕ → ℕ → Bool
selected_is none i = false
selected_is (some j) i = j == i

-- The icons of a column from row `row` on.
abbrev pub icon_column : ℕ → ℕ → List ℕ → List Icon
icon_column col row [] = []
icon_column col row (a ∷ apps) =
    record { col = col; row = row; app = a } ∷ icon_column col (row + 1) apps

-- `g_desktop_icons`, but for the 7 empty entries at its end: they lie where the first icon does, which the
-- scan finds before them.
abbrev pub desktop_icons : List Icon
desktop_icons =
    icon_column 0 0 (0 ∷ 0 ∷ 7 ∷ 7 ∷ 1 ∷ 6 ∷ 1 ∷ 6 ∷ [])
    ++ (icon_column 1 0 (2 ∷ 2 ∷ 2 ∷ 2 ∷ 2 ∷ 2 ∷ 3 ∷ [])
        ++ (icon_column 2 0 (0 ∷ 6 ∷ 0 ∷ 0 ∷ 6 ∷ []) ++ icon_column 3 0 (0 ∷ 0 ∷ 0 ∷ 0 ∷ 5 ∷ [])))

-- The left edge of a column.
unfoldable pub column_x : ℕ → ℕ → ℤ
column_x width col =
    if col == 1
    then pos 110
    else if col == 2
    then signed32 ((width + 2 ^ 32 - 200) % 2 ^ 32)
    else if col == 3
    then signed32 ((width + 2 ^ 32 - 98) % 2 ^ 32)
    else pos 16

-- The number and the program of the first icon that lies at the point.
unfoldable pub find_icon : List Icon → ℕ → ℤ → ℤ → ℕ → Option (ℕ × ℕ)
find_icon [] width x y i = none
find_icon (ic ∷ ics) width x y i =
    let ix = column_x width ic.col in
    let iy = 16 + ic.row * 72 in
    let rest = find_icon ics width x y (i + 1) in
    if within (ix -ℤ pos 4) (ix +ℤ pos 84) x && within (pos (iy - 2)) (pos (iy + 68)) y
    then some (i, ic.app)
    else rest

-- A press on the desktop: the icon that is selected starts its program, another is selected.
unfoldable pub press_icon : Programs → Desk → ℤ → ℤ → Desk
press_icon p d x y = elim (find_icon desktop_icons d.compositor.fb_width x y 0) [
  | none ↦ d
  | some (i, app) ↦
      if selected_is d.selected_icon i
      then record d { compositor = p.launch app d.compositor }
      else record d { selected_icon = some i }
]

-- The windows, and the desktop behind them.
unfoldable pub press_desktop : Programs → Desk → ℤ → ℤ → Desk
press_desktop p d x y = elim (clicked d.compositor x y) [
  | some i ↦ record d { compositor = click_window p.on_mouse d.compositor i x y }
  | none ↦ press_icon p d x y
]

-- The part of a press from the start menu on; `none` where the machine is off.
unfoldable pub press_behind : Programs → Desk → ℤ → ℤ → Option Desk
press_behind p d x y = elim (press_start_menu p d.compositor x y) [
  | served c ↦ some (record d { compositor = c; prev_left = true })
  | hibernates c ↦ some (record d { compositor = c })
  | off ↦ none
  | goes_on c ↦ some (record (press_desktop p (record d { compositor = c }) x y) {
    prev_left = true;
    prev_right = d.right_button;
  })
]

-- A press of the left button.
unfoldable pub press : Programs → Desk → ℤ → ℤ → Option Desk
press p d x y =
    let c = d.compositor in
    let behind = press_behind p d x y in
    if ltb_ℤ y (signed32 c.fb_height -ℤ pos taskbar_height)
    then behind
    else elim (taskbar_button c x) [
      | some b ↦ some (record d { compositor = press_button p b c; prev_left = true })
      | none ↦ behind
    ]

abbrev pub released : Bool → Compositor → Compositor
released now c = if now then record c { drag_window = none } else c

-- `compositor_update_mouse`; `none` where the machine is switched off or restarted.
unfoldable pub update_mouse : Programs → Desk → ℤ → ℤ → Bool → Bool → Option Desk
update_mouse p d x y left right =
    let moved = record d { mouse_x = x; mouse_y = y; left_button = left; right_button = right } in
    let pressed = left && not d.prev_left in
    let c = drag d.compositor x y left in
    let down = press p (record moved { compositor = c }) x y in
    if d.compositor.is_suspended && pressed
    then some (record moved {
      compositor = record d.compositor { is_suspended = false };
      prev_left = left;
    })
    else if pressed
    then down
    else some (record moved {
      compositor = released (not left && d.prev_left) c;
      prev_left = left;
      prev_right = right;
    })
