-- ===== src/Desktop/Windows/Mouse/Target.antt =====
-- Where a press of the mouse of kernel/gui/compositor.c goes.
use operating_system_sctrach.Common.{
  ℕ, ◌≡◌, refl, ap, ◌∙◌, Option, none, some, Bool, true, false, not, ◌&&◌, if◌then◌else◌, get_elem?,
  arith,
}
use operating_system_sctrach.Common.Int.{ℤ, pos, ltb_ℤ, ◌-ℤ◌, signed32}
use operating_system_sctrach.Desktop.Windows.{
  Window, Compositor, taskbar_height, is_used, focus, get_focused, contains, clicked, move,
}
use operating_system_sctrach.Desktop.Windows.Focus.Click.{focus-IsTop}
use operating_system_sctrach.Desktop.Windows.Pointer.{drag, drag_row, drag_limit, click_window}
use operating_system_sctrach.Desktop.Windows.Mouse.{
  Programs, Desk, Press, served, hibernates, off, goes_on, press_start_menu, press_desktop,
  press_behind, press, press_icon, press_button, taskbar_button, update_mouse,
}

-- The windows after a call.
abbrev pub windows_after : Option Desk → Option Compositor
windows_after none = none
windows_after (some d) = some d.compositor

drag-none : (c : Compositor) (x y : ℤ) (left : Bool) → c.drag_window ≡ none → drag c x y left ≡ c
unfolding drag
drag-none c x y left e =
    ap
      (λ (o : Option ℕ). elim o [
        | none ↦ c
        | some i ↦
            if left
            then move c (some i) (x -ℤ c.drag_offset_x)
                (drag_row (drag_limit c) (y -ℤ c.drag_offset_y))
            else record c { drag_window = none }
      ])
      e

-- The result of a press behind the taskbar from where the start menu led.
abbrev from_menu : Programs → Desk → ℤ → ℤ → Press → Option Desk
from_menu p d x y m = elim m [
  | served c ↦ some (record d { compositor = c; prev_left = true })
  | hibernates c ↦ some (record d { compositor = c })
  | off ↦ none
  | goes_on c ↦ some (record (press_desktop p (record d { compositor = c }) x y) {
    prev_left = true;
    prev_right = d.right_button;
  })
]

press_start_menu-shut :
    (p : Programs) (c : Compositor) (x y : ℤ)
    → c.start_menu_open ≡ false
    → press_start_menu p c x y ≡ Press.goes_on c
unfolding press_start_menu
press_start_menu-shut p c x y shut = ground arith

press_desktop-window :
    (p : Programs) (d : Desk) (x y : ℤ) (i : ℕ)
    → clicked d.compositor x y ≡ some i
    → press_desktop p d x y ≡ record d { compositor = click_window p.on_mouse d.compositor i x y }
unfolding press_desktop
press_desktop-window p d x y i at =
    ap
      (λ (o : Option ℕ). elim o [
        | some j ↦ record d { compositor = click_window p.on_mouse d.compositor j x y }
        | none ↦ press_icon p d x y
      ])
      at

press-window :
    (p : Programs) (d : Desk) (x y : ℤ) (i : ℕ)
    → d.compositor.start_menu_open ≡ false
    → ltb_ℤ y (signed32 d.compositor.fb_height -ℤ pos taskbar_height) ≡ true
    → clicked d.compositor x y ≡ some i
    → windows_after (press p d x y) ≡ some (click_window p.on_mouse d.compositor i x y)
unfolding press press_behind
press-window p d x y i shut above at =
    let c = d.compositor in
    let behind = press_behind p d x y in
    let barred : Option Desk = elim (taskbar_button c x) [
      | some b ↦ some (record d { compositor = press_button p b c; prev_left = true })
      | none ↦ behind
    ] in
    ap (λ b. windows_after (if b then behind else barred)) above
    ∙ (ap (λ m. windows_after (from_menu p d x y m)) (press_start_menu-shut p c x y shut)
        ∙ ap (λ (e : Desk). some e.compositor) (press_desktop-window p d x y i at))

windows_after-if :
    (b : Bool) (s t : Option Desk)
    → windows_after (if b && true then s else t) ≡ (if b then windows_after s else windows_after t)
windows_after-if true s t = refl
windows_after-if false s t = refl

some-if : (b : Bool) (c d : Compositor) → (if b then some c else some d) ≡ some (if b then c else d)
some-if true c d = refl
some-if false c d = refl

-- A press where no window is held wakes a suspended desktop, and otherwise goes on.
update_mouse-press :
    (p : Programs) (d : Desk) (x y : ℤ) (right : Bool)
    → d.compositor.drag_window ≡ none
    → d.prev_left ≡ false
    → windows_after (update_mouse p d x y true right) ≡ (
        if d.compositor.is_suspended
        then some (record d.compositor { is_suspended = false })
        else windows_after (
            press p
              (record d { mouse_x = x; mouse_y = y; left_button = true; right_button = right })
              x
              y))
unfolding update_mouse
update_mouse-press p d x y right free up =
    let moved : Desk = record d {
      mouse_x = x;
      mouse_y = y;
      left_button = true;
      right_button = right;
    } in
    let whole : Bool → Compositor → Option Desk = λ now c.
      if d.compositor.is_suspended && now
      then some (record moved {
        compositor = record d.compositor { is_suspended = false };
        prev_left = true;
      })
      else if now
      then press p (record moved { compositor = c }) x y
      else some (record moved { compositor = c; prev_left = true; prev_right = right }) in
    ap (λ b. windows_after (whole (not b) (drag d.compositor x y true))) up
    ∙ (ap (λ c. windows_after (whole true c)) (drag-none d.compositor x y true free)
        ∙ windows_after-if d.compositor.is_suspended
            (some (record moved {
              compositor = record d.compositor { is_suspended = false };
              prev_left = true;
            }))
            (press p moved x y))

-- A window that has the focus also gets the clicks: where no window is held and the start menu is shut, a
-- press of the left button at a point of an open window that was given the focus, above the taskbar, is that
-- window's, however the other windows lie: it is served as the click on this window and nothing else happens.
-- On a suspended desktop the press wakes the desktop and does nothing else. The window also gets the keys.
pub update_mouse-focus :
    (p : Programs) (d : Desk) (i : ℕ) (w : Window) (x y : ℤ) (right : Bool)
    → get_elem? d.compositor.windows i ≡ some w
    → is_used w ≡ true
    → d.compositor.drag_window ≡ none
    → d.compositor.start_menu_open ≡ false
    → d.prev_left ≡ false
    → ltb_ℤ y (signed32 d.compositor.fb_height -ℤ pos taskbar_height) ≡ true
    → contains (record w { is_minimized = false }) x y ≡ true
    → let c' = focus d.compositor (some i) in
      (get_focused c' ≡ some i)
      × (windows_after (update_mouse p (record d { compositor = c' }) x y true right)
          ≡ some (
              if d.compositor.is_suspended
              then record c' { is_suspended = false }
              else click_window p.on_mouse c' i x y))
unfolding focus
update_mouse-focus p d i w x y right e u free shut up above at =
    let c' = focus d.compositor (some i) in
    let d' : Desk = record d { compositor = c' } in
    let top = focus-IsTop d.compositor i w e u in
    let moved : Desk = record d' {
      mouse_x = x;
      mouse_y = y;
      left_button = true;
      right_button = right;
    } in
    let awake = press-window p moved x y i shut above (top.1 x y at) in
    (
      top.0,
      update_mouse-press p d' x y right free up
          ∙ (ap
                (λ o.
                  if d.compositor.is_suspended
                  then some (record c' { is_suspended = false })
                  else o)
                awake
              ∙ some-if d.compositor.is_suspended (record c' { is_suspended = false })
                  (click_window p.on_mouse c' i x y)),
    )
