-- ===== src/Desktop/Windows/Pointer.antt =====
-- What the mouse and the keyboard do to the windows: the dragging and the click on a window of
-- `compositor_update_mouse`, and `compositor_dispatch_key` of kernel/gui/compositor.c, and the popups'
-- switches. Mouse has the rest of `compositor_update_mouse`. A callback is what the caller of these
-- functions says its number does.
use operating_system_sctrach.Common.{
  ℕ, ◌+◌, ◌<◌, ◌≡◌, ap, ◌∙◌, Option, none, some, Bool, true, false, not, ◌&&◌, ◌==◌, if◌then◌else◌,
  get_elem?, arith,
}
use operating_system_sctrach.Common.Int.{ℤ, pos, ◌+ℤ◌, ◌-ℤ◌, ◌≤ℤ◌, ltb_ℤ, signed32}
use operating_system_sctrach.Desktop.Windows.{
  Window, Compositor, titlebar_height, taskbar_height, focus, destroy, maximize, minimize, move,
  get_focused, is_used,
}
use operating_system_sctrach.Desktop.Windows.Focus.{focus_windows_self, raised}
use operating_system_sctrach.Desktop.Windows.Focus.Click.{focus-IsTop}

-- `compositor_toggle_start_menu`
unfoldable pub toggle_start_menu : Compositor → Compositor
toggle_start_menu c = if c.start_menu_open then record c { start_menu_open = false } else record c {
  start_menu_open = true;
  calendar_open = false;
  volume_open = false;
  power_menu_open = false;
}

-- `compositor_toggle_calendar`
unfoldable pub toggle_calendar : Compositor → Compositor
toggle_calendar c = if c.calendar_open then record c { calendar_open = false } else record c {
  calendar_open = true;
  start_menu_open = false;
  volume_open = false;
  power_menu_open = false;
}

-- `compositor_toggle_volume`
unfoldable pub toggle_volume : Compositor → Compositor
toggle_volume c = if c.volume_open then record c { volume_open = false } else record c {
  volume_open = true;
  start_menu_open = false;
  calendar_open = false;
  power_menu_open = false;
}

-- `compositor_toggle_power_menu`
unfoldable pub toggle_power_menu : Compositor → Compositor
toggle_power_menu c = record c { power_menu_open = not c.power_menu_open }

-- The lowest row that the top of a dragged window may have.
abbrev pub drag_limit : Compositor → ℤ
drag_limit c = signed32 c.fb_height -ℤ pos (taskbar_height + titlebar_height)

unfoldable pub drag_row : ℤ → ℤ → ℤ
drag_row limit y =
    let up = if ltb_ℤ y (pos 0) then pos 0 else y in if ltb_ℤ limit up then limit else up

-- The part of `compositor_update_mouse` that moves the window held; `left` is `left_btn`.
unfoldable pub drag : Compositor → ℤ → ℤ → Bool → Compositor
drag c x y left = elim c.drag_window [
  | none ↦ c
  | some i ↦
      if left
      then move c (some i) (x -ℤ c.drag_offset_x) (drag_row (drag_limit c) (y -ℤ c.drag_offset_y))
      else record c { drag_window = none }
]

-- The click at (x, y) on the titlebar of the window `w` in slot `i`.
unfoldable pub click_titlebar : Compositor → ℕ → Window → ℤ → ℤ → Compositor
click_titlebar c i w x y =
    let close_x = w.x +ℤ w.width -ℤ pos 42 in
    let max_x = close_x -ℤ pos 42 in
    let min_x = max_x -ℤ pos 42 in
    if not (ltb_ℤ x close_x) && not (ltb_ℤ (w.x +ℤ w.width) x)
    then destroy c w.id
    else if not (ltb_ℤ x max_x) && ltb_ℤ x close_x
    then maximize c (some i)
    else if not (ltb_ℤ x min_x) && ltb_ℤ x max_x
    then minimize c (some i)
    else record c { drag_window = some i; drag_offset_x = x -ℤ w.x; drag_offset_y = y -ℤ w.y }

-- The click on the window in slot `i`, which the scan over the windows found.
unfoldable pub click_window :
    (ℕ → Compositor → ℕ → ℤ → ℤ → Compositor) → Compositor → ℕ → ℤ → ℤ → Compositor
click_window on_mouse c i x y =
    let c' = focus c (some i) in
    elim (get_elem? c'.windows i) [
      | none ↦ c'
      | some w ↦
          if not (ltb_ℤ y w.y) && not (ltb_ℤ (w.y +ℤ pos titlebar_height) y)
          then click_titlebar c' i w x y
          else if w.on_mouse == 0
          then c'
          else on_mouse w.on_mouse c' i (x -ℤ w.x) (y -ℤ w.y)
    ]

-- `compositor_dispatch_key`
unfoldable pub dispatch_key :
    (ℕ → Compositor → ℕ → ℕ → ℕ → Compositor) → Compositor → ℕ → ℕ → ℕ → Compositor
dispatch_key on_key c ascii scancode is_pressed =
    if is_pressed == 0
    then c
    else if c.is_suspended
    then record c { is_suspended = false }
    else elim (get_focused c) [
      | none ↦ c
      | some i ↦ elim (get_elem? c.windows i) [
        | none ↦ c
        | some w ↦ if w.on_key == 0 then c else on_key w.on_key c i ascii scancode
      ]
    ]

-- The handler that the keys go to.
dispatch_key-key :
    (on_key : ℕ → Compositor → ℕ → ℕ → ℕ → Compositor) (c : Compositor) (i : ℕ) (w : Window)
    → (ascii scancode is_pressed : ℕ) → get_focused c ≡ some i
    → get_elem? c.windows i ≡ some w
    → 0 < is_pressed
    → 0 < w.on_key
    → dispatch_key on_key c ascii scancode is_pressed ≡ (
        if c.is_suspended
        then record c { is_suspended = false }
        else on_key w.on_key c i ascii scancode)
unfolding dispatch_key
dispatch_key-key on_key c i w ascii scancode is_pressed top at p k =
    let run : ℕ → Window → Compositor =
      λ j v. if v.on_key == 0 then c else on_key v.on_key c j ascii scancode in
    let open_slot : Option ℕ → Compositor = λ o. elim o [
      | none ↦ c
      | some j ↦ elim (get_elem? c.windows j) [ none ↦ c | some v ↦ run j v ]
    ] in
    let down : (is_pressed == 0) ≡ false = ground arith in
    let set : (w.on_key == 0) ≡ false = ground arith in
    let found : open_slot (get_focused c) ≡ on_key w.on_key c i ascii scancode =
      ap open_slot top
      ∙ ap (λ (o : Option Window). elim o [ none ↦ c | some v ↦ run i v ]) at
      ∙ ap (λ b. if b then c else on_key w.on_key c i ascii scancode) set in
    ap
      (λ b.
        if b
        then c
        else if c.is_suspended
        then record c { is_suspended = false }
        else open_slot (get_focused c))
      down
    ∙ ap (λ d. if c.is_suspended then record c { is_suspended = false } else d) found

-- Any key that is pressed wakes a suspended desktop and does nothing else; on a desktop that is awake, a
-- key pressed after a window got the focus runs that window's handler, once, on that window.
pub dispatch_key-focus :
    (on_key : ℕ → Compositor → ℕ → ℕ → ℕ → Compositor) (c : Compositor) (i : ℕ) (w : Window)
    → (ascii scancode is_pressed : ℕ) → get_elem? c.windows i ≡ some w
    → is_used w ≡ true
    → 0 < is_pressed
    → 0 < w.on_key
    → let c' = focus c (some i) in
      dispatch_key on_key c' ascii scancode is_pressed ≡ (
        if c.is_suspended
        then record c' { is_suspended = false }
        else on_key w.on_key c' i ascii scancode)
unfolding focus
dispatch_key-focus on_key c i w ascii scancode is_pressed e u p k =
    let v = raised c.windows w in
    let same : v.on_key ≡ w.on_key = ground arith in
    dispatch_key-key on_key (focus c (some i)) i v ascii scancode is_pressed
      (focus-IsTop c i w e u).0 (focus_windows_self c.windows i w e) p (omega (arith, same, k))
    ∙ ap
        (λ n.
          if c.is_suspended
          then record (focus c (some i)) { is_suspended = false }
          else on_key n (focus c (some i)) i ascii scancode)
        same

-- A dragged window keeps its top row on the screen, above the taskbar, if the screen is high enough for
-- the two bars.
pub drag_row-bounds :
    (limit : ℕ) (y : ℤ) → (pos 0 ≤ℤ drag_row (pos limit) y) × (drag_row (pos limit) y ≤ℤ pos limit)
unfolding drag_row
drag_row-bounds limit y = ground arith
