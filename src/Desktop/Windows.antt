-- ===== src/Desktop/Windows.antt =====
-- The windows of kernel/gui/compositor.h and compositor.c. A `Window *` is a slot of `g_windows`, and
-- NULL is `none`. A callback is a number, and 0 is NULL. `z_order` is a natural number: the code only
-- counts it up, and its overflow after 2 ^ 31 changes of focus is left out, as is what drawing puts on the
-- screen.
pub mod Count
pub mod Run
pub mod Focus
pub mod Draw
pub mod Pointer
pub mod Mouse
use operating_system_sctrach.Common.{
  ℕ, zero, suc, ◌+◌, ◌-◌, ◌%◌, ◌^◌, List, [], ◌∷◌, ◌++◌, map, Option, none, some, Bool, true, false,
  not, ◌&&◌, ltb, ◌==◌, if◌then◌else◌, find_first, update_first, modify, get_elem?, replicate,
  copy_text, same_text,
}
use operating_system_sctrach.Common.Int.{ℤ, pos, ◌+ℤ◌, ◌-ℤ◌, ltb_ℤ, signed32}

abbrev pub max_windows : ℕ
max_windows = 16

abbrev pub titlebar_height : ℕ
titlebar_height = 36

abbrev pub taskbar_height : ℕ
taskbar_height = 48

pub record Window : Type 0 where
  pub id : ℕ
  pub title : List ℕ
  pub app_tag : List ℕ
  pub x : ℤ
  pub y : ℤ
  pub width : ℤ
  pub height : ℤ
  pub is_minimized : Bool
  pub is_maximized : Bool
  pub is_focused : Bool
  pub is_visible : Bool
  pub saved_x : ℤ
  pub saved_y : ℤ
  pub saved_w : ℤ
  pub saved_h : ℤ
  pub z_order : ℕ
  pub on_paint : ℕ
  pub on_key : ℕ
  pub on_mouse : ℕ
  pub user_data : ℕ

-- The static variables of compositor.c that the functions below use.
pub record Compositor : Type 0 where
  pub fb_width : ℕ
  pub fb_height : ℕ
  pub windows : List Window
  pub window_count : ℕ
  pub next_win_id : ℕ
  pub start_menu_open : Bool
  pub calendar_open : Bool
  pub volume_open : Bool
  pub power_menu_open : Bool
  pub is_suspended : Bool
  pub drag_window : Option ℕ
  pub drag_offset_x : ℤ
  pub drag_offset_y : ℤ

-- A slot in use.
abbrev pub is_used : Window → Bool
is_used w = not (w.id == 0)

-- `compositor_init`, but for the mouse and the frame buffer's memory.
unfoldable pub init : Compositor → ℕ → ℕ → Compositor
init c width height = record c {
  fb_width = width;
  fb_height = height;
  window_count = 0;
  start_menu_open = false;
  calendar_open = false;
  volume_open = false;
  power_menu_open = false;
  is_suspended = false;
  windows = map (λ (w : Window). record w { id = 0 }) c.windows;
}

-- The largest `z_order` of a slot in use, from `best` on.
unfoldable pub max_z : List Window → ℕ → ℕ
max_z [] best = best
max_z (w ∷ ws) best =
    max_z ws (if is_used w then (if ltb best w.z_order then w.z_order else best) else best)

abbrev pub unfocused : Window → Window
unfocused w = if is_used w then record w { is_focused = false } else w

unfoldable pub focus_windows : List Window → ℕ → List Window
focus_windows ws i =
    let top = max_z ws 0 in
    modify (map unfocused ws) i
      (λ w. record w { is_focused = true; is_minimized = false; z_order = top + 1 })

-- `window_focus`
unfoldable pub focus : Compositor → Option ℕ → Compositor
focus c none = c
focus c (some i) = record c { windows = focus_windows c.windows i }

-- "app"
abbrev pub default_tag : List ℕ
default_tag = 97 ∷ 112 ∷ 112 ∷ []

-- What `window_create` is asked for; `app_tag` may be NULL.
pub record Request : Type 0 where
  pub title : List ℕ
  pub app_tag : Option (List ℕ)
  pub x : ℤ
  pub y : ℤ
  pub w : ℤ
  pub h : ℤ
  pub on_paint : ℕ
  pub user_data : ℕ

unfoldable pub opened : Request → ℕ → ℕ → Window → Window
opened r id z old = record {
  id = id;
  title = copy_text 63 r.title;
  app_tag = copy_text 15 (elim r.app_tag [ some t ↦ t | none ↦ default_tag ]);
  x = r.x;
  y = r.y;
  width = r.w;
  height = r.h;
  is_minimized = false;
  is_maximized = false;
  is_focused = true;
  is_visible = true;
  saved_x = r.x;
  saved_y = r.y;
  saved_w = r.w;
  saved_h = r.h;
  z_order = z;
  on_paint = r.on_paint;
  on_key = 0;
  on_mouse = 0;
  user_data = r.user_data;
}

-- `window_create`
unfoldable pub create : Compositor → Request → Compositor × Option ℕ
create c r =
    elim (update_first (λ w. not (is_used w)) (opened r c.next_win_id c.window_count) c.windows) [
      | none ↦ (c, none)
      | some (i, _, ws) ↦ (
        focus
            (record c {
              windows = ws;
              next_win_id = (c.next_win_id + 1) % 2 ^ 32;
              window_count = c.window_count + 1;
            })
            (some i),
        some i,
      )
    ]

-- `window_set_callbacks`
unfoldable pub set_callbacks : Compositor → Option ℕ → ℕ → ℕ → Compositor
set_callbacks c none key mouse = c
set_callbacks c (some i) key mouse = record c {
  windows = modify c.windows i (λ w. record w { on_key = key; on_mouse = mouse });
}

-- `window_destroy`
unfoldable pub destroy : Compositor → ℕ → Compositor
destroy c win_id =
    elim (update_first (λ (w : Window). w.id == win_id)
      (λ w. record w { id = 0; is_visible = false }) c.windows) [
        | none ↦ c
        | some (_, _, ws) ↦ record c { windows = ws; window_count = c.window_count - 1 }
      ]

unfoldable pub toggle_maximized : ℕ → ℕ → Window → Window
toggle_maximized width height w =
    if w.is_maximized
    then record w {
      x = w.saved_x;
      y = w.saved_y;
      width = w.saved_w;
      height = w.saved_h;
      is_maximized = false;
    }
    else record w {
      saved_x = w.x;
      saved_y = w.y;
      saved_w = w.width;
      saved_h = w.height;
      x = pos 0;
      y = pos 0;
      width = signed32 (width % 2 ^ 32);
      height = signed32 ((height + 2 ^ 32 - taskbar_height) % 2 ^ 32);
      is_maximized = true;
    }

-- `window_maximize`
unfoldable pub maximize : Compositor → Option ℕ → Compositor
maximize c none = c
maximize c (some i) =
    focus (record c { windows = modify c.windows i (toggle_maximized c.fb_width c.fb_height) })
      (some i)

-- `window_minimize`
unfoldable pub minimize : Compositor → Option ℕ → Compositor
minimize c none = c
minimize c (some i) = record c {
  windows = modify c.windows i (λ w. record w { is_minimized = true; is_focused = false });
}

-- `window_restore`
unfoldable pub restore : Compositor → Option ℕ → Compositor
restore c none = c
restore c (some i) =
    focus (record c { windows = modify c.windows i (λ w. record w { is_minimized = false }) })
      (some i)

-- `window_move`
unfoldable pub move : Compositor → Option ℕ → ℤ → ℤ → Compositor
move c none new_x new_y = c
move c (some i) new_x new_y = record c {
  windows =
      modify c.windows i (λ w. if w.is_maximized then w else record w { x = new_x; y = new_y });
}

abbrev pub slot_of : Option (ℕ × Window) → Option ℕ
slot_of none = none
slot_of (some (i, _)) = some i

-- `window_get_by_tag`
unfoldable pub get_by_tag : Compositor → Option (List ℕ) → Option ℕ
get_by_tag c none = none
get_by_tag c (some tag) = slot_of (find_first (λ w. is_used w && same_text w.app_tag tag) c.windows)

-- `window_get_focused`
unfoldable pub get_focused : Compositor → Option ℕ
get_focused c =
    slot_of (find_first (λ w. is_used w && w.is_focused && not w.is_minimized) c.windows)

-- The first half of the click handler of `compositor_update_mouse`: whether the point is in the window,
-- and the window that stands highest there. `best` is `clicked_win`, whose `z_order` is `max_z`.
unfoldable pub contains : Window → ℤ → ℤ → Bool
contains w x y =
    is_used w
    && not w.is_minimized
    && w.is_visible
    && not (ltb_ℤ x w.x)
    && not (ltb_ℤ (w.x +ℤ w.width) x)
    && not (ltb_ℤ y w.y)
    && not (ltb_ℤ (w.y +ℤ w.height) y)

abbrev pub above : Option (ℕ × ℕ) → ℕ → Bool
above none z = true
above (some (_, top)) z = ltb top z

unfoldable pub topmost : List Window → ℕ → Option (ℕ × ℕ) → ℤ → ℤ → Option (ℕ × ℕ)
topmost [] i best x y = best
topmost (w ∷ ws) i best x y =
    topmost ws (i + 1)
      (if contains w x y
        then (if above best w.z_order then some (i, w.z_order) else best)
        else best)
      x y

abbrev pub clicked : Compositor → ℤ → ℤ → Option ℕ
clicked c x y = elim (topmost c.windows 0 none x y) [ some (i, _) ↦ some i | none ↦ none ]
