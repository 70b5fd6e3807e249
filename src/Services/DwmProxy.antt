-- ===== src/Services/DwmProxy.antt =====
-- The window proxy of services/dwm_proxy/dwm_proxy.c, which tells the desktop of windows over the message
-- queue. The array is the list of its 32 slots; `buf` is the stack frame of the function that writes an
-- event. The positions of windows are 32-bit patterns. The waiting of the service's thread is left out.
pub mod Count
use operating_system_sctrach.Common.{
  ℕ, zero, suc, ◌+◌, ◌-◌, ◌*◌, ◌/◌, ◌%◌, ◌^◌, List, [], ◌∷◌, map, Option, none, some, Bool, true,
  false, not, ◌&&◌, ltb, leb, ◌==◌, if◌then◌else◌, update_first, find_first, codes, copy_text,
  same_text,
}
use operating_system_sctrach.GuiIpc.{Ipc, send_window_event, send_service_event}

abbrev pub max_windows : ℕ
max_windows = 32

pub record DwmWindow : Type 0 where
  pub id : ℕ
  pub title : List ℕ
  pub app_tag : List ℕ
  pub is_open : Bool
  pub is_minimized : Bool
  pub is_maximized : Bool
  pub is_focused : Bool
  pub x : ℕ
  pub y : ℕ
  pub w : ℕ
  pub h : ℕ

pub record DwmProxy : Type 0 where
  pub windows : List DwmWindow
  pub window_count : ℕ
  pub next_win_id : ℕ
  pub dwm_ticks : ℕ
  pub frame_time_us : ℕ
  pub cpu_pct : ℕ
  pub fps : ℕ

abbrev pub opened : ℕ → List ℕ → List ℕ → ℕ → ℕ → ℕ → ℕ → DwmWindow
opened id title app_tag x y w h = record {
  id = id;
  title = copy_text 63 title;
  app_tag = copy_text 31 app_tag;
  is_open = true;
  is_minimized = false;
  is_maximized = false;
  is_focused = true;
  x = x;
  y = y;
  w = w;
  h = h;
}

abbrev pub is_closed : DwmWindow → Bool
is_closed w = not w.is_open

-- `dwm_open_window`; the result 0 means that there is no slot.
unfoldable pub open_window :
    (ℕ → ℕ) → DwmProxy → Ipc → List ℕ → List ℕ → ℕ → ℕ → ℕ → ℕ → DwmProxy × Ipc × ℕ
open_window buf d ipc title app_tag x y w h =
    if leb max_windows d.window_count
    then (d, ipc, 0)
    else elim (update_first is_closed (λ _. opened d.next_win_id title app_tag x y w h) d.windows) [
      | none ↦ (d, ipc, 0)
      | some (_, win, ws) ↦ (
        record d {
          windows = ws;
          next_win_id = (d.next_win_id + 1) % 2 ^ 32;
          window_count = d.window_count + 1;
        },
        send_window_event buf ipc (codes "open") app_tag title,
        win.id,
      )
    ]

abbrev pub is_open_id : ℕ → DwmWindow → Bool
is_open_id win_id w = (w.id == win_id) && w.is_open

abbrev pub closed : DwmWindow → DwmWindow
closed w = record w { is_open = false }

-- `dwm_close_window`
unfoldable pub close_window : (ℕ → ℕ) → DwmProxy → Ipc → ℕ → DwmProxy × Ipc
close_window buf d ipc win_id = elim (update_first (is_open_id win_id) closed d.windows) [
  | none ↦ (d, ipc)
  | some (_, win, ws) ↦ (
    record d { windows = ws; window_count = (d.window_count + 2 ^ 32 - 1) % 2 ^ 32 },
    send_window_event buf ipc (codes "close") win.app_tag win.title,
  )
]

-- One event for each window of the identifier.
unfoldable pub notify : (ℕ → ℕ) → List ℕ → ℕ → List DwmWindow → Ipc → Ipc
notify buf action win_id [] ipc = ipc
notify buf action win_id (w ∷ ws) ipc =
    notify buf action win_id ws
      (if w.id == win_id then send_window_event buf ipc action w.app_tag w.title else ipc)

abbrev pub minimized : ℕ → DwmWindow → DwmWindow
minimized win_id w = if w.id == win_id then record w { is_minimized = true } else w

abbrev pub maximized : ℕ → DwmWindow → DwmWindow
maximized win_id w =
    if w.id == win_id then record w { is_maximized = true; is_minimized = false } else w

abbrev pub focused : ℕ → DwmWindow → DwmWindow
focused win_id w = record w { is_focused = w.id == win_id }

-- `dwm_minimize_window`, `dwm_maximize_window` and `dwm_focus_window`
unfoldable pub minimize_window : (ℕ → ℕ) → DwmProxy → Ipc → ℕ → DwmProxy × Ipc
minimize_window buf d ipc win_id = (
  record d { windows = map (minimized win_id) d.windows },
  notify buf (codes "minimize") win_id d.windows ipc,
)

unfoldable pub maximize_window : (ℕ → ℕ) → DwmProxy → Ipc → ℕ → DwmProxy × Ipc
maximize_window buf d ipc win_id = (
  record d { windows = map (maximized win_id) d.windows },
  notify buf (codes "maximize") win_id d.windows ipc,
)

unfoldable pub focus_window : (ℕ → ℕ) → DwmProxy → Ipc → ℕ → DwmProxy × Ipc
focus_window buf d ipc win_id = (
  record d { windows = map (focused win_id) d.windows },
  notify buf (codes "focus") win_id d.windows ipc,
)

-- `dwm_handle_launch_command`
unfoldable pub handle_launch : (ℕ → ℕ) → DwmProxy → Ipc → List ℕ → DwmProxy × Ipc
handle_launch buf d ipc app_tag =
    let (d', ipc', _) = open_window buf d ipc app_tag app_tag 80 40 900 600 in (d', ipc')

abbrev pub has_tag : List ℕ → DwmWindow → Bool
has_tag app_tag w = same_text (copy_text 31 w.app_tag) (copy_text 31 app_tag) && w.is_open

-- `dwm_handle_close_command`
unfoldable pub handle_close : (ℕ → ℕ) → DwmProxy → Ipc → List ℕ → DwmProxy × Ipc
handle_close buf d ipc app_tag = elim (find_first (has_tag app_tag) d.windows) [
  | none ↦ (d, ipc)
  | some (_, w) ↦ close_window buf d ipc w.id
]

-- One round of the service's loop.
unfoldable pub tick : (ℕ → ℕ) → DwmProxy → Ipc → DwmProxy × Ipc
tick buf d ipc =
    let ticks = (d.dwm_ticks + 1) % 2 ^ 64 in
    let frame = (16666 + ticks % 500) % 2 ^ 32 in
    let d' = record d {
      dwm_ticks = ticks;
      frame_time_us = frame;
      fps = 1000000 / frame;
      cpu_pct = (3 + d.window_count * 2) % 2 ^ 32;
    } in
    (
      d',
      if ticks % 15 == 0
          then send_service_event buf ipc (codes "DWM") d'.cpu_pct (d.window_count * 8192 % 2 ^ 32)
              (if leb 55 d'.fps then codes "vsync-ok" else codes "vsync-late")
          else ipc,
    )
