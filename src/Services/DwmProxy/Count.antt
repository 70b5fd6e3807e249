-- ===== src/Services/DwmProxy/Count.antt =====
-- The number of open windows over runs of the operations of services/dwm_proxy/dwm_proxy.c.
use operating_system_sctrach.Common.{
  ℕ, ◌+◌, ◌≤◌, ◌≡◌, refl, ap, ◌∙◌, List, [], ◌∷◌, map, Bool, true, false, leb, count,
  count-Hit_more, count-Hit_less, count-map_same, update_first_cases, find_first, Option-cases,
  Bool-cases, arith, inl, inr,
}
use operating_system_sctrach.GuiIpc.{Ipc}
use operating_system_sctrach.Services.DwmProxy.{
  DwmWindow, DwmProxy, open_window, close_window, minimize_window, maximize_window, focus_window,
  handle_launch, handle_close, tick, is_closed, opened, is_open_id, closed, minimized, maximized,
  focused, has_tag,
}

abbrev pub is_open : DwmWindow → Bool
is_open w = w.is_open

-- The counter is the number of open windows, and every slot may hold one.
pub record IsCounted (d : DwmProxy) : Type 0 where
  pub counted : count is_open d.windows ≡ d.window_count
  pub few : d.window_count ≤ 32

open_window-IsCounted :
    (buf : ℕ → ℕ) (d : DwmProxy) (ipc : Ipc) (title app_tag : List ℕ) (x y w h : ℕ)
    → IsCounted d
    → IsCounted (open_window buf d ipc title app_tag x y w h).0
unfolding open_window
open_window-IsCounted buf d ipc title app_tag x y w h v =
    let f : DwmWindow → DwmWindow = λ _. opened d.next_win_id title app_tag x y w h in
    elim (Bool-cases (leb 32 d.window_count)) [
      | inl k ↦ rw (open_window, k) v
      | inr k ↦ elim (update_first_cases is_closed f d.windows) [
        | inl (_, e) ↦ rw (open_window, k, e) v
        | inr (i, win, ws, hit, e) ↦
            let old : is_open hit.at ≡ false = ground (arith, hit.passes) in
            rw (open_window, k, e)
              (record {
                counted = count-Hit_more is_open hit old refl ∙ ap (λ (n : ℕ). n + 1) v.counted;
                few = ground arith;
              })
      ]
    ]

close_window-IsCounted :
    (buf : ℕ → ℕ) (d : DwmProxy) (ipc : Ipc) (win_id : ℕ)
    → IsCounted d
    → IsCounted (close_window buf d ipc win_id).0
unfolding close_window
close_window-IsCounted buf d ipc win_id v =
    elim (update_first_cases (is_open_id win_id) closed d.windows) [
      | inl (_, e) ↦ rw (close_window, e) v
      | inr (i, win, ws, hit, e) ↦
          let old : is_open hit.at ≡ true = ground (arith, hit.passes) in
          let less = count-Hit_less is_open hit old refl in
          rw (close_window, e)
            (record {
              counted = omega (arith, less, v.counted, v.few);
              few = omega (arith, less, v.counted, v.few);
            })
    ]

map-IsCounted :
    (d : DwmProxy) (f : DwmWindow → DwmWindow)
    → ((w : DwmWindow) → is_open (f w) ≡ is_open w)
    → IsCounted d
    → IsCounted (record d { windows = map f d.windows })
map-IsCounted d f same v = record {
  counted = count-map_same is_open d.windows f same ∙ v.counted;
  few = v.few;
}

-- What the service is asked for; 0 ticks stand for one round of its loop.
pub data Command : Type 0 where
  launch : List ℕ → Command
  open_at : List ℕ → List ℕ → ℕ → ℕ → ℕ → ℕ → Command
  close : ℕ → Command
  close_app : List ℕ → Command
  minimize : ℕ → Command
  maximize : ℕ → Command
  focus : ℕ → Command
  round : Command

abbrev pub handle : (ℕ → ℕ) → DwmProxy × Ipc → Command → DwmProxy × Ipc
handle buf (d, ipc) (launch app_tag) = handle_launch buf d ipc app_tag
handle buf (d, ipc) (open_at title app_tag x y w h) =
    let (d', ipc', _) = open_window buf d ipc title app_tag x y w h in (d', ipc')
handle buf (d, ipc) (close win_id) = close_window buf d ipc win_id
handle buf (d, ipc) (close_app app_tag) = handle_close buf d ipc app_tag
handle buf (d, ipc) (minimize win_id) = minimize_window buf d ipc win_id
handle buf (d, ipc) (maximize win_id) = maximize_window buf d ipc win_id
handle buf (d, ipc) (focus win_id) = focus_window buf d ipc win_id
handle buf (d, ipc) round = tick buf d ipc

abbrev pub handle_all : (ℕ → ℕ) → DwmProxy × Ipc → List Command → DwmProxy × Ipc
handle_all buf s [] = s
handle_all buf s (c ∷ cs) = handle_all buf (handle buf s c) cs

handle-IsCounted :
    (buf : ℕ → ℕ) (d : DwmProxy) (ipc : Ipc) (c : Command)
    → IsCounted d
    → IsCounted (handle buf (d, ipc) c).0
unfolding handle_launch handle_close minimize_window maximize_window focus_window tick
handle-IsCounted buf d ipc (launch app_tag) v =
    open_window-IsCounted buf d ipc app_tag app_tag 80 40 900 600 v
handle-IsCounted buf d ipc (open_at title app_tag x y w h) v =
    open_window-IsCounted buf d ipc title app_tag x y w h v
handle-IsCounted buf d ipc (close win_id) v = close_window-IsCounted buf d ipc win_id v
handle-IsCounted buf d ipc (close_app app_tag) v =
    elim (Option-cases (find_first (has_tag app_tag) d.windows)) [
      | inl e ↦ rw (handle_close, e) v
      | inr ((i, w), e) ↦ rw (handle_close, e) (close_window-IsCounted buf d ipc w.id v)
    ]
handle-IsCounted buf d ipc (minimize win_id) v =
    map-IsCounted d (minimized win_id) (λ w. ground arith) v
handle-IsCounted buf d ipc (maximize win_id) v =
    map-IsCounted d (maximized win_id) (λ w. ground arith) v
handle-IsCounted buf d ipc (focus win_id) v = map-IsCounted d (focused win_id) (λ w. refl) v
handle-IsCounted buf d ipc round v = record { counted = v.counted; few = v.few }

-- After any commands, `g_window_count` is the number of open windows and at most 32, if it was before.
pub handle_all-IsCounted :
    (buf : ℕ → ℕ) (cs : List Command) (d : DwmProxy) (ipc : Ipc)
    → IsCounted d
    → IsCounted (handle_all buf (d, ipc) cs).0
handle_all-IsCounted buf [] d ipc v = v
handle_all-IsCounted buf (c ∷ cs) d ipc v =
    let (d', ipc') = handle buf (d, ipc) c in
    handle_all-IsCounted buf cs d' ipc' (handle-IsCounted buf d ipc c v)
