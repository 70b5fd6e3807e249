-- ===== src/Desktop/Windows/Count.antt =====
-- The number of open windows, and the focus, over runs of the window operations of
-- kernel/gui/compositor.c.
use operating_system_sctrach.Common.{
  ℕ, ◌+◌, ◌%◌, ◌^◌, ◌<◌, ◌≤◌, ◌≡◌, ◌≢◌, refl, ap, ◌∙◌, List, map, Option, none, some, Bool, true,
  false, not, ◌&&◌, ◌==◌, count, count-Hit_more, count-Hit_less, count-Hit_le, count-modify_same,
  count-modify_le, count-modify-suc, count-map_same, count-map_none, update_first,
  update_first_cases, modify, inl, inr, arith,
}
use operating_system_sctrach.Desktop.Windows.{
  Window, Compositor, Request, is_used, unfocused, max_z, focus_windows, focus, opened, create,
  destroy, toggle_maximized, init,
}

abbrev pub has_focus : Window → Bool
has_focus w = is_used w && w.is_focused

-- The counter is the number of windows, and at most one of them has the focus.
pub record IsCounted (c : Compositor) : Type 0 where
  pub counted : count is_used c.windows ≡ c.window_count
  pub one_focus : count has_focus c.windows ≤ 1
  pub next_id : 0 < c.next_win_id

focus_windows-used :
    (ws : List Window) (i : ℕ) → count is_used (focus_windows ws i) ≡ count is_used ws
unfolding focus_windows
focus_windows-used ws i =
    count-modify_same is_used (map unfocused ws) i
      (λ w. record w { is_focused = true; is_minimized = false; z_order = max_z ws 0 + 1 })
      (λ w. refl)
    ∙ count-map_same is_used ws unfocused (λ w. ground arith)

focus_windows-one : (ws : List Window) (i : ℕ) → count has_focus (focus_windows ws i) ≤ 1
unfolding focus_windows
focus_windows-one ws i =
    let all = count-map_none has_focus ws unfocused (λ w. ground arith) in
    let step =
      count-modify-suc has_focus (map unfocused ws) i
        (λ w. record w { is_focused = true; is_minimized = false; z_order = max_z ws 0 + 1 }) in
    omega (arith, all, step)

-- Any change of the windows that keeps their number may precede a change of focus.
pub focus-IsCounted :
    (c : Compositor) (i : Option ℕ)
    → count is_used c.windows ≡ c.window_count
    → 0 < c.next_win_id
    → (i ≡ none → count has_focus c.windows ≤ 1)
    → IsCounted (focus c i)
unfolding focus
focus-IsCounted c none n h one = record { counted = n; one_focus = one refl; next_id = h }
focus-IsCounted c (some i) n h one = record {
  counted = focus_windows-used c.windows i ∙ n;
  one_focus = focus_windows-one c.windows i;
  next_id = h;
}

-- A change of one window that neither opens nor focuses it.
pub modify-IsCounted :
    (c : Compositor) (i : ℕ) (f : Window → Window)
    → ((w : Window) → is_used (f w) ≡ is_used w)
    → ((w : Window) → has_focus (f w) ≡ true → has_focus w ≡ true)
    → IsCounted c
    → IsCounted (record c { windows = modify c.windows i f })
modify-IsCounted c i f used one v = record {
  counted = count-modify_same is_used c.windows i f used ∙ v.counted;
  one_focus = omega (arith, count-modify_le has_focus c.windows i f one, v.one_focus);
  next_id = v.next_id;
}

opened-used : (r : Request) (id z : ℕ) (w : Window) → 0 < id → is_used (opened r id z w) ≡ true
unfolding opened
opened-used r id z w h = ground arith

pub create-IsCounted :
    (c : Compositor) (r : Request)
    → c.next_win_id + 1 < 2 ^ 32
    → IsCounted c
    → IsCounted (create c r).0
unfolding create
create-IsCounted c r h v =
    elim (update_first_cases (λ w. not (is_used w)) (opened r c.next_win_id c.window_count)
      c.windows) [
        | inl (_, e) ↦ rw (create, e) v
        | inr (i, y, ws, hit, e) ↦
            let old : is_used hit.at ≡ false = ground (arith, hit.passes) in
            let new = opened-used r c.next_win_id c.window_count hit.at v.next_id in
            rw (create, e)
              (focus-IsCounted
                (record c {
                  windows = ws;
                  next_win_id = (c.next_win_id + 1) % 2 ^ 32;
                  window_count = c.window_count + 1;
                })
                (some i) (count-Hit_more is_used hit old new ∙ ap (λ n. n + 1) v.counted)
                (omega arith) (λ n. absurd (ground arith)))
      ]

pub destroy-IsCounted :
    (c : Compositor) (win_id : ℕ) → win_id ≢ 0 → IsCounted c → IsCounted (destroy c win_id)
unfolding destroy
destroy-IsCounted c win_id h v =
    elim (update_first_cases (λ (w : Window). w.id == win_id)
      (λ w. record w { id = 0; is_visible = false }) c.windows) [
        | inl (_, e) ↦ rw (destroy, e) v
        | inr (i, y, ws, hit, e) ↦
            let used : is_used hit.at ≡ true = ground (arith, hit.passes) in
            let less = count-Hit_less is_used hit used refl in
            rw (destroy, e)
              (record {
                counted = omega (arith, less, v.counted);
                one_focus = omega (arith, count-Hit_le has_focus hit refl, v.one_focus);
                next_id = v.next_id;
              })
      ]

pub toggle_maximized-used :
    (width height : ℕ) (w : Window) → is_used (toggle_maximized width height w) ≡ is_used w
unfolding toggle_maximized
toggle_maximized-used width height w = ground arith

pub toggle_maximized-focus :
    (width height : ℕ) (w : Window) → has_focus (toggle_maximized width height w) ≡ has_focus w
unfolding toggle_maximized
toggle_maximized-focus width height w = ground arith

pub init-IsCounted :
    (c : Compositor) (width height : ℕ) → 0 < c.next_win_id → IsCounted (init c width height)
unfolding init
init-IsCounted c width height h = record {
  counted = count-map_none is_used c.windows (λ (w : Window). record w { id = 0 }) (λ w. refl);
  one_focus =
      omega (
        arith,
        count-map_none has_focus c.windows (λ (w : Window). record w { id = 0 }) (λ w. refl),
      );
  next_id = h;
}

pub create-next_id : (c : Compositor) (r : Request) → (create c r).0.next_win_id ≤ c.next_win_id + 1
unfolding create focus
create-next_id c r =
    elim (update_first (λ w. not (is_used w)) (opened r c.next_win_id c.window_count) c.windows)
      as (λ o.
        (elim o as (λ _. Compositor × Option ℕ) [
          | none ↦ (c, none)
          | some (i, _, ws) ↦ (
            focus
                (record c {
                  windows = ws;
                  next_win_id = (c.next_win_id + 1) % 2 ^ 32;
                  window_count = c.window_count + 1;
                })
                (some i),
            some i,
          )
        ]).0.next_win_id
        ≤ c.next_win_id + 1) [ none ↦ omega arith | some (i, _, ws) ↦ omega arith ]

pub destroy-next_id : (c : Compositor) (win_id : ℕ) → (destroy c win_id).next_win_id ≡ c.next_win_id
unfolding destroy
destroy-next_id c win_id =
    elim (update_first_cases (λ (w : Window). w.id == win_id)
      (λ w. record w { id = 0; is_visible = false }) c.windows) [
        | inl (_, e) ↦ rw (destroy, e) refl
        | inr (i, y, ws, hit, e) ↦ rw (destroy, e) refl
      ]
