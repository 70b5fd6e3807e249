-- ===== src/Desktop/Windows/Run.antt =====
-- Runs of the window operations of kernel/gui/compositor.c.
use operating_system_sctrach.Common.{
  ℕ, ◌+◌, ◌^◌, ◌<◌, ◌≤◌, ◌≡◌, ◌≢◌, refl, sym, ◌∙◌, List, [], ◌∷◌, Option, none, some, true, false,
  arith, length, modify, count, if◌then◌else◌,
}
use operating_system_sctrach.Common.Int.{ℤ}
use operating_system_sctrach.Desktop.Windows
use operating_system_sctrach.Desktop.Windows.{
  Window, Compositor, Request, toggle_maximized, is_used,
}
use operating_system_sctrach.Desktop.Windows.Count.{
  IsCounted, has_focus, focus-IsCounted, modify-IsCounted, create-IsCounted, destroy-IsCounted,
  toggle_maximized-used, toggle_maximized-focus, init-IsCounted, create-next_id, destroy-next_id,
}

-- The window operations, as a program calls them.
pub data Operation : Type 0 where
  create : Request → Operation
  destroy : (win_id : ℕ) → win_id ≢ 0 → Operation
  focus : Option ℕ → Operation
  set_callbacks : Option ℕ → ℕ → ℕ → Operation
  maximize : Option ℕ → Operation
  minimize : Option ℕ → Operation
  restore : Option ℕ → Operation
  move : Option ℕ → ℤ → ℤ → Operation

abbrev pub perform : Compositor → Operation → Compositor
perform c (create r) = (Windows.create c r).0
perform c (destroy win_id _) = Windows.destroy c win_id
perform c (focus i) = Windows.focus c i
perform c (set_callbacks i key mouse) = Windows.set_callbacks c i key mouse
perform c (maximize i) = Windows.maximize c i
perform c (minimize i) = Windows.minimize c i
perform c (restore i) = Windows.restore c i
perform c (move i x y) = Windows.move c i x y

abbrev pub perform_all : Compositor → List Operation → Compositor
perform_all c [] = c
perform_all c (o ∷ os) = perform_all (perform c o) os

-- The identifier of the next window goes up by at most 1.
perform-IsCounted :
    (c : Compositor) (o : Operation)
    → c.next_win_id + 1 < 2 ^ 32
    → IsCounted c
    → IsCounted (perform c o)
unfolding Windows.maximize Windows.minimize Windows.restore Windows.move Windows.set_callbacks
perform-IsCounted c (create r) h v = create-IsCounted c r h v
perform-IsCounted c (destroy win_id ne) h v = destroy-IsCounted c win_id ne v
perform-IsCounted c (focus i) h v = focus-IsCounted c i v.counted v.next_id (λ _. v.one_focus)
perform-IsCounted c (set_callbacks none key mouse) h v = v
perform-IsCounted c (set_callbacks (some i) key mouse) h v =
    modify-IsCounted c i (λ w. record w { on_key = key; on_mouse = mouse }) (λ w. refl) (λ w e. e) v
perform-IsCounted c (maximize none) h v = v
perform-IsCounted c (maximize (some i)) h v =
    let c' = record c { windows = modify c.windows i (toggle_maximized c.fb_width c.fb_height) } in
    let v' =
      modify-IsCounted c i (toggle_maximized c.fb_width c.fb_height)
        (toggle_maximized-used c.fb_width c.fb_height)
        (λ w e. sym (toggle_maximized-focus c.fb_width c.fb_height w) ∙ e) v in
    focus-IsCounted c' (some i) v'.counted v'.next_id (λ _. v'.one_focus)
perform-IsCounted c (minimize none) h v = v
perform-IsCounted c (minimize (some i)) h v =
    modify-IsCounted c i (λ w. record w { is_minimized = true; is_focused = false }) (λ w. refl)
      (λ w e. absurd (ground arith)) v
perform-IsCounted c (restore none) h v = v
perform-IsCounted c (restore (some i)) h v =
    let f : Window → Window = λ w. record w { is_minimized = false } in
    let v' = modify-IsCounted c i f (λ w. refl) (λ w e. e) v in
    focus-IsCounted (record c { windows = modify c.windows i f }) (some i) v'.counted v'.next_id
      (λ _. v'.one_focus)
perform-IsCounted c (move none x y) h v = v
perform-IsCounted c (move (some i) x y) h v =
    modify-IsCounted c i (λ (w : Window). if w.is_maximized then w else record w { x = x; y = y })
      (λ w. ground arith) (λ w e. ground arith) v

perform-next_id : (c : Compositor) (o : Operation) → (perform c o).next_win_id ≤ c.next_win_id + 1
unfolding Windows.focus Windows.maximize Windows.minimize Windows.restore Windows.move
    Windows.set_callbacks
perform-next_id c (create r) = create-next_id c r
perform-next_id c (destroy win_id ne) = omega (arith, destroy-next_id c win_id)
perform-next_id c (focus none) = omega arith
perform-next_id c (focus (some i)) = omega arith
perform-next_id c (set_callbacks none key mouse) = omega arith
perform-next_id c (set_callbacks (some i) key mouse) = omega arith
perform-next_id c (maximize none) = omega arith
perform-next_id c (maximize (some i)) = omega arith
perform-next_id c (minimize none) = omega arith
perform-next_id c (minimize (some i)) = omega arith
perform-next_id c (restore none) = omega arith
perform-next_id c (restore (some i)) = omega arith
perform-next_id c (move none x y) = omega arith
perform-next_id c (move (some i) x y) = omega arith

perform_all-IsCounted :
    (os : List Operation) (c : Compositor)
    → c.next_win_id + length os < 2 ^ 32
    → IsCounted c
    → IsCounted (perform_all c os)
perform_all-IsCounted [] c h v = v
perform_all-IsCounted (o ∷ os) c h v =
    perform_all-IsCounted os (perform c o) (omega (arith, perform-next_id c o))
      (perform-IsCounted c o (omega arith) v)

-- After any run of the window operations from `compositor_init` on, `g_window_count` is the number of
-- open windows and at most one of them has the focus, if the identifiers do not wrap around and
-- `window_destroy` is never called with the identifier 0 of an empty slot.
pub perform_all-init-IsCounted :
    (c : Compositor) (width height : ℕ) (os : List Operation)
    → 0 < c.next_win_id
    → c.next_win_id + length os < 2 ^ 32
    → let c' = perform_all (Windows.init c width height) os in
      (count is_used c'.windows ≡ c'.window_count) × (count has_focus c'.windows ≤ 1)
unfolding Windows.init
perform_all-init-IsCounted c width height os h k =
    let v =
      perform_all-IsCounted os (Windows.init c width height) k (init-IsCounted c width height h) in
    (v.counted, v.one_focus)
