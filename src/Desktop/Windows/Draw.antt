-- ===== src/Desktop/Windows/Draw.antt =====
-- The order in which `compositor_render` of kernel/gui/compositor.c draws the windows.
use operating_system_sctrach.Common.{
  ℕ, zero, suc, ◌+◌, ◌≤◌, ◌≡◌, ◌≢◌, refl, sym, subst, List, [], ◌∷◌, ◌++◌, some, true, false, ◌&&◌,
  ◌==◌, if◌then◌else◌, get_elem?, All, All-append, All-map, Bool-cases, inl, inr, arith,
}
use operating_system_sctrach.Desktop.Windows.{Window, Compositor, is_used, focus}
use operating_system_sctrach.Desktop.Windows.Focus.{
  raised, focus_windows_self, some_injective, max_z-high,
}

-- The slots, from slot `i` on, that the inner loop draws at height `z`.
unfoldable pub layer : List Window → ℕ → ℕ → List ℕ
layer [] i z = []
layer (w ∷ ws) i z =
    let rest = layer ws (i + 1) z in if is_used w && (w.z_order == z) then i ∷ rest else rest

-- The outer loop over `n` heights from `z` on.
unfoldable pub draw_from : List Window → ℕ → ℕ → List ℕ
draw_from ws zero z = []
draw_from ws (suc n) z = layer ws 0 z ++ draw_from ws n (z + 1)

unfoldable pub render_order : Compositor → List ℕ
render_order c = draw_from c.windows (c.window_count + 16) 0

layer-from : (ws : List Window) (i z : ℕ) → All (λ j. i ≤ j) (layer ws i z)
unfolding layer
layer-from [] i z = tt
layer-from (w ∷ ws) i z =
    let rest =
      All-map (λ j. i + 1 ≤ j) (λ j. i ≤ j) (layer ws (i + 1) z) (λ j h. omega (arith, h))
        (layer-from ws (i + 1) z) in
    elim (Bool-cases (is_used w && (w.z_order == z))) [
      | inl e ↦ rw (layer, e) (omega arith, rest)
      | inr e ↦ rw (layer, e) rest
    ]

-- A window is not drawn at a height that is not its own.
layer-avoids :
    (ws : List Window) (i z k : ℕ) (w : Window)
    → get_elem? ws k ≡ some w
    → w.z_order ≢ z
    → All (λ j. j ≢ i + k) (layer ws i z)
unfolding layer
layer-avoids [] i z k w e ne = tt
layer-avoids (v ∷ ws) i z zero w e ne =
    let same = some_injective v w e in
    let skip : (is_used v && (v.z_order == z)) ≡ false =
      subst (λ (u : Window). (is_used u && (u.z_order == z)) ≡ false) (sym same) (ground arith) in
    rw (layer, skip)
      (All-map (λ j. i + 1 ≤ j) (λ j. j ≢ i + 0) (layer ws (i + 1) z)
        (λ j h k. absurd (omega (arith, h, k))) (layer-from ws (i + 1) z))
layer-avoids (v ∷ ws) i z (suc k) w e ne =
    let rest =
      All-map (λ j. j ≢ i + 1 + k) (λ j. j ≢ i + suc k) (layer ws (i + 1) z)
        (λ j h l. h (omega (arith, l))) (layer-avoids ws (i + 1) z k w e ne) in
    elim (Bool-cases (is_used v && (v.z_order == z))) [
      | inl h ↦ rw (layer, h) ((λ l. absurd (omega (arith, l))), rest)
      | inr h ↦ rw (layer, h) rest
    ]

draw_from-avoids :
    (n : ℕ) (ws : List Window) (z k : ℕ) (w : Window)
    → get_elem? ws k ≡ some w
    → z + n ≤ w.z_order
    → All (λ j. j ≢ k) (draw_from ws n z)
unfolding draw_from
draw_from-avoids zero ws z k w e h = tt
draw_from-avoids (suc n) ws z k w e h =
    All-append (λ j. j ≢ k) (layer ws 0 z) (draw_from ws n (z + 1))
      (All-map (λ j. j ≢ 0 + k) (λ j. j ≢ k) (layer ws 0 z) (λ j f l. f (omega (arith, l)))
        (layer-avoids ws 0 z k w e (λ l. absurd (omega (arith, l)))))
      (draw_from-avoids n ws (z + 1) k w e (omega arith))

-- `window_focus` called `n` times on the same window.
abbrev pub focus_times : ℕ → Compositor → ℕ → Compositor
focus_times zero c i = c
focus_times (suc n) c i = focus_times n (focus c (some i)) i

-- Each call raises the window.
focus_times-z :
    (n : ℕ) (c : Compositor) (i : ℕ) (w : Window)
    → get_elem? c.windows i ≡ some w
    → is_used w ≡ true
    → (v : Window) × (get_elem? (focus_times n c i).windows i ≡ some v)
      × (w.z_order + n ≤ v.z_order)
      × ((focus_times n c i).window_count ≡ c.window_count)
unfolding focus
focus_times-z zero c i w e u = (w, e, omega arith, refl)
focus_times-z (suc n) c i w e u =
    let low = max_z-high c.windows 0 i w e u in
    let (v, at, z, same) =
      focus_times-z n (focus c (some i)) i (raised c.windows w) (focus_windows_self c.windows i w e)
        (raised-is_used c.windows w u) in
    (v, at, omega (arith, z, low), same)
  where
    raised-is_used :
        (ws : List Window) (x : Window) → is_used x ≡ true → is_used (raised ws x) ≡ true
    raised-is_used ws x h = ground arith

-- A window that gets the focus `g_window_count` + 16 times is no longer drawn: every change of focus
-- raises `z_order`, and `compositor_render` draws only the heights below `g_window_count` + 16.
pub focus_times-undrawn :
    (n : ℕ) (c : Compositor) (i : ℕ) (w : Window)
    → get_elem? c.windows i ≡ some w
    → is_used w ≡ true
    → c.window_count + 16 ≤ n
    → All (λ j. j ≢ i) (render_order (focus_times n c i))
unfolding render_order
focus_times-undrawn n c i w e u h =
    let (v, at, z, same) = focus_times-z n c i w e u in
    draw_from-avoids ((focus_times n c i).window_count + 16) (focus_times n c i).windows 0 i v at
      (omega (arith, z, same, h))
