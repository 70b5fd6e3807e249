-- ===== src/Desktop/Windows/Focus.antt =====
-- How `window_focus` of kernel/gui/compositor.c raises a window over the others.
pub mod Click
use operating_system_sctrach.Common.{
  ℕ, zero, suc, ◌+◌, ◌-◌, ◌<◌, ◌≤◌, ◌≡◌, ◌≢◌, refl, sym, ap, subst, ◌∙◌, List, [], ◌∷◌, map, Option,
  none, some, Bool, true, false, not, ◌&&◌, ltb, ◌==◌, if◌then◌else◌, modify, get_elem?,
  get_elem?-modify_self, get_elem?-modify_ne, get_elem?-map, get_elem?-map_from, Bool-cases, inl,
  inr, arith,
}
use operating_system_sctrach.Desktop.Windows.{
  Window, Compositor, is_used, unfocused, max_z, focus_windows, focus,
}

abbrev next_best : Window → ℕ → ℕ
next_best w best = if is_used w then (if ltb best w.z_order then w.z_order else best) else best

max_z-low : (ws : List Window) (best : ℕ) → best ≤ max_z ws best
unfolding max_z
max_z-low [] best = omega arith
max_z-low (w ∷ ws) best =
    let up : best ≤ next_best w best = ground arith in
    omega (arith, max_z-low ws (next_best w best), up)

pub some_injective : (a b : Window) → some a ≡ some b → a ≡ b
some_injective a b k = cc

-- The maximum is over every slot in use.
pub max_z-high :
    (ws : List Window) (best j : ℕ) (v : Window)
    → get_elem? ws j ≡ some v
    → is_used v ≡ true
    → v.z_order ≤ max_z ws best
unfolding max_z
max_z-high [] best j v e u = absurd (ground arith)
max_z-high (w ∷ ws) best zero v e u =
    let same = some_injective w v e in
    let used : is_used w ≡ true = ap is_used same ∙ u in
    let here : w.z_order ≤ next_best w best = rw used (ground arith) in
    subst (λ (x : Window). x.z_order ≤ max_z ws (next_best w best)) same
      (omega (arith, max_z-low ws (next_best w best), here))
max_z-high (w ∷ ws) best (suc j) v e u = max_z-high ws (next_best w best) j v e u

-- The window with the focus, as `window_focus` leaves it.
abbrev pub raised : List Window → Window → Window
raised ws w = record (unfocused w) {
  is_focused = true;
  is_minimized = false;
  z_order = max_z ws 0 + 1;
}

pub focus_windows_self :
    (ws : List Window) (i : ℕ) (w : Window)
    → get_elem? ws i ≡ some w
    → get_elem? (focus_windows ws i) i ≡ some (raised ws w)
unfolding focus_windows
focus_windows_self ws i w e =
    get_elem?-modify_self (map unfocused ws) i (unfocused w)
      (λ v. record v { is_focused = true; is_minimized = false; z_order = max_z ws 0 + 1 })
      (get_elem?-map ws i w unfocused e)

-- Another window that is open lies under the one with the focus and has lost the focus.
pub focus_windows-other :
    (ws : List Window) (i j : ℕ) (v : Window)
    → i ≢ j
    → get_elem? (focus_windows ws i) j ≡ some v
    → is_used v ≡ true
    → (v.z_order < max_z ws 0 + 1) × (v.is_focused ≡ false)
unfolding focus_windows
focus_windows-other ws i j v ne e u =
    let (x, at, same) = get_elem?-map_from ws j v unfocused (
      sym (
        get_elem?-modify_ne (map unfocused ws) i j
          (λ w. record w { is_focused = true; is_minimized = false; z_order = max_z ws 0 + 1 }) ne)
      ∙ e) in
    let used : is_used x ≡ true = sym (unfocused-used x) ∙ ap is_used same ∙ u in
    let low = max_z-high ws 0 j x at used in
    subst (λ (y : Window). (y.z_order < max_z ws 0 + 1) × (y.is_focused ≡ false)) same
      (rw used (omega (arith, low), refl))
  where
    unfocused-used : (w : Window) → is_used (unfocused w) ≡ is_used w
    unfocused-used w = ground arith
