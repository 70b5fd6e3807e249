-- ===== src/Desktop/Windows/Focus/Click.antt =====
-- Where the clicks and the keys of kernel/gui/compositor.c go after `window_focus`, and what
-- `window_maximize` restores.
use operating_system_sctrach.Common.{
  ℕ, zero, suc, ◌+◌, ◌<◌, ◌≡◌, ◌≢◌, refl, sym, ap, subst, ◌∙◌, List, [], ◌∷◌, Option, none, some,
  Bool, true, false, not, ◌&&◌, ltb, if◌then◌else◌, modify, get_elem?, find_first, skip, lt→ltb,
  get_elem?-modify_self, Bool-cases, inl, inr, arith,
}
use operating_system_sctrach.Common.Int.{ℤ}
use operating_system_sctrach.Desktop.Windows.{
  Window, Compositor, is_used, max_z, focus_windows, focus, contains, above, topmost, clicked,
  get_focused, slot_of, toggle_maximized, maximize,
}
use operating_system_sctrach.Desktop.Windows.Focus.{
  raised, focus_windows_self, focus_windows-other, some_injective,
}

contains-used : (w : Window) (x y : ℤ) → contains w x y ≡ true → is_used w ≡ true
unfolding contains
contains-used w x y h = ground arith

-- The scan keeps its choice over windows that lie lower.
topmost-keep :
    (ws : List Window) (i k top : ℕ) (x y : ℤ)
    → ((j : ℕ) (v : Window) → get_elem? ws j ≡ some v → contains v x y ≡ true → v.z_order < top)
    → topmost ws i (some (k, top)) x y ≡ some (k, top)
unfolding topmost
topmost-keep [] i k top x y low = refl
topmost-keep (w ∷ ws) i k top x y low = elim (Bool-cases (contains w x y)) [
  | inl e ↦
      let under = low 0 w refl e in
      let shut : ltb top w.z_order ≡ false = ground arith in
      rw (topmost, e, shut) (topmost-keep ws (i + 1) k top x y (λ j v. low (suc j) v))
  | inr e ↦ rw (topmost, e) (topmost-keep ws (i + 1) k top x y (λ j v. low (suc j) v))
]

-- The scan takes the window at `k` if every other window at the point lies lower.
topmost-at :
    (ws : List Window) (k i : ℕ) (w : Window) (best : Option (ℕ × ℕ)) (x y : ℤ)
    → get_elem? ws k ≡ some w
    → contains w x y ≡ true
    → above best w.z_order ≡ true
    → ((j : ℕ) (v : Window)
        → k ≢ j
        → get_elem? ws j ≡ some v
        → contains v x y ≡ true
        → v.z_order < w.z_order)
    → topmost ws i best x y ≡ some (i + k, w.z_order)
unfolding topmost
topmost-at [] k i w best x y e c b low = absurd (ground arith)
topmost-at (v ∷ ws) zero i w best x y e c b low =
    let same = some_injective v w e in
    let c' : contains v x y ≡ true = ap (λ u. contains u x y) same ∙ c in
    let b' : above best v.z_order ≡ true = ap (λ (u : Window). above best u.z_order) same ∙ b in
    rw (topmost, c', b')
      (subst
        (λ (u : Window). topmost ws (i + 1) (some (i, v.z_order)) x y ≡ some (i + 0, u.z_order))
        same
        (topmost-keep ws (i + 1) i v.z_order x y (λ j u k h.
            subst (λ (t : Window). u.z_order < t.z_order) (sym same)
              (low (suc j) u (λ z. absurd (omega arith)) k h))
          ∙ ap (λ n. some (n, v.z_order)) (omega arith)))
topmost-at (v ∷ ws) (suc k) i w best x y e c b low =
    let next : Option (ℕ × ℕ) =
      if contains v x y
      then (if above best v.z_order then some (i, v.z_order) else best)
      else best in
    let b' : above next w.z_order ≡ true = elim (Bool-cases (contains v x y)) [
      | inl h ↦
          let under = low 0 v (λ z. absurd (omega arith)) refl h in
          elim (Bool-cases (above best v.z_order)) [
            | inl k ↦ rw (h, k) (lt→ltb v.z_order w.z_order under)
            | inr k ↦ rw (h, k) b
          ]
      | inr h ↦ rw h b
    ] in
    topmost-at ws k (i + 1) w next x y e c b' (λ j u ne. low (suc j) u (λ z. ne (omega (arith, z))))
    ∙ ap (λ n. some (n, w.z_order)) (omega arith)

skip-slot : (o : Option (ℕ × Window)) (k : ℕ) → slot_of o ≡ some k → slot_of (skip o) ≡ some (suc k)
unfolding skip
skip-slot none k e = absurd (ground arith)
skip-slot (some (i, w)) k e = ground arith

find_first-at :
    (p : Window → Bool) (ws : List Window) (k : ℕ) (w : Window)
    → get_elem? ws k ≡ some w
    → p w ≡ true
    → ((j : ℕ) (v : Window) → k ≢ j → get_elem? ws j ≡ some v → p v ≡ false)
    → slot_of (find_first p ws) ≡ some k
unfolding find_first
find_first-at p [] k w e h rest = absurd (ground arith)
find_first-at p (v ∷ ws) zero w e h rest =
    let same = some_injective v w e in rw (find_first, ap p same ∙ h) refl
find_first-at p (v ∷ ws) (suc k) w e h rest =
    let here = rest 0 v (λ z. absurd (omega arith)) refl in
    let tail = find_first-at p ws k w e h (λ j u ne. rest (suc j) u (λ z. ne (omega (arith, z)))) in
    rw (find_first, here) (skip-slot (find_first p ws) k tail)

-- The window with the focus, when it is open.
raised-used :
    (ws : List Window) (w : Window)
    → is_used w ≡ true
    → raised ws w ≡ record w { is_focused = true; is_minimized = false; z_order = max_z ws 0 + 1 }
raised-used ws w u =
    ap
      (λ (v : Window). record v {
        is_focused = true;
        is_minimized = false;
        z_order = max_z ws 0 + 1;
      })
      (ap (λ b. if b then record w { is_focused = false } else w) u)

raised-contains :
    (ws : List Window) (w : Window) (x y : ℤ)
    → is_used w ≡ true
    → contains (record w { is_minimized = false }) x y ≡ true
    → contains (raised ws w) x y ≡ true
unfolding contains
raised-contains ws w x y u h = subst (λ v. contains v x y ≡ true) (sym (raised-used ws w u)) h

-- Whether the keyboard goes to a window.
abbrev takes_keys : Window → Bool
takes_keys w = is_used w && w.is_focused && not w.is_minimized

raised-takes_keys :
    (ws : List Window) (w : Window) → is_used w ≡ true → takes_keys (raised ws w) ≡ true
raised-takes_keys ws w u = subst (λ v. takes_keys v ≡ true) (sym (raised-used ws w u)) (rw u refl)

other-takes_keys :
    (ws : List Window) (i j : ℕ) (v : Window)
    → i ≢ j
    → get_elem? (focus_windows ws i) j ≡ some v
    → takes_keys v ≡ false
other-takes_keys ws i j v ne k = elim (Bool-cases (is_used v)) [
  | inl u ↦ let off = (focus_windows-other ws i j v ne k u).1 in ground arith
  | inr u ↦ ground arith
]

-- Once an open window has the focus, the keyboard goes to it, and so does every click on it, however the
-- other windows lie.
pub focus-IsTop :
    (c : Compositor) (i : ℕ) (w : Window)
    → get_elem? c.windows i ≡ some w
    → is_used w ≡ true
    → let c' = focus c (some i) in
      (get_focused c' ≡ some i)
      × ((x y : ℤ)
          → contains (record w { is_minimized = false }) x y ≡ true
          → clicked c' x y ≡ some i)
unfolding focus get_focused
focus-IsTop c i w e u =
    let at = focus_windows_self c.windows i w e in
    (
      find_first-at takes_keys (focus_windows c.windows i) i (raised c.windows w) at
          (raised-takes_keys c.windows w u) (λ j v ne k. other-takes_keys c.windows i j v ne k),
      λ x y h.
          ap (λ (o : Option (ℕ × ℕ)). elim o [ some (k, _) ↦ some k | none ↦ none ])
            (topmost-at (focus_windows c.windows i) i 0 (raised c.windows w) none x y at
              (raised-contains c.windows w x y u h) refl
              (λ j v ne k l.
                ground
                  (arith, (focus_windows-other c.windows i j v ne k (contains-used v x y l)).0)))
          ∙ ap some (omega arith),
    )

toggle_maximized-used :
    (width height : ℕ) (w : Window)
    → is_used w ≡ true
    → is_used (toggle_maximized width height w) ≡ true
unfolding toggle_maximized
toggle_maximized-used width height w u = ground arith

-- The window as `window_maximize` leaves it, with some `z_order`.
abbrev maximized : Compositor → ℕ → Window → Window
maximized c z w = record (toggle_maximized c.fb_width c.fb_height w) {
  is_focused = true;
  is_minimized = false;
  z_order = z;
}

maximize-at :
    (c : Compositor) (i : ℕ) (w : Window)
    → get_elem? c.windows i ≡ some w
    → is_used w ≡ true
    → (z : ℕ) × (get_elem? (maximize c (some i)).windows i ≡ some (maximized c z w))
      × (get_focused (maximize c (some i)) ≡ some i)
unfolding maximize focus
maximize-at c i w e u =
    let f = toggle_maximized c.fb_width c.fb_height in
    let ws = modify c.windows i f in
    let e' = get_elem?-modify_self c.windows i w f e in
    let u' = toggle_maximized-used c.fb_width c.fb_height w u in
    (
      max_z ws 0 + 1,
      focus_windows_self ws i (f w) e' ∙ ap some (raised-used ws (f w) u'),
      (focus-IsTop (record c { windows = ws }) i (f w) e' u').0,
    )

-- Maximizing a window twice gives it its place and its size back, and leaves it in front.
pub maximize-maximize :
    (c : Compositor) (i : ℕ) (w : Window)
    → get_elem? c.windows i ≡ some w
    → is_used w ≡ true
    → w.is_maximized ≡ false
    → let c' = maximize (maximize c (some i)) (some i) in
      (v : Window) × (get_elem? c'.windows i ≡ some v)
      × (v.x ≡ w.x)
      × (v.y ≡ w.y)
      × (v.width ≡ w.width)
      × (v.height ≡ w.height)
      × (v.is_maximized ≡ false)
      × (get_focused c' ≡ some i)
unfolding toggle_maximized maximize focus
maximize-maximize c i w e u m =
    let (z1, e1, _) = maximize-at c i w e u in
    let c1 = maximize c (some i) in
    let u1 : is_used (maximized c z1 w) ≡ true = ground arith in
    let (z2, e2, top) = maximize-at c1 i (maximized c z1 w) e1 u1 in
    (
      maximized c1 z2 (maximized c z1 w),
      e2,
      rw m refl,
      rw m refl,
      rw m refl,
      rw m refl,
      rw m refl,
      top,
    )
