-- ===== src/Input/Mouse.antt =====
-- Where polls of kernel/drivers/ps2.c leave the mouse pointer.
use operating_system_sctrach.Common.{ℕ, ◌^◌, ◌<◌, ◌≡◌, sym, subst, List, [], ◌∷◌, arith}
use operating_system_sctrach.Common.Int.{ℤ, pos, negsuc, pos_part, neg_part, ◌+ℤ◌, ◌-ℤ◌}
use operating_system_sctrach.Input.{
  Ps2, init, set_screen_bounds, poll_mouse, finish_packet, clamp, bit, movement,
}

-- The integer is one of the columns (or rows) 0 to `size - 1`.
abbrev pub IsWithin : ℕ → ℤ → Type 0
IsWithin size v = (neg_part v ≡ 0) × (pos_part v < size)

-- A screen of `w` by `h` with the pointer on it.
pub record IsOnScreen (w h : ℕ) (s : Ps2) : Type 0 where
  pub wide : s.screen_w ≡ pos w
  pub high : s.screen_h ≡ pos h
  pub column : IsWithin w s.mouse.x
  pub row : IsWithin h s.mouse.y
  pub synced : s.cycle < 3

clamp-IsWithin : (size : ℕ) (v : ℤ) → 0 < size → IsWithin size (clamp (pos size) v)
unfolding clamp ◌-ℤ◌
clamp-IsWithin size (pos n) h = ground arith
clamp-IsWithin size (negsuc n) h = ground arith

init-IsOnScreen :
    (s : Ps2) (w h : ℕ) → 0 < w → w < 2 ^ 31 → 0 < h → h < 2 ^ 31 → IsOnScreen w h (init s w h)
unfolding init set_screen_bounds
init-IsOnScreen s w h w1 w2 h1 h2 = ground arith

finish_packet-IsOnScreen :
    (w h : ℕ) (s : Ps2) (b : ℕ)
    → 0 < w
    → 0 < h
    → IsOnScreen w h s
    → IsOnScreen w h (finish_packet s b)
unfolding finish_packet
finish_packet-IsOnScreen w h s b w1 h1 v =
    let x = s.mouse.x +ℤ movement (bit 0x10 s.packet0) s.packet1 in
    let y = s.mouse.y -ℤ movement (bit 0x20 s.packet0) b in
    record {
      wide = v.wide;
      high = v.high;
      column = subst (λ z. IsWithin w (clamp z x)) (sym v.wide) (clamp-IsWithin w x w1);
      row = subst (λ z. IsWithin h (clamp z y)) (sym v.high) (clamp-IsWithin h y h1);
      synced = omega arith;
    }

poll_mouse-IsOnScreen :
    (w h : ℕ) (s : Ps2) (status b : ℕ)
    → 0 < w
    → 0 < h
    → IsOnScreen w h s
    → IsOnScreen w h (poll_mouse s status b).0
unfolding poll_mouse
poll_mouse-IsOnScreen w h s status b w1 h1 v =
    let done = finish_packet-IsOnScreen w h s b w1 h1 v in ground arith

-- The state after polls that read these pairs of a status and a byte.
unfoldable pub poll_all : Ps2 → List (ℕ × ℕ) → Ps2
poll_all s [] = s
poll_all s ((status, b) ∷ rest) = poll_all (poll_mouse s status b).0 rest

poll_all-IsOnScreen :
    (w h : ℕ) (s : Ps2) (reads : List (ℕ × ℕ))
    → 0 < w
    → 0 < h
    → IsOnScreen w h s
    → IsOnScreen w h (poll_all s reads)
unfolding poll_all
poll_all-IsOnScreen w h s [] w1 h1 v = v
poll_all-IsOnScreen w h s ((status, b) ∷ rest) w1 h1 v =
    poll_all-IsOnScreen w h (poll_mouse s status b).0 rest w1 h1
      (poll_mouse-IsOnScreen w h s status b w1 h1 v)

-- On a screen of 1 to 2 ^ 31 - 1 columns and rows, the pointer stays on it and the packet state stays
-- in step after any sequence of polls, whatever they read.
pub poll_all-init-IsOnScreen :
    (s : Ps2) (w h : ℕ) (reads : List (ℕ × ℕ))
    → 0 < w
    → w < 2 ^ 31
    → 0 < h
    → h < 2 ^ 31
    → IsOnScreen w h (poll_all (init s w h) reads)
poll_all-init-IsOnScreen s w h reads w1 w2 h1 h2 =
    poll_all-IsOnScreen w h (init s w h) reads w1 h1 (init-IsOnScreen s w h w1 w2 h1 h2)
