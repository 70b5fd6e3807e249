-- ===== src/Input.antt =====
-- The PS/2 mouse and keyboard of kernel/drivers/ps2.h and ps2.c. A poll is given what it reads from
-- the status port and from the data port; the handshake of `ps2_init` with the controller is left
-- out.
pub mod Mouse
mod Tests
use operating_system_sctrach.Common.{
  ℕ, ◌+◌, ◌-◌, ◌/◌, ◌%◌, Bool, true, false, not, List, [], ◌∷◌, Option, none, some, ltb, ◌==◌,
  if◌then◌else◌, codes, get_or, ◌++◌, replicate, ◌||◌,
}
use operating_system_sctrach.Common.Int.{
  ℤ, pos, negsuc, pos_part, neg_part, sub_ℕ, ◌+ℤ◌, ◌-ℤ◌, ltb_ℤ, signed32,
}

pub record MouseState : Type 0 where
  pub x : ℤ
  pub y : ℤ
  pub dx : ℤ
  pub dy : ℤ
  pub left_button : ℕ
  pub right_button : ℕ
  pub middle_button : ℕ
  pub updated : ℕ

pub record KeyEvent : Type 0 where
  pub ascii : ℕ
  pub scancode : ℕ
  pub is_pressed : ℕ
  pub is_shift : ℕ
  pub is_ctrl : ℕ
  pub is_alt : ℕ

pub record Ps2 : Type 0 where
  pub screen_w : ℤ
  pub screen_h : ℤ
  pub mouse : MouseState
  pub cycle : ℕ
  pub packet0 : ℕ
  pub packet1 : ℕ
  pub shift_state : ℕ
  pub ctrl_state : ℕ
  pub alt_state : ℕ

-- Bit `2 ^ k` of a byte is given by its weight.
abbrev pub bit : ℕ → ℕ → ℕ
bit weight b = b / weight % 2

-- The byte is in the buffer, and comes from the mouse.
abbrev pub has_output : ℕ → Bool
has_output status = bit 1 status == 1

abbrev pub is_mouse : ℕ → Bool
is_mouse status = bit 0x20 status == 1

unfoldable pub set_screen_bounds : Ps2 → ℕ → ℕ → Ps2
set_screen_bounds s w h = record s {
  screen_w = if ltb 0 w then signed32 w else s.screen_w;
  screen_h = if ltb 0 h then signed32 h else s.screen_h;
}

-- `n / 2` for an `int`, rounded towards 0.
abbrev pub half : ℤ → ℤ
half (pos n) = pos (n / 2)
half (negsuc n) = sub_ℕ 0 ((n + 1) / 2)

unfoldable pub init : Ps2 → ℕ → ℕ → Ps2
unfolding set_screen_bounds
init s w h =
    let t = set_screen_bounds s w h in
    record t {
      mouse = record {
        x = half t.screen_w;
        y = half t.screen_h;
        dx = pos 0;
        dy = pos 0;
        left_button = 0;
        right_button = 0;
        middle_button = 0;
        updated = 0;
      };
      cycle = 0;
    }

-- A movement byte with its sign bit.
abbrev pub movement : ℕ → ℕ → ℤ
movement sign byte = if sign == 1 then sub_ℕ byte 256 else pos byte

-- `if (v < 0) v = 0; if (v >= limit) v = limit - 1;`
unfoldable pub clamp : ℤ → ℤ → ℤ
clamp limit v =
    let low = if ltb_ℤ v (pos 0) then pos 0 else v in
    if ltb_ℤ low limit then low else limit -ℤ pos 1

-- The part of `ps2_poll_mouse` that ends a packet with the byte `b`.
unfoldable pub finish_packet : Ps2 → ℕ → Ps2
finish_packet s b =
    let flags = s.packet0 in
    let dx = movement (bit 0x10 flags) s.packet1 in
    let dy = movement (bit 0x20 flags) b in
    record s {
      cycle = 0;
      mouse = record {
        x = clamp s.screen_w (s.mouse.x +ℤ dx);
        y = clamp s.screen_h (s.mouse.y -ℤ dy);
        dx = dx;
        dy = dy;
        left_button = bit 1 flags;
        right_button = bit 2 flags;
        middle_button = bit 4 flags;
        updated = 1;
      };
    }

-- `ps2_poll_mouse`; the result is what it returns.
unfoldable pub poll_mouse : Ps2 → ℕ → ℕ → Ps2 × ℕ
poll_mouse s status b =
    if not (has_output status)
    then (s, 0)
    else if not (is_mouse status)
    then (s, 0)
    else if s.cycle == 0
    then (if bit 8 b == 0 then (s, 0) else (record s { packet0 = b; cycle = 1 }, 0))
    else if s.cycle == 1
    then (record s { packet1 = b; cycle = 2 }, 0)
    else if s.cycle == 2
    then (finish_packet s b, 1)
    else (s, 0)

-- The two scancode tables; what follows the last entry is 0.
abbrev pub lower_table : List ℕ
lower_table =
    0 ∷ 27 ∷ codes "1234567890-="
    ++ (8 ∷ 9 ∷ codes "qwertyuiop[]")
    ++ (10 ∷ 0 ∷ codes "asdfghjkl;'`")
    ++ (0 ∷ codes "\\zxcvbnm,./")
    ++ (0 ∷ codes "*")
    ++ (0 ∷ codes " ")

abbrev pub upper_table : List ℕ
upper_table =
    0 ∷ 27 ∷ codes "!@#$%^&*()_+"
    ++ (8 ∷ 9 ∷ codes "QWERTYUIOP{}")
    ++ (10 ∷ 0 ∷ codes "ASDFGHJKL:\"~")
    ++ (0 ∷ codes "|ZXCVBNM<>?")
    ++ (0 ∷ codes "*")
    ++ (0 ∷ codes " ")

-- The modifier state after a key.
unfoldable pub modifiers : Ps2 → ℕ → ℕ → Ps2
modifiers s code pressed =
    if code == 0x2A || code == 0x36
    then record s { shift_state = pressed }
    else if code == 0x1D
    then record s { ctrl_state = pressed }
    else if code == 0x38
    then record s { alt_state = pressed }
    else s

abbrev pub event_of : Ps2 → ℕ → ℕ → ℕ → KeyEvent
event_of s scancode code pressed = record {
  ascii = if s.shift_state == 0 then get_or lower_table code 0 else get_or upper_table code 0;
  scancode = scancode;
  is_pressed = pressed;
  is_shift = s.shift_state;
  is_ctrl = s.ctrl_state;
  is_alt = s.alt_state;
}

-- `ps2_poll_keyboard` with an event to fill; the event stands for the result 1.
unfoldable pub poll_keyboard : Ps2 → ℕ → ℕ → Ps2 × Option KeyEvent
unfolding modifiers
poll_keyboard s status scancode =
    let pressed = 1 - bit 0x80 scancode in
    let code = scancode % 128 in
    let t = modifiers s code pressed in
    if not (has_output status)
    then (s, none)
    else if is_mouse status
    then (s, none)
    else (t, some (event_of t scancode code pressed))
