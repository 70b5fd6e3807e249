-- ===== src/GuiIpc.antt =====
-- The outbound message queue of kernel/gui/gui_ipc.h and gui_ipc.c: events are written as JSON text
-- into a buffer, queued in a ring of 64 messages and sent to the serial port by the tick. A C string
-- is the list of the bytes before its terminator; a `char` array is a function of an index. The
-- serial port (`uart_putc`) is the list of the bytes sent.
pub mod Text
pub mod Queue
pub mod Events
mod Tests
use operating_system_sctrach.Common.{
  ℕ, zero, suc, ◌+◌, ◌-◌, ◌%◌, ◌^◌, List, [], ◌∷◌, ◌++◌, Option, none, some, Bool, ltb, leb, ◌==◌,
  ◌&&◌, if◌then◌else◌, codes, length, set,
}
use Prim.Native.String.{String}
use operating_system_sctrach.Common.Memory.{write}
use operating_system_sctrach.Common.Decimal.{decimal}

abbrev pub max_msg_len : ℕ
max_msg_len = 512

abbrev pub max_handlers : ℕ
max_handlers = 16

pub data CmdType : Type 0 where
  launch close power query unknown : CmdType

pub record IpcMessage : Type 0 where
  pub msg : ℕ → ℕ
  pub len : ℕ

-- A handler is the number of a routine.
pub record Handler : Type 0 where
  pub type_of : CmdType
  pub routine : ℕ

pub record Ipc : Type 0 where
  pub ring : ℕ → IpcMessage
  pub ring_head : ℕ
  pub ring_tail : ℕ
  pub connected : ℕ
  pub msg_seq : ℕ
  pub handlers : List Handler
  pub sent : List ℕ

-- A buffer that is filled from its start, and the place of the next byte.
pub record Buffer : Type 0 where
  pub bytes : ℕ → ℕ
  pub off : ℕ

-- `dst[off++] = c`
unfoldable pub put : ℕ → Buffer → Buffer
put c b = record { bytes = write b.bytes b.off c; off = b.off + 1 }

-- `for (k = s; *k && off < limit; k++) dst[off++] = *k`
unfoldable pub put_text : ℕ → List ℕ → Buffer → Buffer
put_text limit [] b = b
put_text limit (c ∷ cs) b =
    let rest = put_text limit cs (put c b) in
    if ltb b.off limit then (if c == 0 then b else rest) else b

-- '"', ':' and ','
abbrev pub quote : ℕ
quote = 34

abbrev pub colon : ℕ
colon = 58

abbrev pub comma : ℕ
comma = 44

-- The text that `ipc_u32toa` makes.
unfoldable pub u32toa : ℕ → List ℕ
u32toa val = decimal 10 val

unfoldable pub append_str : ℕ → List ℕ → List ℕ → Buffer → Buffer
append_str max key val b = put quote (
    put_text (max - 2) val
      (put quote (put colon (put quote (put_text (max - 2) key (put quote b))))))

unfoldable pub append_int : ℕ → List ℕ → ℕ → Buffer → Buffer
append_int max key val b =
    put_text (max - 1) (u32toa val) (put colon (put quote (put_text (max - 2) key (put quote b))))

-- The next slot of the ring.
abbrev pub next_slot : ℕ → ℕ
next_slot i = (i + 1) % 64

abbrev pub copied : ℕ → ℕ
copied len = if ltb len (max_msg_len - 2) then len else max_msg_len - 2

-- The slot that `ipc_ring_push` writes: `memcpy` of the text over what the slot held, and its end.
abbrev pub filled : IpcMessage → (ℕ → ℕ) → ℕ → IpcMessage
filled old json len = record {
  msg =
      write (write (λ i. if ltb i (copied len) then json i else old.msg i) (copied len) 10)
        (copied len + 1) 0;
  len = copied len + 1;
}

unfoldable pub ring_push : Ipc → (ℕ → ℕ) → ℕ → Ipc
ring_push s json len = record s {
  ring_head = if next_slot s.ring_tail == s.ring_head then next_slot s.ring_head else s.ring_head;
  ring = write s.ring s.ring_tail (filled (s.ring s.ring_tail) json len);
  ring_tail = next_slot s.ring_tail;
}

-- `uart_puts` from index `i`, with fuel.
unfoldable pub uart_bytes : ℕ → (ℕ → ℕ) → ℕ → List ℕ
uart_bytes zero m i = []
uart_bytes (suc n) m i = let rest = uart_bytes n m (i + 1) in if m i == 0 then [] else m i ∷ rest

-- What `uart_puts` sends for the message in a slot.
abbrev pub line_of : IpcMessage → List ℕ
line_of m = uart_bytes max_msg_len m.msg 0

-- `ipc_ring_flush`, with fuel.
unfoldable pub ring_flush : ℕ → Ipc → Ipc
ring_flush zero s = s
ring_flush (suc n) s =
    let rest = ring_flush n (record s {
      sent = s.sent ++ line_of (s.ring s.ring_head);
      ring_head = next_slot s.ring_head;
    }) in
    if s.ring_head == s.ring_tail then s else rest

-- The line that `gui_ipc_init` sends.
abbrev pub init_line : List ℕ
init_line =
    codes
      "{\"type\":\"ipc\",\"action\":\"init\",\"version\":\"XenithraOS-3.0\",\"pipe\":\"XenithraGUI\"}\n"

unfoldable pub init : Ipc → Ipc
init s = record s {
  ring_head = 0;
  ring_tail = 0;
  connected = 1;
  msg_seq = 0;
  handlers = [];
  sent = s.sent ++ init_line;
}

unfoldable pub tick : Ipc → Ipc
tick s = ring_flush 64 s

unfoldable pub is_connected : Ipc → ℕ
is_connected s = s.connected

-- The start and the end that every event's text has. `buf` is what the local array held.
abbrev pub open_text : (ℕ → ℕ) → Buffer
open_text buf = put 123 (record { bytes = buf; off = 0 })

abbrev pub str_field : String → List ℕ → Buffer → Buffer
str_field key val = append_str max_msg_len (codes key) val

abbrev pub int_field : String → ℕ → Buffer → Buffer
int_field key val = append_int max_msg_len (codes key) val

-- `buf[off++] = '}'; buf[off] = '\0'; ipc_ring_push(buf, off)`
unfoldable pub close_text : Ipc → Buffer → Ipc
close_text s b = let b' = put 125 b in ring_push s (write b'.bytes b'.off 0) b'.off

unfoldable pub mouse_text : (ℕ → ℕ) → ℕ → ℕ → ℕ → ℕ → ℕ → Buffer
mouse_text buf x y left right middle =
    let b1 = str_field "type" (codes "mouse") (open_text buf) in
    let b2 = int_field "x" x (put comma b1) in
    let b3 = int_field "y" y (put comma b2) in
    let b4 = int_field "l" left (put comma b3) in
    let b5 = int_field "r" right (put comma b4) in
    let b6 = int_field "m" middle (put comma b5) in b6

-- `x` and `y` are the 32-bit patterns of the two integers.
unfoldable pub send_mouse_event : (ℕ → ℕ) → Ipc → ℕ → ℕ → ℕ → ℕ → ℕ → Ipc
send_mouse_event buf s x y left right middle = close_text s (mouse_text buf x y left right middle)

unfoldable pub send_key_event : (ℕ → ℕ) → Ipc → ℕ → ℕ → ℕ → Ipc
send_key_event buf s ascii scancode is_pressed =
    let b1 = str_field "type" (codes "key") (open_text buf) in
    let b2 = int_field "ascii" ascii (put comma b1) in
    let b3 = int_field "scan" scancode (put comma b2) in
    let b4 = int_field "pressed" is_pressed (put comma b3) in close_text s b4

unfoldable pub window_text : (ℕ → ℕ) → List ℕ → List ℕ → List ℕ → Buffer
window_text buf action app_tag title =
    let b1 = str_field "type" (codes "window") (open_text buf) in
    let b2 = str_field "action" action (put comma b1) in
    let b3 = str_field "tag" app_tag (put comma b2) in
    let b4 = str_field "title" title (put comma b3) in b4

unfoldable pub send_window_event : (ℕ → ℕ) → Ipc → List ℕ → List ℕ → List ℕ → Ipc
send_window_event buf s action app_tag title = close_text s (window_text buf action app_tag title)

unfoldable pub send_service_event : (ℕ → ℕ) → Ipc → List ℕ → ℕ → ℕ → List ℕ → Ipc
send_service_event buf s name cpu_pct mem_kb status =
    let b1 = str_field "type" (codes "service") (open_text buf) in
    let b2 = str_field "name" name (put comma b1) in
    let b3 = int_field "cpu" cpu_pct (put comma b2) in
    let b4 = int_field "mem" mem_kb (put comma b3) in
    let b5 = str_field "status" status (put comma b4) in close_text s b5

unfoldable pub send_rtos_event : (ℕ → ℕ) → Ipc → ℕ → ℕ → List ℕ → ℕ → ℕ → Ipc
send_rtos_event buf s tid priority state cpu_us cpu_affinity =
    let b1 = str_field "type" (codes "rtos") (open_text buf) in
    let b2 = int_field "tid" tid (put comma b1) in
    let b3 = int_field "prio" priority (put comma b2) in
    let b4 = str_field "state" state (put comma b3) in
    let b5 = int_field "cpu_us" cpu_us (put comma b4) in
    let b6 = int_field "affinity" cpu_affinity (put comma b5) in close_text s b6

unfoldable pub send_notification : (ℕ → ℕ) → Ipc → List ℕ → List ℕ → List ℕ → Ipc
send_notification buf s title body icon_tag =
    let b1 = str_field "type" (codes "notify") (open_text buf) in
    let b2 = str_field "title" title (put comma b1) in
    let b3 = str_field "body" body (put comma b2) in
    let b4 = str_field "icon" icon_tag (put comma b3) in close_text s b4

-- The length that `gui_ipc_send_raw` finds from index `i`, with `n` bytes of its allowance left.
unfoldable pub raw_length : ℕ → (ℕ → ℕ) → ℕ → ℕ
raw_length zero json i = i
raw_length (suc n) json i = let rest = raw_length n json (i + 1) in if json i == 0 then i else rest

-- `none` is a NULL text.
unfoldable pub send_raw : Ipc → Option (ℕ → ℕ) → Ipc
send_raw s none = s
send_raw s (some json) = ring_push s json (raw_length (max_msg_len - 2) json 0)

unfoldable pub register_handler : Ipc → CmdType → ℕ → Ipc
register_handler s type_of routine = if leb max_handlers (length s.handlers) then s else record s {
  handlers = s.handlers ++ (record { type_of = type_of; routine = routine } ∷ []);
}
