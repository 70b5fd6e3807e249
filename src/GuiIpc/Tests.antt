-- ===== src/GuiIpc/Tests.antt =====
-- Runs of the message ring of kernel/gui/gui_ipc.c.
use operating_system_sctrach.Common.{
  ℕ, ◌≡◌, refl, [], ◌∷◌, ◌++◌, some, arith, length, replicate, codes, if◌then◌else◌, ◌==◌,
}
use operating_system_sctrach.Common.Memory.{write}
use operating_system_sctrach.Common.Ring.{around, span}
use operating_system_sctrach.Common.Decimal.{decimal, low_digits}
use operating_system_sctrach.GuiIpc.{
  Ipc, launch, put, put_text, append_str, append_int, u32toa, ring_push, ring_flush, uart_bytes,
  init, tick, is_connected, close_text, mouse_text, send_mouse_event, send_key_event, window_text,
  send_window_event, send_service_event, send_rtos_event, send_notification, raw_length, send_raw,
  register_handler, filled,
}
use operating_system_sctrach.GuiIpc.Queue.{
  ring_push-waiting, tick-sent, waiting, waiting_count, IsRing, lines_of,
}
use operating_system_sctrach.GuiIpc.Events.{send_mouse_event-line, mouse_line, Digits}

abbrev zeros : ℕ → ℕ
zeros i = 0

abbrev idle : Ipc
idle = record {
  ring = λ i. record { msg = zeros; len = 0 };
  ring_head = 60;
  ring_tail = 60;
  connected = 0;
  msg_seq = 0;
  handlers = [];
  sent = [];
}

abbrev hello : ℕ → ℕ
hello i = if i == 0 then 104 else if i == 1 then 105 else 0

abbrev one : Ipc
one = ring_push idle hello 2

ring_push-waiting_example : IsRing one × (waiting one ≡ filled (idle.ring 60) hello 2 ∷ [])
unfolding around
ring_push-waiting_example = ring_push-waiting idle hello 2 (omega arith, omega arith)

tick-sent_example :
    ((tick one).sent ≡ one.sent ++ lines_of (waiting one)) × (waiting_count (tick one) ≡ 0)
unfolding ring_push
tick-sent_example = tick-sent one (omega arith, omega arith)

send_mouse_event-line_example :
    let slot = (send_mouse_event zeros idle 640 480 1 0 0).ring 60 in
    (dx : Digits 640) × (dy : Digits 480) × (dl : Digits 1) × (dr : Digits 0) × (dm : Digits 0)
    × (span slot.msg 0 slot.len ≡ mouse_line dx.0 dy.0 dl.0 dr.0 dm.0)
    × (slot.msg slot.len ≡ 0)
send_mouse_event-line_example =
    send_mouse_event-line zeros idle 640 480 1 0 0 (omega arith) (omega arith) (omega arith)
      (omega arith) (omega arith)

mouse_run :
    (tick (send_mouse_event zeros idle 640 480 1 0 0)).sent
    ≡ codes "{\"type\":\"mouse\",\"x\":640,\"y\":480,\"l\":1,\"r\":0,\"m\":0}\n"
unfolding send_mouse_event mouse_text close_text append_str append_int put put_text u32toa decimal
    low_digits tick ring_push ring_flush uart_bytes write
mouse_run = refl

tick_run : (tick one).sent ≡ 104 ∷ 105 ∷ 10 ∷ []
unfolding tick ring_push ring_flush uart_bytes write
tick_run = refl

raw_run : ((send_raw idle (some hello)).ring 60).len ≡ 3
unfolding send_raw raw_length ring_push write
raw_run = refl

key_run :
    (tick (send_key_event zeros idle 65 30 1)).sent
    ≡ codes "{\"type\":\"key\",\"ascii\":65,\"scan\":30,\"pressed\":1}\n"
unfolding send_key_event close_text append_str append_int put put_text u32toa decimal low_digits
    tick ring_push ring_flush uart_bytes write
key_run = refl

-- An action of 600 bytes is cut, yet the fields after it run past the 512 bytes of the array.
overflow_run : (window_text zeros (replicate 600 65) [] []).off ≡ 523
unfolding window_text append_str put put_text
overflow_run = refl

window_run : (send_window_event zeros idle (codes "open") (codes "a") (codes "b")).ring_tail ≡ 61
unfolding send_window_event close_text ring_push
window_run = refl

service_run : (send_service_event zeros idle (codes "smss") 1 2 (codes "ok")).ring_tail ≡ 61
unfolding send_service_event close_text ring_push
service_run = refl

rtos_run : (send_rtos_event zeros idle 1 2 (codes "ready") 3 4).ring_tail ≡ 61
unfolding send_rtos_event close_text ring_push
rtos_run = refl

notification_run : (send_notification zeros idle (codes "t") (codes "b") (codes "i")).ring_tail ≡ 61
unfolding send_notification close_text ring_push
notification_run = refl

mouse_event_run : (send_mouse_event zeros idle 1 2 3 4 5).ring_tail ≡ 61
unfolding send_mouse_event close_text ring_push
mouse_event_run = refl

handler_run : length (register_handler (init idle) launch 7).handlers ≡ 1
unfolding register_handler init
handler_run = refl

connected_run : is_connected (init idle) ≡ 1
unfolding is_connected init
connected_run = refl
