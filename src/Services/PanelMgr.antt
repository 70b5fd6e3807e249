-- ===== src/Services/PanelMgr.antt =====
-- The panel manager of services/panelmgr/panelmgr.h and panelmgr.c: the ring of the last 256 events, and
-- the telemetry, which nothing but its start changes. A NULL text is `none`, and leaves in the entry
-- what the slot held. The field `timestamp_ms` of an entry, which no function writes, is left out.
pub mod Log
use operating_system_sctrach.Common.{
  ℕ, zero, suc, ◌+◌, ◌*◌, ◌/◌, ◌%◌, ◌^◌, List, [], ◌∷◌, Option, none, some, ltb, leb, ◌==◌,
  if◌then◌else◌, codes, copy_text,
}
use operating_system_sctrach.Common.Memory.{write}
use operating_system_sctrach.GuiIpc.{Ipc, send_notification, send_service_event}

abbrev pub log_ring_size : ℕ
log_ring_size = 256

pub record PanelTelemetry : Type 0 where
  pub cpu_percent : ℕ
  pub cpu_freq_mhz : ℕ
  pub cpu_temperature_c : ℕ
  pub cpu_core_count : ℕ
  pub ram_used_bytes : ℕ
  pub ram_total_bytes : ℕ
  pub page_fault_count : ℕ
  pub gpu_percent : ℕ
  pub gpu_vram_used_mb : ℕ
  pub gpu_vram_total_mb : ℕ
  pub disk_read_bytes_per_sec : ℕ
  pub disk_write_bytes_per_sec : ℕ
  pub disk_active_pct : ℕ
  pub net_rx_bytes_per_sec : ℕ
  pub net_tx_bytes_per_sec : ℕ
  pub process_count : ℕ
  pub thread_count : ℕ
  pub handle_count : ℕ
  pub timestamp_ms : ℕ

pub data PanelLogLevel : Type 0 where
  info warning error critical : PanelLogLevel

pub record PanelLogEntry : Type 0 where
  pub id : ℕ
  pub level : PanelLogLevel
  pub source : List ℕ
  pub event_id : ℕ
  pub message : List ℕ

pub record PanelMgr : Type 0 where
  pub telemetry : PanelTelemetry
  pub log_ring : ℕ → PanelLogEntry
  pub log_head : ℕ
  pub log_count : ℕ
  pub next_log_id : ℕ

abbrev pub text_or : List ℕ → Option (List ℕ) → List ℕ
text_or old none = old
text_or old (some text) = text

abbrev pub copy_or : ℕ → List ℕ → Option (List ℕ) → List ℕ
copy_or n old none = old
copy_or n old (some text) = copy_text n text

-- The entry that takes the place of `old`.
unfoldable pub filled :
    PanelLogEntry → ℕ → PanelLogLevel → Option (List ℕ) → ℕ → Option (List ℕ) → PanelLogEntry
filled old id level source event_id message = record {
  id = id;
  level = level;
  source = copy_or 31 old.source source;
  event_id = event_id;
  message = copy_or 255 old.message message;
}

-- `panelmgr_log`, without its notification.
unfoldable pub add_entry :
    PanelMgr → PanelLogLevel → Option (List ℕ) → ℕ → Option (List ℕ) → PanelMgr
add_entry p level source event_id message =
    let idx = (p.log_head + p.log_count) % log_ring_size in
    record p {
      log_count = if ltb p.log_count log_ring_size then p.log_count + 1 else p.log_count;
      log_head =
          if ltb p.log_count log_ring_size then p.log_head else (p.log_head + 1) % log_ring_size;
      log_ring =
          write p.log_ring idx
            (filled (p.log_ring idx) p.next_log_id level source event_id message);
      next_log_id = (p.next_log_id + 1) % 2 ^ 32;
    }

-- `panelmgr_log`; `buf` is the stack frame of the function that writes the notification.
unfoldable pub log :
    (ℕ → ℕ)
    → PanelMgr
    → Ipc
    → PanelLogLevel
    → Option (List ℕ)
    → ℕ
    → Option (List ℕ)
    → PanelMgr × Ipc
log buf p ipc level source event_id message = (
  add_entry p level source event_id message,
  send_notification buf ipc (text_or (codes "System") source) (text_or [] message) (codes "info"),
)

abbrev pub start_telemetry : PanelTelemetry
start_telemetry = record {
  cpu_percent = 12;
  cpu_freq_mhz = 3200;
  cpu_temperature_c = 42;
  cpu_core_count = 4;
  ram_used_bytes = 340 * 1024 * 1024;
  ram_total_bytes = 2048 * 1024 * 1024;
  page_fault_count = 0;
  gpu_percent = 8;
  gpu_vram_used_mb = 32;
  gpu_vram_total_mb = 128;
  disk_read_bytes_per_sec = 0;
  disk_write_bytes_per_sec = 0;
  disk_active_pct = 0;
  net_rx_bytes_per_sec = 0;
  net_tx_bytes_per_sec = 0;
  process_count = 14;
  thread_count = 28;
  handle_count = 120;
  timestamp_ms = 0;
}

-- `panelmgr_init`
unfoldable pub init : (ℕ → ℕ) → PanelMgr → Ipc → PanelMgr × Ipc
init buf p ipc =
    log buf (record p { telemetry = start_telemetry; log_head = 0; log_count = 0 }) ipc
      PanelLogLevel.info (some (codes "System")) 100
      (some (codes "Xenithra OS v3.0 kernel initialized."))

-- `panelmgr_push_telemetry`
unfoldable pub push_telemetry : (ℕ → ℕ) → PanelMgr → Ipc → Ipc
push_telemetry buf p ipc =
    send_service_event buf ipc (codes "PanelMgr") p.telemetry.cpu_percent
      (p.telemetry.ram_used_bytes / 1024 % 2 ^ 32) (codes "Running")

-- The loop of `panelmgr_get_log` with `n` entries left, from entry `i` on.
unfoldable pub copy_entries : ℕ → PanelMgr → ℕ → List PanelLogEntry
copy_entries zero p i = []
copy_entries (suc n) p i = p.log_ring ((p.log_head + i) % log_ring_size) ∷ copy_entries n p (i + 1)

-- `panelmgr_get_log` for `max_entries` above 0: the entries that it copies, and the result is their number.
unfoldable pub get_log : PanelMgr → ℕ → List PanelLogEntry
get_log p max_entries =
    copy_entries (if ltb p.log_count max_entries then p.log_count else max_entries) p 0
