-- ===== src/Services/PanelTests.antt =====
-- Runs of services/panelmgr and services/dwm_proxy.
use operating_system_sctrach.Common.{
  ◌≡◌, refl, List, [], ◌∷◌, ◌++◌, none, some, false, take, drop, replicate, codes, arith, ◌==◌,
  if◌then◌else◌, map,
}
use operating_system_sctrach.Common.Memory.{write}
use operating_system_sctrach.GuiIpc.{Ipc}
use operating_system_sctrach.Services.PanelMgr.{
  PanelMgr, PanelLogEntry, PanelLogLevel, start_telemetry, add_entry, get_log, copy_entries, filled,
}
use operating_system_sctrach.Services.PanelMgr.Log.{IsLog, events, new_entry, get_log-add_entry}
use operating_system_sctrach.Services.DwmProxy.{DwmWindow, DwmProxy}
use operating_system_sctrach.Services.DwmProxy.Count.{
  IsCounted, Command, handle_all, handle_all-IsCounted,
}

abbrev no_entry : PanelLogEntry
no_entry = record { id = 0; level = PanelLogLevel.info; source = []; event_id = 0; message = [] }

-- A log that is full, its oldest event in the last slot.
abbrev full_log : PanelMgr
full_log = record {
  telemetry = start_telemetry;
  log_ring = λ i. record no_entry { id = i };
  log_head = 255;
  log_count = 256;
  next_log_id = 300;
}

get_log-add_entry_example :
    let p = add_entry full_log PanelLogLevel.error (some (codes "Disk")) 7 none in
    let e = new_entry full_log PanelLogLevel.error (some (codes "Disk")) 7 none in
    let held = if full_log.log_count == 256 then drop 1 (events full_log) else events full_log in
    IsLog p × (get_log p 10 ≡ take 10 (held ++ (e ∷ [])))
get_log-add_entry_example =
    get_log-add_entry full_log PanelLogLevel.error (some (codes "Disk")) 7 none 10
      (record { head_bound = omega arith; count_bound = omega arith })

get_log_run :
    map
      (λ (e : PanelLogEntry). e.id)
      (get_log (add_entry full_log PanelLogLevel.error none 7 none) 3)
    ≡ 0 ∷ 1 ∷ 2 ∷ []
unfolding get_log add_entry copy_entries filled write
get_log_run = refl

abbrev no_window : DwmWindow
no_window = record {
  id = 0;
  title = [];
  app_tag = [];
  is_open = false;
  is_minimized = false;
  is_maximized = false;
  is_focused = false;
  x = 0;
  y = 0;
  w = 0;
  h = 0;
}

abbrev no_windows : DwmProxy
no_windows = record {
  windows = replicate 32 no_window;
  window_count = 0;
  next_win_id = 1;
  dwm_ticks = 0;
  frame_time_us = 0;
  cpu_pct = 0;
  fps = 60;
}

abbrev silent_port : Ipc
silent_port = record {
  ring = λ _. record { msg = λ _. 0; len = 0 };
  ring_head = 0;
  ring_tail = 0;
  connected = 1;
  msg_seq = 0;
  handlers = [];
  sent = [];
}

abbrev commands : List Command
commands =
    Command.launch (codes "browser")
    ∷ Command.launch (codes "files")
    ∷ Command.focus 1
    ∷ Command.close_app (codes "browser")
    ∷ []

handle_all-IsCounted_example : IsCounted (handle_all (λ _. 0) (no_windows, silent_port) commands).0
handle_all-IsCounted_example =
    handle_all-IsCounted (λ _. 0) commands no_windows silent_port
      (record { counted = refl; few = omega arith })
