-- ===== src/Services/Tests.antt =====
-- Runs of the services under services/.
use operating_system_sctrach.Common.{
  ℕ, ◌*◌, ◌/◌, ◌≡◌, refl, List, [], ◌∷◌, some, true, false, length, All, arith, ◌==◌, ◌&&◌,
  if◌then◌else◌,
}
use operating_system_sctrach.Common.Int.{pos, negsuc, neg_part}
use mathlib.Core.List.{Perm}
use operating_system_sctrach.Services.NetMgr.{
  NetMgr, init_defaults, default_route, add_route, del_route, lookup_route,
}
use operating_system_sctrach.Services.NetMgr.Routes.{
  add_all, del_route-add_route, lookup_route-add_all,
}
use operating_system_sctrach.Services.AudioSrv.{
  AudioSrv, mix_and_output, scaled, pattern32, clamp16,
}
use operating_system_sctrach.Services.AudioSrv.Mix.{
  IsPlayable, mix_and_output-IsPlayable, scaled-sign,
}
use operating_system_sctrach.Services.DrvMgr.{Config, PciDevice}
use operating_system_sctrach.Services.DrvMgr
use operating_system_sctrach.Services.DrvMgr.{
  scan_bus, scan_slots, scan_functions, max_func, probe, identify, read8, read16, read32,
  find_device,
}
use operating_system_sctrach.Services.DrvMgr.Scan.{IsTable, init-IsTable}
use operating_system_sctrach.Services.Mmcss.{Mmcss, MmcssClient, schedule_clients}
use operating_system_sctrach.Services.Mmcss.Deadlines.{IsOnTime, schedule_clients-IsScheduled}
use operating_system_sctrach.Common.Memory.{write}
use operating_system_sctrach.Sched.Types.{Sched}
use operating_system_sctrach.Sched.Tests.{blank}
use operating_system_sctrach.Sched.Core.{
  sched_init, sched_yield, cleared, create_named_kthread, free_slot, start_thread, pick, dispatch,
  fall_back, current_runs, clamp_priority,
}
use operating_system_sctrach.Sched.Queue.{push_back, pop_front}
use operating_system_sctrach.Sched.Ready.{IsScheduled}
use operating_system_sctrach.Sched.Ready.Reach.{Boots, Runs, runs-IsScheduled}
use operating_system_sctrach.Services.SysMain.{PrefetchEntry, sort_from, select}
use operating_system_sctrach.Services.SysMain.Order.{Descending, sort_from-Sorted}

abbrev no_network : NetMgr
no_network = record { ifaces = []; routes = [] }

abbrev one_route : NetMgr
one_route = record { ifaces = []; routes = default_route ∷ [] }

del_route-add_route_example :
    ((add_route one_route 0x0000A8C0 0x0000FFFF 1 (some (101 ∷ []))).1 ≡ pos 0)
    × (del_route
          (add_route one_route 0x0000A8C0 0x0000FFFF 1 (some (101 ∷ []))).0
          0x0000A8C0
          0x0000FFFF
        ≡ one_route)
del_route-add_route_example =
    del_route-add_route one_route 0x0000A8C0 0x0000FFFF 1 (101 ∷ []) (omega arith) (refl, tt)

-- A static route to 192.168.0.0/16 is not used for 192.168.1.1.
lookup_route-add_all_run :
    lookup_route
      (add_all (init_defaults no_network) ((0x0000A8C0, 0x0000FFFF, 1, 101 ∷ []) ∷ []))
      0x0101A8C0
    ≡ some default_route
lookup_route-add_all_run =
    lookup_route-add_all ((0x0000A8C0, 0x0000FFFF, 1, 101 ∷ []) ∷ []) no_network 0x0101A8C0 refl

abbrev one_session : AudioSrv
one_session = record {
  sessions =
      (record {
        app_tag = [];
        buffer = pos 1000 ∷ negsuc 999 ∷ [];
        frames_pending = 1;
        volume = 100;
        muted = false;
        active = true;
      }
        ∷ []);
  master_volume = 80;
  master_muted = false;
}

mix_and_output-IsPlayable_example : IsPlayable (mix_and_output one_session).1
mix_and_output-IsPlayable_example = mix_and_output-IsPlayable one_session

scaled-sign_run :
    (neg_part (scaled (negsuc 999) 80) ≡ 0) × (scaled (pos 1000) 80 ≡ pos (1000 * 80 / 100))
scaled-sign_run = scaled-sign (negsuc 999) 1000 80 (omega arith) (omega arith)

-- At 80 percent, -1000 becomes 42948872, which the output cuts to the loudest sample.
scaled_run :
    (scaled (negsuc 999) 80 ≡ pos 42948872) × (clamp16 (scaled (negsuc 999) 80) ≡ pos 32767)
unfolding scaled pattern32 clamp16
scaled_run = (refl, refl)

abbrev launched : ℕ → PrefetchEntry
launched n = record {
  app_tag = [];
  launch_count = n;
  last_access = 0;
  page_count = 0;
  prefetched = false;
}

abbrev launches : List PrefetchEntry
launches = launched 2 ∷ launched 9 ∷ launched 4 ∷ []

sort_from-Sorted_example :
    Descending (sort_from (length launches) launches)
    × Perm (sort_from (length launches) launches) launches
sort_from-Sorted_example = sort_from-Sorted launches

sort_run : sort_from 3 launches ≡ launched 9 ∷ launched 4 ∷ launched 2 ∷ []
unfolding sort_from select
sort_run = refl

-- One network adapter on slot 3.
abbrev one_adapter : Config
one_adapter bus slot func offset =
    if (slot == 3) && (func == 0) then (if offset == 0 then 0x100E8086 else 0) else 0xFFFFFFFF

init-IsTable_run : IsTable one_adapter (DrvMgr.init one_adapter)
init-IsTable_run = init-IsTable one_adapter

abbrev running : Sched
running = sched_yield (sched_init blank 4096)

abbrev player : MmcssClient
player = record {
  name = [];
  thread = some 0;
  class = 0;
  period_us = 5000;
  next_deadline = 0;
  latency_us = 0;
  missed_deadlines = 0;
  active = true;
}

abbrev one_client : Mmcss
one_client = record { clients = player ∷ []; avg_latency_us = 0; cpu_usage_pct = 0 }

running-ticks : running.sched_ticks ≡ 0
unfolding sched_init sched_yield cleared create_named_kthread free_slot start_thread pick dispatch
    fall_back current_runs clamp_priority push_back pop_front write
running-ticks = refl

schedule_clients-IsScheduled_example :
    All (IsOnTime running.sched_ticks) (schedule_clients one_client running).0.clients
    × IsScheduled (schedule_clients one_client running).1
schedule_clients-IsScheduled_example =
    schedule_clients-IsScheduled one_client running (omega arith, tt) (omega (arith, running-ticks))
      (runs-IsScheduled running (Runs.choose (sched_init blank 4096) (Boots.init blank 4096)))
