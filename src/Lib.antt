-- ===== src/Lib.antt =====
-- Models of the kernel and the services of Xenithra OS (C, under kernel/ and services/) and what
-- holds of them.
--
-- The program. bootloader/ loads the kernel and hands it a memory map (shared/bootinfo.h).
-- kernel/mm/vmm.c turns the map into a database of page frames, gives frames out and maps them;
-- kernel/mm/heap.c carves small blocks out of a pool. kernel/sched/sched.c runs the kernel's
-- threads by priority from the timer interrupt, with deferred calls, a mutex and a watchdog.
-- kernel/security/session.c guards sessions by tokens, kernel/security/firewall.c filters
-- packets, kernel/drivers/ps2.c reads the mouse and the keyboard, kernel/gui/compositor.c
-- manages the windows that they act on, kernel/gui/anim.c moves values smoothly, and services/
-- holds daemons for the network, the devices, for sound, for prefetching and for what the panel of
-- the desktop shows. kernel/gui/gui_ipc.c sends events as JSON text to the desktop over the serial
-- port, and kernel/kstring.c holds the memory and string routines that the others call. At the
-- start kernel/arch/x86_64 fills the processor's tables (gdt_idt.c) and finds the other processors
-- (apic.c), kernel/drivers/gpu/vbe.c draws the first screen, and kernel/exec/smss.c starts the
-- threads that log the user on. kernel/apps and kernel/python are programs that the windows hold.
--
-- The files.
--   Common            the names that all modules share: the libraries', lists, tests, table scans
--                     (Scan, Find, Count), memory as a function (Memory), rings of any size (Ring),
--                     decimal digits (Decimal), signed integers (Int) and C strings (Text)
--   Strings           kernel/kstring.c; each routine has the name it has there
--   Firewall          kernel/security/firewall.h and firewall.c; `firewall_add_rule` is `add_rule`
--   Session           kernel/security/session.h and session.c; `session_validate` is `validate`,
--                     `security_init` is `init`
--   Pfn               the frame database of kernel/mm/vmm.c: `vmm_alloc_physical` is
--                     `alloc_physical`
--   Paging            the page tables of kernel/mm/vmm.c: `vmm_map_page` is `map_page`; it calls
--                     the operations of Pfn
--   Heap              kernel/mm/heap.c: `kmalloc`, `kfree`
--   Sched             kernel/sched/sched.h and sched.c: Types the structures, Queue the run queues
--                     (`queue_push_back` is `push_back`), Dpc the deferred calls (`dpc_queue` is
--                     `enqueue`), Core creation and `sched_yield`, Tick sleeping and `sched_tick`,
--                     Mutex `kmutex_lock` and `kmutex_unlock`; Ready is about all run queues together,
--                     over runs of the operations
--   GuiIpc            kernel/gui/gui_ipc.h and gui_ipc.c: `ipc_ring_push` is `ring_push`,
--                     `gui_ipc_tick` is `tick`
--   Input             kernel/drivers/ps2.h and ps2.c: `ps2_poll_mouse` is `poll_mouse`
--   Desktop           Anim is kernel/gui/anim.h and anim.c; Windows is the window table of
--                     kernel/gui/compositor.h and compositor.c: `window_create` is `create`,
--                     `compositor_dispatch_key` is `dispatch_key` (Pointer), `compositor_update_mouse`
--                     is `update_mouse` (Mouse), and the drawing order of
--                     `compositor_render` is `render_order` (Draw)
--   Services          NetMgr is services/netmgr, AudioSrv services/audiosrv, SysMain services/sysmain;
--                     Mmcss services/mmcss, over Sched, and DrvMgr services/drvmgr, whose PCI
--                     configuration space is a parameter; NetMgr and Mmcss send messages through GuiIpc;
--                     PanelMgr is services/panelmgr (`panelmgr_log` is `log`), DwmProxy
--                     services/dwm_proxy (`dwm_open_window` is `open_window`)
--   Exec              Smss is kernel/exec/smss.h and smss.c: `session_0_init` and `session_1_init` over
--                     Sched, and the threads of the sessions, over Session
--                     Kpcr is kernel/exec/kpcr.h and kpcr.c, over Heap and Sched: `kpcr_queue_dpc` is
--                     `queue_dpc`; Kpcr/Timer leads from the requests to the timer's interrupt
--   Arch              Descriptors is kernel/arch/x86_64/gdt_idt.h and gdt_idt.c, Apic the tables and
--                     numbers of apic.h and apic.c
--   Drivers           Vbe is kernel/drivers/gpu/vbe.h and vbe.c: `vbe_fill_rect` is `fill_rect`
--   Apps              Terminal is kernel/apps/terminal_app.c, over Firewall, Session and the windows of
--                     Desktop; PyRuntime is kernel/python/py_runtime.h and py_runtime.c
--
-- The correspondence. The static variables of a file are the fields of one record, and an
-- operation takes the record and returns the new one beside its result. A pointer into a static
-- array is an index, a NULL that the code tests is `none` or the number 0, as each file says.
-- Arrays and memory are functions of an index or lists; numbers are natural numbers, and an
-- operation on a 32-bit or 64-bit number is followed by its remainder where it can wrap around.
-- Tests, early returns and the order of writes are the code's. What the hardware answers
-- (RDRAND, RDTSC, CPUID, CR3, CR4), the addresses that the linker chooses, the glyphs of the font
-- and the static page of the desktop are arguments. A local array that a text may overrun makes the
-- result undefined, which is `none`. A thread of the session manager is a function from its place
-- in its body to the next one, one step from each sleep to the next.
--
-- Loops. A loop with a counter is recursion on the count. A loop that follows links has fuel:
-- the walks along sleep and run queues have 128, the number of threads; the flush of the message
-- ring has 64, the number of slots, of which at most 63 hold messages; reading a message has
-- 512, the size of the array; the search of the heap and the string routines that run to a
-- terminator take their fuel as an argument; the walk along the entries of the processor table
-- has the table's length, which each entry shortens by at least one byte; the flush of the deferred
-- calls has the most turns that it may take. A 64-bit number has at most 20 decimal digits, a
-- 32-bit one at most 10.
--
-- What is not modelled. The context switch and other assembly, port and register access, what
-- windows paint, the boot loader, the drivers other than the mouse, the keyboard and the frame
-- buffer, the starting of the other processors, and the desktop front ends do input and output and
-- keep little state that the parts above use. The document engine, the kernel shell and the other
-- applications are left out too. Threads of one processor
-- interleave only at the calls that switch, so that an operation is one step; `sched_tick`, which may
-- switch inside the timer's interrupt, stops there, and `finish_tick` is its rest. The runs of the
-- scheduler in Ready leave out sleeping and waking, the mutex and the periodic boost. Callbacks
-- of windows and of deferred calls are arguments. Other processors are left out, as the code
-- takes no locks. In the heap, headers, footers and free-list nodes do not overlap one another.
pub mod Common
pub mod Strings
pub mod Firewall
pub mod Session
pub mod Pfn
pub mod Paging
pub mod Heap
pub mod Sched
pub mod Exec
pub mod GuiIpc
pub mod Input
pub mod Drivers
pub mod Arch
pub mod Desktop
pub mod Services
pub mod Apps
