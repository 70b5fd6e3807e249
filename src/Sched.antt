-- ===== src/Sched.antt =====
-- The scheduler of kernel/sched/sched.h and sched.c. Threads are slots of `g_threads`; a `Thread *`
-- is a slot number and NULL is `none`. What the machine keeps in a thread (stack pointer, page table
-- root, FPU area) is left out but for the first stack frame, so that `switch_to_thread`
-- (kernel/arch/x86_64/switch.asm) changes nothing of this state. `g_realtime_deadline_last`, which the
-- code never uses, is left out.
pub mod Types
pub mod Queue
pub mod Dpc
pub mod Core
pub mod Tick
pub mod Mutex
pub mod Ready
pub mod Tests
