-- ===== src/Exec/Kpcr.antt =====
-- The processor control region of kernel/exec/kpcr.h and kpcr.c: its start on every processor, the queue of
-- deferred calls, and the dispatch of interrupts. What the assembly of `kpcr_get` finds through the GS
-- register is the field `kpcr` of `Local`, with `none` for NULL; the machine registers that `kpcr_init`
-- writes are its result. Nodes of the queue are memory from the heap (Heap), and NULL is the address 0.
pub mod Calls
pub mod Timer
pub mod Start
use operating_system_sctrach.Common.{
  ℕ, zero, suc, ◌+◌, ◌-◌, ◌%◌, ◌^◌, List, [], ◌∷◌, Option, none, some, Bool, true, false, ◌&&◌,
  ◌||◌, ltb, leb, ◌==◌, if◌then◌else◌, not,
}
use operating_system_sctrach.Common.Memory.{write}
use operating_system_sctrach.Heap.{Heap, kmalloc, kfree}
use operating_system_sctrach.Sched.Types.{Sched}
use operating_system_sctrach.Sched.Tick.{sched_tick, finish_tick}

abbrev pub irql_passive : ℕ
irql_passive = 0

abbrev pub irql_dispatch : ℕ
irql_dispatch = 2

abbrev pub irql_high : ℕ
irql_high = 15

abbrev pub max_cpus : ℕ
max_cpus = 32

pub record DpcNode : Type 0 where
  pub callback : ℕ
  pub context : ℕ
  pub next : ℕ

pub record Kprcb : Type 0 where
  pub processor_id : ℕ
  pub apic_id : ℕ
  pub current_irql : ℕ
  pub current_thread : ℕ
  pub idle_thread : ℕ
  pub next_thread : ℕ
  pub scheduler_ticks : ℕ
  pub context_switches : ℕ
  pub idle_ticks : ℕ
  pub dpc_queue_head : ℕ
  pub dpc_queue_tail : ℕ
  pub dpc_queue_count : ℕ
  pub irq_count : ℕ → ℕ

-- `self` and `prcb` are the numbers of the table's entries that they point to.
pub record Kpcr : Type 0 where
  pub self : Option ℕ
  pub prcb : Option ℕ
  pub initial_apic_id : ℕ
  pub current_irql : ℕ
  pub tss : ℕ
  pub idt : ℕ
  pub gdt : ℕ
  pub kernel_stack_top : ℕ
  pub user_stack_mirror : ℕ
  pub embedded_prcb : Kprcb

-- `g_kpcr_table` and `g_online_cpu_count`
pub record Cpus : Type 0 where
  pub table : ℕ → Kpcr
  pub online_cpu_count : ℕ

unfoldable pub fresh_prcb : ℕ → ℕ → Kprcb
fresh_prcb cpu_id apic_id = record {
  processor_id = cpu_id;
  apic_id = apic_id;
  current_irql = irql_high;
  current_thread = 0;
  idle_thread = 0;
  next_thread = 0;
  scheduler_ticks = 0;
  context_switches = 0;
  idle_ticks = 0;
  dpc_queue_head = 0;
  dpc_queue_tail = 0;
  dpc_queue_count = 0;
  irq_count = λ v. 0;
}

-- `kpcr_init`; the second result is the entry that both GS registers then name, if they are written.
unfoldable pub kpcr_init : Cpus → ℕ → ℕ → ℕ → ℕ → ℕ → Cpus × Option ℕ
kpcr_init s cpu_id apic_id tss idt gdt =
    let kpcr : Kpcr = record {
      self = some cpu_id;
      prcb = some cpu_id;
      initial_apic_id = apic_id;
      current_irql = irql_high;
      tss = tss;
      idt = idt;
      gdt = gdt;
      kernel_stack_top = 0;
      user_stack_mirror = 0;
      embedded_prcb = fresh_prcb cpu_id apic_id;
    } in
    if leb max_cpus cpu_id then (s, none) else (
      record {
        table = write s.table cpu_id kpcr;
        online_cpu_count = if leb s.online_cpu_count cpu_id then cpu_id + 1 else s.online_cpu_count;
      },
      some cpu_id,
    )

-- `kpcr_set_irql`
unfoldable pub set_irql : ℕ → Kpcr → Kpcr
set_irql irql k = record k {
  current_irql = irql;
  embedded_prcb = record k.embedded_prcb { current_irql = irql };
}

-- `kpcr_set_current_thread`
unfoldable set_current_thread : ℕ → Kpcr → Kpcr
set_current_thread thread k = record k {
  embedded_prcb = record k.embedded_prcb { current_thread = thread };
}

-- The loop of `ap_kernel_entry_c` over the processors from `i` on, `n` of them left; 0 where none fits.
unfoldable pub find_cpu : ℕ → (ℕ → ℕ) → ℕ → ℕ → ℕ
find_cpu zero apic_ids my_apic_id i = 0
find_cpu (suc n) apic_ids my_apic_id i =
    let rest = find_cpu n apic_ids my_apic_id (i + 1) in
    if apic_ids i == my_apic_id then i else rest

-- What `ap_kernel_entry_c` does once it has found the number of its processor.
unfoldable pub enter : Cpus → ℕ → ℕ → ℕ → ℕ → ℕ → Cpus × Option ℕ
enter s cpu_id my_apic_id tss idt gdt =
    let (s1, gs) = kpcr_init s cpu_id my_apic_id tss idt gdt in
    elim gs [
      | none ↦ (s1, none)
      | some i ↦
          (record s1 { table = write s1.table i (set_irql irql_passive (s1.table i)) }, some i)
    ]

-- `ap_kernel_entry_c` up to its idle loop, from the number that the controller's register holds.
unfoldable pub ap_kernel_entry : Cpus → (ℕ → ℕ) → ℕ → ℕ → ℕ → ℕ → ℕ → Cpus × Option ℕ
ap_kernel_entry s apic_ids cpu_count my_apic_id tss idt gdt =
    let cpus = if ltb cpu_count max_cpus then cpu_count else max_cpus in
    enter s (find_cpu (cpus - 1) apic_ids my_apic_id 1) my_apic_id tss idt gdt

-- What the running processor sees: its control region, the nodes in memory and the heap.
pub record Local : Type 0 where
  pub kpcr : Option Kpcr
  pub nodes : ℕ → DpcNode
  pub heap : Heap

-- `sizeof(DPC_NODE)`
abbrev pub node_size : ℕ
node_size = 24

-- The block with one more call in its queue, the node at address `p`.
unfoldable pub appended : Kprcb → ℕ → Kprcb
appended b p = record b {
  dpc_queue_head = if b.dpc_queue_head == 0 then p else b.dpc_queue_head;
  dpc_queue_tail = p;
  dpc_queue_count = (b.dpc_queue_count + 1) % 2 ^ 32;
}

-- The nodes with the one at `p` written and hung behind the last.
unfoldable pub hung : (ℕ → DpcNode) → Kprcb → ℕ → DpcNode → ℕ → DpcNode
hung nodes b p node =
    let nodes1 = write nodes p node in
    if b.dpc_queue_head == 0
    then nodes1
    else write nodes1 b.dpc_queue_tail (record (nodes1 b.dpc_queue_tail) { next = p })

-- `kpcr_queue_dpc`; `fuel` is that of the heap's search.
unfoldable pub queue_dpc : ℕ → ℕ → ℕ → Local → Local
queue_dpc fuel callback context l = elim l.kpcr [
  | none ↦ l
  | some k ↦
      let (heap, p) = kmalloc fuel l.heap node_size in
      let node : DpcNode = record { callback = callback; context = context; next = 0 } in
      if callback == 0 then l else if p == 0 then record l { heap = heap } else record {
        kpcr = some (record k { embedded_prcb = appended k.embedded_prcb p });
        nodes = hung l.nodes k.embedded_prcb p node;
        heap = heap;
      }
]

-- The block without its first call, which `next` follows.
unfoldable pub unlinked : Kprcb → ℕ → Kprcb
unlinked b next = record b {
  dpc_queue_head = next;
  dpc_queue_tail = if next == 0 then 0 else b.dpc_queue_tail;
  dpc_queue_count = (b.dpc_queue_count + 2 ^ 32 - 1) % 2 ^ 32;
}

-- What the callback of a node does, from its address and the context, to the processor and to the rest.
abbrev pub Callback {ℓ} : Type ℓ → Type ℓ
Callback W = ℕ → ℕ → Local → W → Local × W

-- One turn of the loop of `kpcr_flush_dpc_queue`.
unfoldable pub run_first {ℓ} : {W : Type ℓ} → Callback W → Kpcr → Local → W → Local × W
run_first call k l w =
    let p = k.embedded_prcb.dpc_queue_head in
    let node = l.nodes p in
    let l1 = record l {
      kpcr = some (record k { embedded_prcb = unlinked k.embedded_prcb node.next });
    } in
    let (l2, w2) = if node.callback == 0 then (l1, w) else call node.callback node.context l1 w in
    (record l2 { heap = kfree l2.heap p }, w2)

-- `kpcr_flush_dpc_queue`, at most `fuel` calls.
unfoldable pub flush_dpc_queue {ℓ} : {W : Type ℓ} → ℕ → Callback W → Local → W → Local × W
flush_dpc_queue zero call l w = (l, w)
flush_dpc_queue (suc fuel) call l w = elim l.kpcr [
  | none ↦ (l, w)
  | some k ↦
      let (l1, w1) = run_first call k l w in
      let rest = flush_dpc_queue fuel call l1 w1 in
      if k.embedded_prcb.dpc_queue_head == 0 then (l, w) else rest
]

-- How the handler of an interrupt ends: the processor stops, it returns, with or without the word to the
-- controller that the interrupt was served, or another thread runs and the handler is still to be finished.
pub data Exit : Type 0 where
  halted acknowledged returned switched : Exit

-- The vectors 0, 6, 8, 13 and 14
abbrev pub is_fault : ℕ → Bool
is_fault v = (v == 0) || (v == 6) || (v == 8) || (v == 13) || (v == 14)

unfoldable pub count_irq : ℕ → Kpcr → Kpcr
count_irq v k =
    let b = k.embedded_prcb in
    record k {
      embedded_prcb = record b {
        irq_count = write b.irq_count (v % 256) ((b.irq_count (v % 256) + 1) % 2 ^ 64);
      };
    }

abbrev pub at_kpcr : (Kpcr → Kpcr) → Local → Local
at_kpcr f l = record l { kpcr = elim l.kpcr [ none ↦ none | some k ↦ some (f k) ] }

unfoldable pub count_tick : Kpcr → Kpcr
count_tick k = record k {
  embedded_prcb = record k.embedded_prcb {
    scheduler_ticks = (k.embedded_prcb.scheduler_ticks + 1) % 2 ^ 64;
  };
}

-- The case of the timer from the tick of the scheduler on: the deferred calls and the level PASSIVE.
unfoldable pub finish_timer : ℕ → Callback Sched → Local → Sched → Local × Sched
finish_timer fuel call l s =
    let (l', s') = flush_dpc_queue fuel call l s in (at_kpcr (set_irql irql_passive) l', s')

-- The case of the timer, up to the point where the tick switches to another thread, if it does, which the
-- last result says.
unfoldable pub on_timer :
    ℕ → (ℕ → ℕ → Sched → Sched) → Callback Sched → Local → Sched → Local × Sched × Bool
on_timer fuel routine call l s = elim l.kpcr [
  | none ↦ (l, s, false)
  | some k ↦
      let raised = record l { kpcr = some (set_irql irql_dispatch (count_tick k)) } in
      let (s1, away) = sched_tick routine s in
      let (l', s') = finish_timer fuel call raised s1 in
      if away then (raised, s1, true) else (l', s', false)
]

abbrev pub timer_exit : Local × Sched × Bool → Local × Sched × Exit
timer_exit (l, s, away) = (l, s, if away then Exit.switched else Exit.acknowledged)

-- `isr_common_handler`, from the number of the interrupt.
unfoldable pub isr_common_handler :
    ℕ → (ℕ → ℕ → Sched → Sched) → Callback Sched → ℕ → Local → Sched → Local × Sched × Exit
isr_common_handler fuel routine call vector l s =
    let counted = at_kpcr (count_irq vector) l in
    let timed = timer_exit (on_timer fuel routine call counted s) in
    if is_fault vector
    then (counted, s, Exit.halted)
    else if vector == 0x20
    then timed
    else if leb 0x21 vector && leb vector 0xFE
    then (counted, s, Exit.acknowledged)
    else (counted, s, Exit.returned)

-- What a thread that the tick of an interrupt switched away from does when it runs again: the rest of the
-- tick, and the rest of the handler.
unfoldable pub resume_timer : ℕ → Callback Sched → Local → Sched → Local × Sched × Exit
resume_timer fuel call l s =
    let (l', s') = finish_timer fuel call l (finish_tick s) in (l', s', Exit.acknowledged)
