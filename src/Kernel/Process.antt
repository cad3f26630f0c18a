-- ===== src/Kernel/Process.antt =====
-- src/kernel/process/process.c: the process table and the round-robin scheduler. A
-- `struct process *` is the index of a slot of `processes`; the memory of the stacks is a function
-- from addresses of 64-bit words. An entry point is an address, and a parameter where it is used.
pub mod Stack
pub mod Ring
pub mod Create
pub mod Schedule
use bonfire_os.Base.{
  ℕ, zero, suc, ◌+◌, ◌-◌, ◌*◌, ◌/◌, ◌^◌, Bool, true, false, Option, none, some, List, [], ◌∷◌, leb,
  if◌then◌else◌, u32, u64, update,
}
use bonfire_os.Kernel.Heap.{Heap, kmalloc}
use bonfire_os.Kernel.Arch.{Ports, irq_eoi}

-- `enum process_state`
pub data ProcessState : Type 0 where
  runnable running blocked : ProcessState

-- `struct process`
pub record Process : Type 0 where
  pub pid : ℕ
  pub state : ProcessState
  pub saved_rsp : ℕ
  pub kernel_stack : ℕ
  pub next : Option ℕ

abbrev pub process_stack_size : ℕ
process_stack_size = 64 * 1024

abbrev pub max_processes : ℕ
max_processes = 8

-- The static variables of process.c, with the heap, the stack memory, the timer and the ports that
-- its functions act on.
pub record Kernel : Type 0 where
  pub processes : ℕ → Process
  pub process_count : ℕ
  pub current_process : Option ℕ
  pub run_list : Option ℕ
  pub next_pid : ℕ
  pub heap : Heap
  pub memory : ℕ → ℕ
  pub timer_ms : ℕ
  pub ports : Ports

unfoldable pub alloc_process : Kernel → Option ℕ × Kernel
alloc_process k =
    if leb max_processes k.process_count
    then (none, k)
    else (some k.process_count, record k { process_count = k.process_count + 1 })

-- for (i = 0; i < 15; i++) *(uint64_t *)(saved + i * 8) = 0;
unfoldable pub clear_registers : ℕ → ℕ → (ℕ → ℕ) → ℕ → ℕ
clear_registers zero saved memory = memory
clear_registers (suc i) saved memory = update (clear_registers i saved memory) (saved + i * 8) 0

-- The stack top is rounded down to a multiple of 16.
abbrev pub stack_top : ℕ → ℕ
stack_top stack = u64 (stack + process_stack_size) / 16 * 16

-- The six words below the register words: vector, rip, cs, rflags, rsp, ss.
unfoldable pub write_frame : ℕ → ℕ → (ℕ → ℕ) → ℕ → ℕ
write_frame saved entry memory =
    let m1 = update memory (saved - 8) 32 in
    let m2 = update m1 (saved - 16) entry in
    let m3 = update m2 (saved - 24) 0x08 in
    let m4 = update m3 (saved - 32) 0x202 in
    let m5 = update m4 (saved - 40) 0 in update m5 (saved - 48) 0x10

-- The new memory and the saved stack pointer. `stack_top -= 8` runs below the top of a stack of
-- 64 KiB, so it stays above 0.
unfoldable pub process_setup_stack : ℕ → ℕ → (ℕ → ℕ) → (ℕ → ℕ) × ℕ
unfolding clear_registers write_frame
process_setup_stack stack entry memory =
    let saved = stack_top stack - 8 * 15 in
    (clear_registers 15 saved (write_frame saved entry memory), saved)

-- What the processor holds after `context_switch_to`: the registers in the order in which they are
-- popped, and the words that `iretq` takes.
pub record Resumed : Type 0 where
  pub registers : List ℕ
  pub rip : ℕ
  pub cs : ℕ
  pub rflags : ℕ
  pub rsp : ℕ
  pub ss : ℕ

-- `n` instructions `pop`: the words, and the stack pointer behind them.
unfoldable pub pop_registers : ℕ → (ℕ → ℕ) → ℕ → List ℕ × ℕ
pop_registers zero memory rsp = ([], rsp)
pop_registers (suc n) memory rsp =
    let (words, after) = pop_registers n memory (rsp + 8) in (memory rsp ∷ words, after)

-- Fifteen registers, a word that is skipped, and the frame of `iretq`.
unfoldable pub context_switch_to : ℕ → (ℕ → ℕ) → Resumed
context_switch_to new_rsp memory =
    let (popped, vector) = pop_registers 15 memory new_rsp in
    let frame = vector + 8 in
    record {
      registers = popped;
      rip = memory frame;
      cs = memory (frame + 8);
      rflags = memory (frame + 16);
      rsp = memory (frame + 24);
      ss = memory (frame + 32);
    }

-- The last part of `process_create`: the process goes behind the tail, and becomes the tail.
unfoldable pub enqueue_last : ℕ → Kernel → Kernel
enqueue_last p k = elim k.run_list [
  | none ↦ record k {
    processes = update k.processes p (record (k.processes p) { next = some p });
    run_list = some p;
  }
  | some l ↦
      let linked = update k.processes p (record (k.processes p) { next = (k.processes l).next }) in
      record k {
        processes = update linked l (record (linked l) { next = some p });
        run_list = some p;
      }
]

-- The middle part of `process_create`, once the stack is there.
unfoldable pub fill_process : ℕ → ℕ → ℕ → Kernel → Kernel
unfolding process_setup_stack
fill_process p stack entry k =
    let (memory', saved) = process_setup_stack stack entry k.memory in
    record k {
      processes = update k.processes p (record {
        pid = k.next_pid;
        state = runnable;
        saved_rsp = saved;
        kernel_stack = stack;
        next = none;
      });
      next_pid = u64 (k.next_pid + 1);
      memory = memory';
    }

-- A slot that was allocated stays taken where `kmalloc` then fails; its stack pointer is null.
unfoldable pub process_create : ℕ → Kernel → Kernel
unfolding alloc_process enqueue_last fill_process
process_create entry k =
    let (slot, k1) = alloc_process k in
    let (block, h) = kmalloc process_stack_size k1.heap in
    elim slot [
      | none ↦ k1
      | some p ↦ elim block [
        | none ↦ record k1 {
          processes = update k1.processes p (record (k1.processes p) { kernel_stack = 0 });
          heap = h;
        }
        | some stack ↦ enqueue_last p (fill_process p stack entry (record k1 { heap = h }))
      ]
    ]

unfoldable process_init : ℕ → Kernel → Kernel
process_init idle_loop k =
    process_create idle_loop
      (record k { process_count = 0; current_process = none; run_list = none; next_pid = 1 })

-- `timer_tick` of src/kernel/drivers/timer.c
unfoldable timer_tick : Kernel → Kernel
timer_tick k = record k { timer_ms = u32 (k.timer_ms + 10) }

abbrev set_state : ℕ → ProcessState → Kernel → Kernel
set_state p s k = record k {
  processes = update k.processes p (record (k.processes p) { state = s });
}

-- The switch away from `c`, which was interrupted with the stack pointer `rsp`.
unfoldable switch_from : ℕ → ℕ → Kernel → ℕ × Kernel
switch_from c rsp k =
    let k1 = record k {
      processes =
          update k.processes c (record (k.processes c) { saved_rsp = rsp; state = runnable });
    } in
    elim (k1.processes c).next [
      | none ↦ (rsp, k1)
      | some n ↦
          let k2 = set_state n running (record k1 { current_process = some n }) in
          ((k2.processes n).saved_rsp, k2)
    ]

-- The stack pointer to continue with, and the new state.
unfoldable pub scheduler_tick : ℕ → Kernel → ℕ × Kernel
unfolding timer_tick switch_from irq_eoi
scheduler_tick current_rsp k =
    let k1 = timer_tick (record k { ports = irq_eoi 0 k.ports }) in
    elim k1.current_process [ none ↦ (current_rsp, k1) | some c ↦ switch_from c current_rsp k1 ]

unfoldable process_set_current : Option ℕ → Kernel → Kernel
process_set_current none k = record k { current_process = none }
process_set_current (some p) k = set_state p running (record k { current_process = some p })

unfoldable process_add_runnable : ℕ → Kernel → Kernel
process_add_runnable p k = elim k.run_list [
  | none ↦ record k {
    processes = update k.processes p (record (k.processes p) { next = some p });
    run_list = some p;
  }
  | some l ↦
      let linked = update k.processes p (record (k.processes p) { next = (k.processes l).next }) in
      record k { processes = update linked l (record (linked l) { next = some p }) }
]

-- The stack pointer that `context_switch_to` is given, if there is a process to run.
unfoldable scheduler_first_run : Kernel → Option ℕ × Kernel
scheduler_first_run k = elim k.run_list [
  | none ↦ (none, k)
  | some l ↦
      let k1 = set_state l running (record k { current_process = some l }) in
      (some (k1.processes l).saved_rsp, k1)
]
