-- ===== src/Kernel/Tests.antt =====
-- The kernel's theorems at concrete inputs.
use bonfire_os.Base.{ℕ, ◌+◌, ◌<◌, ◌≤◌, ◌≡◌, refl, arith, none, some, List, [], ◌∷◌, replicate, ◌%◌}
use bonfire_os.Kernel.Heap.{Heap, kmalloc, IsValid, kmalloc-block}
use bonfire_os.Kernel.Arch.{idt_init, Gate, IdtEntry, idt_init-Gate}
use bonfire_os.Kernel.Process.{
  Kernel, Process, runnable, enqueue_last, process_create, process_setup_stack, context_switch_to,
}
use bonfire_os.Kernel.Process.Ring.{IsRing, enqueue_last_first, enqueue_last-IsRing}
use bonfire_os.Kernel.Process.Stack.{process_setup_stack-switch}
use bonfire_os.Kernel.Process.Create.{process_create-IsRing}

abbrev heap : Heap
heap = record { heap_start = 0x100000; heap_cur = 0x100000; heap_end = 0x200000 }

heap-IsValid : IsValid heap
heap-IsValid = record {
  start_le_cur = omega arith;
  cur_le_end = omega arith;
  end_low = omega arith;
  aligned = refl;
}

kmalloc-block_example :
    (0x100000 ≡ heap.heap_cur)
    × (0x100000 % 8 ≡ 0)
    × (0x100000 + 13 ≤ (kmalloc 13 heap).1.heap_cur)
    × ((kmalloc 13 heap).1.heap_cur < 0x100000 + 13 + 8)
    × IsValid (kmalloc 13 heap).1
unfolding kmalloc
kmalloc-block_example = kmalloc-block 13 heap heap-IsValid (omega arith) refl

abbrev exceptions : List ℕ
exceptions = replicate 32 0x1000

abbrev no_gate : IdtEntry
no_gate = record {
  offset_low = 0;
  selector = 0;
  ist = 0;
  type_attr = 0;
  offset_mid = 0;
  offset_high = 0;
}

idt_init-Gate_example :
    Gate 0x1000 (idt_init exceptions (0x2000 ∷ 0x2100 ∷ []) (λ i. no_gate) 14)
    × Gate 0x2100 (idt_init exceptions (0x2000 ∷ 0x2100 ∷ []) (λ i. no_gate) (32 + 1))
idt_init-Gate_example =
    idt_init-Gate exceptions (0x2000 ∷ 0x2100 ∷ []) (λ i. no_gate) 14 1 refl refl refl (omega arith)
      (omega arith)

process_setup_stack-switch_example :
    let (m, saved) = process_setup_stack 0x100000 0x4000 (λ a. 7) in
    let cpu = context_switch_to saved m in
    (cpu.registers ≡ replicate 15 0)
    × (cpu.rip ≡ 7)
    × (cpu.cs ≡ 7)
    × (cpu.rflags ≡ 7)
    × (cpu.rsp ≡ 7)
    × (cpu.ss ≡ 7)
process_setup_stack-switch_example =
    process_setup_stack-switch 0x100000 0x4000 (λ a. 7) (omega arith)

abbrev no_process : Process
no_process = record { pid = 0; state = runnable; saved_rsp = 0; kernel_stack = 0; next = none }

abbrev empty : Kernel
empty = record {
  processes = λ i. no_process;
  process_count = 3;
  current_process = some 1;
  run_list = none;
  next_pid = 4;
  heap = heap;
  memory = λ a. 0;
  timer_ms = 0;
  ports = [];
}

abbrev one : Kernel
one = enqueue_last 0 empty

abbrev two : Kernel
two = enqueue_last 1 one

abbrev three : Kernel
three = enqueue_last 2 two

two-IsRing : IsRing two 1 (0 ∷ [])
two-IsRing = enqueue_last-IsRing 1 0 one [] (enqueue_last_first 0 empty refl) (omega arith) tt

three-IsRing : IsRing three 2 (0 ∷ 1 ∷ [])
three-IsRing = enqueue_last-IsRing 2 1 two (0 ∷ []) two-IsRing (omega arith) (omega arith, tt)

process_create-IsRing_example : IsRing (process_create 0x4000 three) 3 (0 ∷ 1 ∷ 2 ∷ [])
unfolding kmalloc enqueue_last
process_create-IsRing_example =
    process_create-IsRing 0x4000 2 three (0 ∷ 1 ∷ []) {stack = 0x100000} three-IsRing
      (omega arith, (omega arith, (omega arith, tt))) (omega arith) refl

abbrev at_tail : Kernel
at_tail = enqueue_last 1 (enqueue_last 0 (record empty { process_count = 2 }))
