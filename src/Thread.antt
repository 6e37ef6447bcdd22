-- ===== src/Thread.antt =====
-- The scheduler of thread/thread.c, from `thread_block` to `schedule`, and the timer's handler of
-- device/timer.c. A thread is a number, the ready list is the sequence that it stands for (KernelList
-- shows that the linked lists behave as sequences), and a field of the threads is a family.
-- A function returns the state at which the CPU changes hands, or at its end. `none` is a panic.
-- `process_activate` loads the page directory and the TSS, and touches nothing of this state.
pub mod Queue
pub mod Wake
pub mod Schedule
pub mod Calls
pub mod Fair
pub mod Tests
use jack_os.Base.{
  ℕ, zero, suc, ◌+◌, ◌-◌, ◌%◌, Bool, true, false, not, ◌||◌, Option, none, some, List, [], ◌∷◌,
  ◌++◌, has, ◌==◌, if◌then◌else◌, update, assert, ◌>>=◌, ◌>>◌,
}
use jack_os.Interrupt.{IntrStatus, intr_off, intr_on, intr_disable, intr_set_status}

pub data TaskStatus : Type 0 where
  task_running task_ready task_blocked task_waiting task_hanging task_died : TaskStatus

abbrev pub Tid : Type 0
Tid = ℕ

pub record Kernel : Type 0 where
  -- `thread_ready_list`, first element first
  pub ready_list : List Tid
  pub status : Tid → TaskStatus
  pub this_tick : Tid → ℕ
  pub time_slice : Tid → ℕ
  pub total_ticks : Tid → ℕ
  pub stack_magic : Tid → ℕ
  -- `running_thread()`, `idle_thread`, the kernel's `ticks`, and the interrupt flag
  pub current : Tid
  pub idle_thread : Tid
  pub ticks : ℕ
  pub intr : IntrStatus

-- `status == TASK_RUNNING`
abbrev pub is_running : TaskStatus → Bool
is_running task_running = true
is_running _ = false

-- `status != TASK_READY`
abbrev pub is_ready : TaskStatus → Bool
is_ready task_ready = true
is_ready _ = false

-- The statuses that a thread may be blocked with.
abbrev pub sleeps : TaskStatus → Bool
sleeps task_blocked = true
sleeps task_hanging = true
sleeps task_waiting = true
sleeps _ = false

abbrev pub is_off : IntrStatus → Bool
is_off intr_off = true
is_off intr_on = false

abbrev pub is_empty : List Tid → Bool
is_empty [] = true
is_empty (x ∷ xs) = false

unfoldable pub thread_unblock : Tid → Kernel → Option Kernel
unfolding intr_disable intr_set_status
thread_unblock tcb k = do
  let (old_status, off) = intr_disable k.intr
  assert (sleeps (k.status tcb))
  k ←
      (if not (is_ready (k.status tcb))
        then (do
          assert (not (has tcb k.ready_list))
          some (record k {
            ready_list = tcb ∷ k.ready_list;
            status = update k.status tcb task_ready;
          }))
        else some k)
  some (record k { intr = (intr_set_status old_status off).1 })

-- A thread whose time slice is used up goes to the end of the ready list.
unfoldable pub requeue : Kernel → Option Kernel
requeue k =
    if is_running (k.status k.current)
    then (do
      assert (not (has k.current k.ready_list))
      some (record k {
        ready_list = k.ready_list ++ k.current ∷ [];
        this_tick = update k.this_tick k.current (k.time_slice k.current);
        status = update k.status k.current task_ready;
      }))
    else some k

-- `list_pop` and `switch_to`
unfoldable pub switch : List Tid → Kernel → Option Kernel
switch [] k = none
switch (next ∷ rest) k =
    some
      (record k { ready_list = rest; status = update k.status next task_running; current = next })

unfoldable pub schedule : Kernel → Option Kernel
schedule k = do
  assert (is_off k.intr)
  k ← requeue k
  k ← (if is_empty k.ready_list then thread_unblock k.idle_thread k else some k)
  switch k.ready_list k

unfoldable pub thread_block : TaskStatus → Kernel → Option Kernel
unfolding intr_disable
thread_block st k = do
  assert (sleeps st)
  schedule (record k { status = update k.status k.current st; intr = (intr_disable k.intr).1 })

unfoldable pub thread_yield : Kernel → Option Kernel
unfolding intr_disable
thread_yield k = do
  assert (not (has k.current k.ready_list))
  schedule (record k {
    ready_list = k.ready_list ++ k.current ∷ [];
    status = update k.status k.current task_ready;
    intr = (intr_disable k.intr).1;
  })

-- The handler runs with the flag clear. `total_ticks` and `ticks` are `uint32_t`.
unfoldable pub intr_timer_handler : Kernel → Option Kernel
intr_timer_handler k = do
  assert (k.stack_magic k.current == 0x20010107)
  let k = record k {
    total_ticks = update k.total_ticks k.current ((k.total_ticks k.current + 1) % 0x1_0000_0000);
    ticks = (k.ticks + 1) % 0x1_0000_0000;
  }
  if k.this_tick k.current == 0
      then schedule k
      else some (record k { this_tick = update k.this_tick k.current (k.this_tick k.current - 1) })
