-- ===== src/Thread/Tests.antt =====
-- The scheduler's theorems at a state with four threads.
use jack_os.Base.{◌≡◌, refl, inr, some, [], ◌∷◌, arith, ◌==◌, if◌then◌else◌}
use jack_os.Interrupt.{intr_off}
use jack_os.Thread.{
  TaskStatus, task_running, task_ready, task_blocked, task_waiting, Tid, Kernel, thread_block,
}
use jack_os.Thread.Queue.{IsValid, SameSleepers}
use jack_os.Thread.Calls.{thread_block_lem, put_to_sleep}
use jack_os.Thread.Fair.{schedules, schedules-current}

abbrev four_threads : Tid → TaskStatus
four_threads t =
    if t == 1
    then task_running
    else if t == 2
    then task_ready
    else if t == 3
    then task_ready
    else if t == 9
    then task_blocked
    else task_waiting

-- Thread 1 runs, 2 and 3 are ready, 4 waits, and 9 is the idle thread.
abbrev pub busy : Kernel
busy = record {
  ready_list = 2 ∷ 3 ∷ [];
  status = four_threads;
  this_tick = λ t. 0;
  time_slice = λ t. 31;
  total_ticks = λ t. 5;
  stack_magic = λ t. 0x20010107;
  current = 1;
  idle_thread = 9;
  ticks = 70;
  intr = intr_off;
}

pub busy-IsValid : IsValid busy
busy-IsValid = record {
  queue = record {
    distinct = ((λ e. ground arith, tt), (tt, tt));
    queued = λ t e. ground arith;
    ready = λ t e. ground arith;
    single = λ t e. ground arith;
    idle = inr (inr refl);
  };
  running = refl;
}

thread_block_lem_example :
    (k' : Kernel) × (thread_block task_waiting busy ≡ some k')
    × IsValid k'
    × (k'.current ∷ k'.ready_list ≡ 2 ∷ 3 ∷ [])
    × SameSleepers (put_to_sleep busy-IsValid task_waiting) k'
    × (k'.intr ≡ intr_off)
thread_block_lem_example = thread_block_lem busy-IsValid task_waiting refl (λ e. ground arith)

schedules-current_example :
    (k' : Kernel) × (schedules 2 busy ≡ some k') × (k'.current ≡ 3) × IsValid k'
schedules-current_example = schedules-current (2 ∷ []) [] 3 busy-IsValid refl refl
