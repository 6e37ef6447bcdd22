-- ===== src/Thread/Calls.antt =====
-- `thread_block`, `thread_unblock`, `thread_yield` of thread/thread.c and the timer's handler: none
-- panics in a valid state, each keeps the state valid, and each does to the ready list what it should.
use jack_os.Base.{
  ◌+◌, ◌-◌, ◌%◌, ◌≡◌, refl, ◌∙◌, ap, inl, inr, true, false, some, [], ◌∷◌, ◌++◌, arith, has,
  append-nil, has-append, has→not-mem, Distinct-snoc, if◌then◌else◌, ◌==◌, update, Bool-cases,
}
use jack_os.Interrupt.{IntrStatus, intr_off, intr_disable}
use jack_os.Thread.{
  TaskStatus, task_ready, task_blocked, Tid, Kernel, is_running, sleeps, thread_unblock,
  thread_block, thread_yield, intr_timer_handler,
}
use jack_os.Thread.Queue.{IsQueued, IsValid, SameSleepers}
use jack_os.Thread.Wake.{unblocked, unblock-eq, unblocked-IsQueued}
use jack_os.Thread.Schedule.{or_idle, or_idle-snoc, waiting_line, schedule_lem}

pub disable-off : (i : IntrStatus) → (intr_disable i).1 ≡ intr_off
unfolding intr_disable
disable-off i = ground arith

module _ {k : Kernel} (v : IsValid k) where
  pub current-out : has k.current k.ready_list ≡ false
  current-out = elim (Bool-cases (has k.current k.ready_list)) [
    | inl i ↦ let e = v.queue.ready k.current i in let r = v.running in cc
    | inr o ↦ o
  ]

  abbrev pub put_to_sleep : TaskStatus → Kernel
  put_to_sleep st = record k {
    status = update k.status k.current st;
    intr = (intr_disable k.intr).1;
  }

  put_to_sleep-IsQueued :
      (st : TaskStatus)
      → sleeps st ≡ true
      → (k.current ≡ k.idle_thread → st ≡ task_blocked)
      → IsQueued (put_to_sleep st)
  put_to_sleep-IsQueued st s idle = record {
    distinct = v.queue.distinct;
    queued = λ u e. ground (arith, v.queue.queued u);
    ready = λ u i. ground (arith, v.queue.ready u, current-out);
    single = λ u e. ground (arith, v.queue.single u);
    idle = ground (arith, v.queue.idle, idle);
  }

  no_requeue : (st : TaskStatus) → sleeps st ≡ true → waiting_line (put_to_sleep st) ≡ k.ready_list
  no_requeue st s =
      let e : is_running (update k.status k.current st k.current) ≡ false = ground arith in
      rw (e, append-nil) refl

  abbrev stepped_back : Kernel
  stepped_back = record k {
    ready_list = k.ready_list ++ k.current ∷ [];
    status = update k.status k.current task_ready;
    intr = (intr_disable k.intr).1;
  }

  stepped_back-IsQueued : IsQueued stepped_back
  stepped_back-IsQueued = record {
    distinct =
        Distinct-snoc k.ready_list k.current v.queue.distinct
          (has→not-mem k.current k.ready_list current-out);
    queued = λ u e. ground (arith, v.queue.queued u, has-append u k.ready_list (k.current ∷ []));
    ready = λ u i. ground (arith, v.queue.ready u, has-append u k.ready_list (k.current ∷ []));
    single = λ u e. ground (arith, v.queue.single u);
    idle = ground (arith, v.queue.idle);
  }

  stepped_back_line :
      or_idle k.idle_thread (waiting_line stepped_back) ≡ k.ready_list ++ k.current ∷ []
  stepped_back_line =
      let e : is_running (update k.status k.current task_ready k.current) ≡ false = ground arith in
      rw (e, append-nil) (or_idle-snoc k.idle_thread k.current k.ready_list)

  -- `thread_block` with a status to sleep with (for the idle thread: TASK_BLOCKED) does not panic. It
  -- gives the CPU to the first ready thread, or to the idle thread if none is ready, in a valid state in
  -- which the caller sleeps with that status (unless it is the idle thread) and so does who slept before.
  pub thread_block_lem :
      (st : TaskStatus)
      → sleeps st ≡ true
      → (k.current ≡ k.idle_thread → st ≡ task_blocked)
      → (k' : Kernel) × (thread_block st k ≡ some k')
        × IsValid k'
        × (k'.current ∷ k'.ready_list ≡ or_idle k.idle_thread k.ready_list)
        × SameSleepers (put_to_sleep st) k'
        × (k'.intr ≡ intr_off)
  unfolding thread_block
  thread_block_lem st s idle =
      let (k', e, valid, line, same, off) =
        schedule_lem (put_to_sleep-IsQueued st s idle) (disable-off k.intr) in
      (k', rw s e, valid, line ∙ ap (or_idle k.idle_thread) (no_requeue st s), same, off)

  -- `thread_yield` does not panic. It gives the CPU to the first ready thread, and the thread that
  -- yields comes last in the ready list; if no thread is ready, it goes on itself.
  pub thread_yield_lem :
      (k' : Kernel) × (thread_yield k ≡ some k')
      × IsValid k'
      × (k'.current ∷ k'.ready_list ≡ k.ready_list ++ k.current ∷ [])
      × (k'.intr ≡ intr_off)
  unfolding thread_yield
  thread_yield_lem =
      let (k', e, valid, line, same, off) =
        schedule_lem stepped_back-IsQueued (disable-off k.intr) in
      (k', rw current-out e, valid, line ∙ stepped_back_line, off)

  -- `thread_unblock` of a sleeping thread does not panic. It makes that thread the first of the ready
  -- list, in a valid state, and leaves the CPU and the interrupt flag as they are.
  pub thread_unblock_lem :
      (t : Tid)
      → sleeps (k.status t) ≡ true
      → (k' : Kernel) × (thread_unblock t k ≡ some k')
        × IsValid k'
        × (k'.ready_list ≡ t ∷ k.ready_list)
        × (k'.status t ≡ task_ready)
        × (k'.current ≡ k.current)
        × (k'.intr ≡ k.intr)
  thread_unblock_lem t s = (
    unblocked t k,
    unblock-eq v.queue t s,
    record { queue = unblocked-IsQueued v.queue t s; running = ground (arith, v.running) },
    refl,
    ground arith,
    refl,
    refl,
  )

  abbrev ticked : Kernel
  ticked = record k {
    total_ticks = update k.total_ticks k.current ((k.total_ticks k.current + 1) % 0x1_0000_0000);
    ticks = (k.ticks + 1) % 0x1_0000_0000;
  }

  ticked-IsQueued : IsQueued ticked
  ticked-IsQueued = record {
    distinct = v.queue.distinct;
    queued = v.queue.queued;
    ready = v.queue.ready;
    single = v.queue.single;
    idle = v.queue.idle;
  }

  ticked_line : or_idle k.idle_thread (waiting_line ticked) ≡ k.ready_list ++ k.current ∷ []
  ticked_line =
      let e : is_running (k.status k.current) ≡ true = rw v.running refl in
      rw e (or_idle-snoc k.idle_thread k.current k.ready_list)

  abbrev counted : Kernel
  counted = record ticked { this_tick = update k.this_tick k.current (k.this_tick k.current - 1) }

  counted-IsValid : IsValid counted
  counted-IsValid = record {
    queue = record {
      distinct = v.queue.distinct;
      queued = v.queue.queued;
      ready = v.queue.ready;
      single = v.queue.single;
      idle = v.queue.idle;
    };
    running = v.running;
  }

  -- The timer's handler, entered with the flag clear and the thread's stack in order, does not panic
  -- and keeps the state valid. A thread with ticks left goes on with one less; one whose ticks are used
  -- up goes to the end of the ready list, and the first thread of that list gets the CPU.
  intr_timer_handler_lem :
      k.intr ≡ intr_off
      → k.stack_magic k.current ≡ 0x20010107
      → (k' : Kernel) × (intr_timer_handler k ≡ some k')
        × IsValid k'
        × (if k.this_tick k.current == 0
            then k'.current ∷ k'.ready_list ≡ k.ready_list ++ k.current ∷ []
            else (k'.current ≡ k.current)
              × (k'.ready_list ≡ k.ready_list)
              × (k'.this_tick k.current + 1 ≡ k.this_tick k.current))
  unfolding intr_timer_handler
  intr_timer_handler_lem off magic = elim (Bool-cases (k.this_tick k.current == 0)) [
    | inl done ↦
        let (k', e, valid, line, same, off') = schedule_lem ticked-IsQueued off in
        (k', rw (magic, done) e, valid, rw done (line ∙ ticked_line))
    | inr more ↦
        (counted, rw (magic, more) refl, counted-IsValid, rw more (refl, refl, ground arith))
  ]
