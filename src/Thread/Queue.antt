-- ===== src/Thread/Queue.antt =====
-- The invariant of the scheduler's state.
use jack_os.Base.{◌≡◌, ◌≢◌, ◌∙◌, ◌⊎◌, Bool, true, false, arith, has, Distinct}
use jack_os.Interrupt.{IntrStatus}
use jack_os.Thread.{TaskStatus, task_running, task_ready, task_blocked, Tid, Kernel}

-- The ready list holds each thread of status TASK_READY, once, and no other; only the current thread
-- may be running; the idle thread runs, is ready or is blocked.
pub record IsQueued (k : Kernel) : Type 0 where
  pub distinct : Distinct k.ready_list
  pub queued : (t : Tid) → k.status t ≡ task_ready → has t k.ready_list ≡ true
  pub ready : (t : Tid) → has t k.ready_list ≡ true → k.status t ≡ task_ready
  pub single : (t : Tid) → k.status t ≡ task_running → t ≡ k.current
  pub idle :
      (k.status k.idle_thread ≡ task_running)
      ⊎ (k.status k.idle_thread ≡ task_ready)
      ⊎ (k.status k.idle_thread ≡ task_blocked)

-- Between two calls the current thread is running, too.
pub record IsValid (k : Kernel) : Type 0 where
  pub queue : IsQueued k
  pub running : k.status k.current ≡ task_running

-- No thread is running: the state in which the next thread is chosen.
pub record IsParted (k : Kernel) : Type 0 where
  pub queue : IsQueued k
  pub none_running : (t : Tid) → k.status t ≢ task_running

-- A thread that runs or is ready.
abbrev pub is_awake : TaskStatus → Bool
is_awake task_running = true
is_awake task_ready = true
is_awake _ = false

-- Between `k` and `k'` no thread but the idle one went to sleep or was woken.
pub record SameSleepers (k k' : Kernel) : Type 0 where
  pub idle_thread : k'.idle_thread ≡ k.idle_thread
  pub asleep :
      (t : Tid) → t ≢ k.idle_thread → is_awake (k.status t) ≡ false → k'.status t ≡ k.status t
  pub were_asleep :
      (t : Tid) → t ≢ k.idle_thread → is_awake (k'.status t) ≡ false → k'.status t ≡ k.status t

pub SameSleepers-trans :
    {k1 k2 k3 : Kernel} → SameSleepers k1 k2 → SameSleepers k2 k3 → SameSleepers k1 k3
SameSleepers-trans a b = record {
  idle_thread = b.idle_thread ∙ a.idle_thread;
  asleep = λ t ne s. ground (arith, a.asleep t, b.asleep t, a.idle_thread);
  were_asleep = λ t ne s. ground (arith, a.were_asleep t, b.were_asleep t, a.idle_thread);
}

-- The invariant says nothing of the interrupt flag.
pub flag-IsQueued : {k : Kernel} (i : IntrStatus) → IsQueued k → IsQueued (record k { intr = i })
flag-IsQueued i q = record {
  distinct = q.distinct;
  queued = q.queued;
  ready = q.ready;
  single = q.single;
  idle = q.idle;
}

pub flag-IsValid : {k : Kernel} (i : IntrStatus) → IsValid k → IsValid (record k { intr = i })
flag-IsValid i v = record { queue = flag-IsQueued i v.queue; running = v.running }
