-- ===== src/Sync/System.antt =====
-- Threads that use one mutex, preempted by the timer between two pieces of their calls.
use jack_os.Base.{◌≡◌, ◌≢◌, Option, some, if◌then◌else◌, update, ◌>>=◌, ◌<◌, ◌+◌}
use jack_os.Interrupt.{intr_off}
use jack_os.Thread.{Tid, Kernel, schedule}
use jack_os.Sync.{Mutex, sema_down_round, sema_up, acquire_enter, acquire_finish, release_enter}

-- Where a thread stands: outside; at the test of `sema_down`; behind `sema_down`; between
-- `mutex_acquire` and `mutex_release`; before `sema_up`.
pub data Pc : Type 0 where
  outside down got inside up : Pc

pub record System : Type 0 where
  pub kernel : Kernel
  pub mutex : Mutex
  pub pc : Tid → Pc

abbrev pub at : System → Pc → System
at s p = record s { pc = update s.pc s.kernel.current p }

unfoldable pub do_acquire : System → System
do_acquire s =
    let (must_wait, mutex) = acquire_enter s.kernel.current s.mutex in
    at (record s { mutex = mutex }) (if must_wait then down else inside)

unfoldable pub do_release : System → Option System
do_release s = do
  (given_back, mutex) ← release_enter s.kernel.current s.mutex
  some (at (record s { mutex = mutex }) (if given_back then up else inside))

-- One round of `sema_down`.
unfoldable pub do_down : System → Option System
do_down s = do
  (through, semaphore, kernel) ← sema_down_round s.mutex.semaphore s.kernel
  let pc = update s.pc s.kernel.current (if through then got else down)
  some (record { kernel = kernel; mutex = record s.mutex { semaphore = semaphore }; pc = pc })

unfoldable pub do_got : System → Option System
do_got s = do
  mutex ← acquire_finish s.kernel.current s.mutex
  some (at (record s { mutex = mutex }) inside)

unfoldable pub do_up : System → Option System
do_up s = do
  (semaphore, kernel) ← sema_up s.mutex.semaphore s.kernel
  let pc = update s.pc s.kernel.current outside
  some (record { kernel = kernel; mutex = record s.mutex { semaphore = semaphore }; pc = pc })

-- The interrupt clears the flag.
unfoldable pub do_tick : System → Option System
do_tick s = do
  kernel ← schedule (record s.kernel { intr = intr_off })
  some (record s { kernel = kernel })

-- What the threads do to the mutex, and the timer to them: the current thread calls `mutex_acquire` or
-- `mutex_release`, or goes on with the next piece of the call that it is in, or the timer takes the CPU
-- away from it. A thread acquires from outside, or again from inside, fewer than 2^32 times in all; the
-- idle thread never does; a thread releases from inside. `none` is a step that panics.
pub data Step (s : System) (r : Option System) : Type 0 where
  first_acquire :
      s.pc s.kernel.current ≡ outside
      → s.kernel.current ≢ s.kernel.idle_thread
      → r ≡ some (do_acquire s)
      → Step s r
  next_acquire :
      s.pc s.kernel.current ≡ inside
      → s.mutex.holder_repeat_nr + 1 < 0x1_0000_0000
      → r ≡ some (do_acquire s)
      → Step s r
  release : s.pc s.kernel.current ≡ inside → r ≡ do_release s → Step s r
  try_down : s.pc s.kernel.current ≡ down → r ≡ do_down s → Step s r
  finish_acquire : s.pc s.kernel.current ≡ got → r ≡ do_got s → Step s r
  give_back : s.pc s.kernel.current ≡ up → r ≡ do_up s → Step s r
  tick : r ≡ do_tick s → Step s r

-- What is reached from `s` in any number of steps.
pub data Reach (s : System) : Option System → Type 0 where
  start : Reach s (some s)
  later : {r : Option System} (t : System) → Reach s (some t) → Step t r → Reach s r
