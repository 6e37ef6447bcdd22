-- ===== src/Sync.antt =====
-- The semaphores and mutexes of thread/sync.c, over the scheduler of `Thread`. A function is cut into
-- pieces where it gives the CPU away or calls the semaphore: `sema_down` is one round of its loop, and
-- `mutex_acquire` and `mutex_release` are what stands before and behind their call of it. A piece is
-- taken as run without interruption. In `sema_down` and `sema_up` interrupts are off; the other pieces,
-- of a few statements each, run with interrupts on, and that the timer comes between their statements
-- is not followed. The waiters' list is the sequence that it stands for.
pub mod System
pub mod Inv
pub mod Enter
pub mod Turn
pub mod Down
pub mod Up
pub mod Safety
mod Tests
use jack_os.Base.{
  ℕ, ◌+◌, ◌-◌, ◌%◌, Bool, true, false, not, Option, none, some, List, [], ◌∷◌, ◌++◌, has, ltb, ◌==◌,
  if◌then◌else◌, assert, ◌>>=◌, ◌>>◌,
}
use jack_os.Interrupt.{intr_disable, intr_set_status}
use jack_os.Thread.{Tid, Kernel, task_blocked, thread_block, thread_unblock}

pub record Semaphore : Type 0 where
  pub value : ℕ
  pub waiters : List Tid

-- `holder` is `none` for NULL.
pub record Mutex : Type 0 where
  pub holder : Option Tid
  pub semaphore : Semaphore
  pub holder_repeat_nr : ℕ

unfoldable pub sema_init : ℕ → Semaphore
sema_init value = record { value = value % 256; waiters = [] }

-- One round of the loop, from its test on: whether the thread gets through, or has gone to sleep and
-- comes back to the test when it is woken. The interrupt flag is clear within the round; that it is set
-- back to what it was when the thread leaves `sema_down` is not followed, nor does it matter to the
-- other functions, which clear the flag before they rely on it.
unfoldable pub sema_down_round : Semaphore → Kernel → Option (Bool × Semaphore × Kernel)
sema_down_round sema k =
    if sema.value == 0
    then (do
      assert (not (has k.current sema.waiters))
      let sema = record sema { waiters = sema.waiters ++ k.current ∷ [] }
      k ← thread_block task_blocked (record k { intr = (intr_disable k.intr).1 })
      some (false, sema, k))
    else (do
      let sema = record sema { value = sema.value - 1 }
      assert (sema.value == 0)
      some (true, sema, k))

-- The waiters: `list_empty`, `list_pop`, and `thread_unblock` of the thread popped.
unfoldable pub wake_first : List Tid → Kernel → Option (List Tid × Kernel)
wake_first [] k = some ([], k)
wake_first (blocked_thread ∷ rest) k = do k ← thread_unblock blocked_thread k; some (rest, k)

-- `value` is a `uint8_t`.
unfoldable pub sema_up : Semaphore → Kernel → Option (Semaphore × Kernel)
unfolding wake_first
sema_up sema k = do
  let (old_status, off) = intr_disable k.intr
  assert (sema.value == 0)
  (waiters, k) ← wake_first sema.waiters (record k { intr = off })
  let sema = record sema { value = (sema.value + 1) % 256; waiters = waiters }
  assert (sema.value == 1)
  some (sema, record k { intr = (intr_set_status old_status k.intr).1 })

unfoldable pub mutex_init : Mutex
mutex_init = record { holder = none; semaphore = sema_init 1; holder_repeat_nr = 0 }

abbrev pub holds : Option Tid → Tid → Bool
holds none t = false
holds (some u) t = u == t

-- The test of `mutex_acquire`: whether the thread must take the semaphore, or holds the mutex and
-- counts one more acquisition (a `uint32_t`).
unfoldable pub acquire_enter : Tid → Mutex → Bool × Mutex
acquire_enter t mutex =
    if not (holds mutex.holder t)
    then (true, mutex)
    else (false, record mutex { holder_repeat_nr = (mutex.holder_repeat_nr + 1) % 0x1_0000_0000 })

-- Behind `sema_down`.
unfoldable pub acquire_finish : Tid → Mutex → Option Mutex
acquire_finish t mutex = do
  let mutex = record mutex { holder = some t }
  assert (mutex.holder_repeat_nr == 0)
  some (record mutex { holder_repeat_nr = 1 })

-- Before `sema_up`: whether the mutex is given back, or was acquired more than once.
unfoldable pub release_enter : Tid → Mutex → Option (Bool × Mutex)
release_enter t mutex = do
  assert (holds mutex.holder t)
  if ltb 1 mutex.holder_repeat_nr
      then some (false, record mutex { holder_repeat_nr = mutex.holder_repeat_nr - 1 })
      else (do
        assert (mutex.holder_repeat_nr == 1)
        some (true, record mutex { holder = none; holder_repeat_nr = 0 }))
