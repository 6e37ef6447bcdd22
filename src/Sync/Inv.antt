-- ===== src/Sync/Inv.antt =====
-- The invariant of the threads that use one mutex.
use jack_os.Base.{◌≡◌, ◌≤◌, ◌<◌, Bool, true, false, none, some, has, Distinct}
use jack_os.Thread.{Tid, task_blocked}
use jack_os.Thread.Queue.{IsValid, is_awake}
use jack_os.Sync.System.{Pc, outside, down, got, inside, up, System}

-- The thread has taken the semaphore and not given it back.
abbrev pub owns : Pc → Bool
owns outside = false
owns down = false
owns got = true
owns inside = true
owns up = true

pub record IsSafe (s : System) : Type 0 where
  pub valid : IsValid s.kernel
  pub idle_outside : s.pc s.kernel.idle_thread ≡ outside
  pub binary : s.mutex.semaphore.value ≤ 1
  -- The semaphore is 1 exactly if nobody owns it, and nobody owns it beside another.
  pub one_owner : (t u : Tid) → owns (s.pc t) ≡ true → owns (s.pc u) ≡ true → t ≡ u
  pub free : s.mutex.semaphore.value ≡ 1 → (t : Tid) → owns (s.pc t) ≡ false
  pub taken : s.mutex.semaphore.value ≡ 0 → (t : Tid) × (owns (s.pc t) ≡ true)
  -- The holder is the thread between acquiring and releasing.
  pub held : (t : Tid) → s.pc t ≡ inside → s.mutex.holder ≡ some t
  pub holder : (t : Tid) → s.mutex.holder ≡ some t → s.pc t ≡ inside
  pub counted : (t : Tid) → s.mutex.holder ≡ some t → 0 < s.mutex.holder_repeat_nr
  pub unheld : s.mutex.holder ≡ none → s.mutex.holder_repeat_nr ≡ 0
  -- The waiters are the threads that sleep at the test, each once.
  pub distinct : Distinct s.mutex.semaphore.waiters
  pub waiter :
      (t : Tid)
      → has t s.mutex.semaphore.waiters ≡ true
      → (s.pc t ≡ down) × (s.kernel.status t ≡ task_blocked)
  pub waits :
      (t : Tid)
      → s.pc t ≡ down
      → is_awake (s.kernel.status t) ≡ false
      → has t s.mutex.semaphore.waiters ≡ true
  -- No wakeup is lost: while the semaphore is free, a waiter has a thread before it that is awake.
  pub awake :
      s.mutex.semaphore.value ≡ 1
      → (t : Tid) → has t s.mutex.semaphore.waiters ≡ true
      → (u : Tid) × (s.pc u ≡ down) × (is_awake (s.kernel.status u) ≡ true)
