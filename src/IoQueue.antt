-- ===== src/IoQueue.antt =====
-- The queue of bytes between an interrupt handler and the threads that read, of device/ioqueue.c and
-- device/ioqueue.h. `ioq_getchar` and `ioq_putchar` are cut where they may lose the CPU: the test, the
-- wait (behind `mutex_acquire` and before `mutex_release` of `Sync`), and what follows.
pub mod Ring
pub mod Fifo
mod Tests
use jack_os.Base.{
  ℕ, ◌+◌, ◌-◌, ◌%◌, Bool, true, false, Option, none, some, ◌==◌, if◌then◌else◌, leb, update, assert,
  ◌>>=◌, ◌>>◌,
}
use jack_os.Thread.{Tid, Kernel, task_blocked, is_off, thread_block, thread_unblock}
use jack_os.Sync.{Mutex, mutex_init}

abbrev pub bufsize : ℕ
bufsize = 64

-- `head` and `tail` are never negative.
pub record IoQueue : Type 0 where
  pub mutex : Mutex
  pub producer : Option Tid
  pub consumer : Option Tid
  pub buf : ℕ → ℕ
  pub head : ℕ
  pub tail : ℕ

abbrev pub next_pos : ℕ → ℕ
next_pos cur_pos = (cur_pos + 1) % bufsize

-- The buffer keeps what it held.
unfoldable pub ioqueue_init : IoQueue → IoQueue
ioqueue_init ioq = record ioq {
  mutex = mutex_init;
  head = 0;
  tail = 0;
  producer = none;
  consumer = none;
}

unfoldable pub ioq_full : IoQueue → Kernel → Option Bool
ioq_full ioq k = do assert (is_off k.intr); some (next_pos ioq.head == ioq.tail)

unfoldable pub ioq_empty : IoQueue → Kernel → Option Bool
ioq_empty ioq k = do assert (is_off k.intr); some (ioq.head == ioq.tail)

unfoldable pub ioq_length : IoQueue → ℕ
ioq_length ioq =
    if leb ioq.tail ioq.head then ioq.head - ioq.tail else bufsize - (ioq.tail - ioq.head)

abbrev pub is_null : Option Tid → Bool
is_null none = true
is_null (some t) = false

-- The waiter, and the state at which the CPU changes hands.
unfoldable pub ioq_wait : Option Tid → Kernel → Option (Option Tid × Kernel)
ioq_wait waiter k = do
  assert (is_null waiter)
  let waiter = some k.current
  k ← thread_block task_blocked k
  some (waiter, k)

unfoldable pub ioq_wakeup : Option Tid → Kernel → Option (Option Tid × Kernel)
ioq_wakeup none k = none
ioq_wakeup (some t) k = do k ← thread_unblock t k; some (none, k)

-- The wakeup of the thread that waits, if one does.
unfoldable pub wake_waiter : Option Tid → Kernel → Option (Option Tid × Kernel)
wake_waiter waiter k = if is_null waiter then some (waiter, k) else ioq_wakeup waiter k

-- Whether a consumer has to wait, and a producer.
unfoldable pub getchar_enter : IoQueue → Kernel → Option Bool
getchar_enter ioq k = do assert (is_off k.intr); ioq_empty ioq k

unfoldable pub putchar_enter : IoQueue → Kernel → Option Bool
putchar_enter ioq k = do assert (is_off k.intr); ioq_full ioq k

unfoldable pub getchar_wait : IoQueue → Kernel → Option (IoQueue × Kernel)
getchar_wait ioq k = do
  (consumer, k) ← ioq_wait ioq.consumer k
  some (record ioq { consumer = consumer }, k)

unfoldable pub putchar_wait : IoQueue → Kernel → Option (IoQueue × Kernel)
putchar_wait ioq k = do
  (producer, k) ← ioq_wait ioq.producer k
  some (record ioq { producer = producer }, k)

unfoldable pub getchar_finish : IoQueue → Kernel → Option (ℕ × IoQueue × Kernel)
getchar_finish ioq k = do
  let byte = ioq.buf ioq.tail
  let ioq = record ioq { tail = next_pos ioq.tail }
  (producer, k) ← wake_waiter ioq.producer k
  some (byte, record ioq { producer = producer }, k)

unfoldable pub putchar_finish : ℕ → IoQueue → Kernel → Option (IoQueue × Kernel)
putchar_finish byte ioq k = do
  let ioq = record ioq { buf = update ioq.buf ioq.head byte }
  let ioq = record ioq { head = next_pos ioq.head }
  (consumer, k) ← wake_waiter ioq.consumer k
  some (record ioq { consumer = consumer }, k)
