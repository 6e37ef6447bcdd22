-- ===== src/IoQueue/Fifo.antt =====
-- What `ioq_putchar` and `ioq_getchar` do to the sequence of bytes and to the threads that wait.
use jack_os.Base.{
  ℕ, ◌≡◌, ◌≢◌, refl, sym, ◌∙◌, ap, true, Bool-cases, Option, none, some, List, [], ◌∷◌, ◌++◌, arith,
  length, ◌==◌, if◌then◌else◌, update, inl, inr,
}
use jack_os.Interrupt.{intr_off}
use jack_os.Thread.{Tid, Kernel, task_blocked, sleeps, is_off}
use jack_os.Thread.Queue.{IsValid}
use jack_os.Thread.Calls.{thread_unblock_lem, thread_block_lem}
use jack_os.IoQueue.{
  IoQueue, next_pos, ioq_full, ioq_empty, ioq_length, is_null, ioq_wait, ioq_wakeup, wake_waiter,
  getchar_enter, putchar_enter, getchar_wait, getchar_finish, putchar_finish,
}
use jack_os.IoQueue.Ring.{
  contents, IsRing, length-contents, length-empty, length-full, put-contents, get-contents,
}

-- The thread that waits, if one does, sleeps.
abbrev pub Sleeps : Kernel → Option Tid → Type 0
Sleeps k none = Unit
Sleeps k (some t) = sleeps (k.status t) ≡ true

abbrev pub before : Option Tid → List Tid → List Tid
before none ts = ts
before (some t) ts = t ∷ ts

wake_waiter_lem :
    {k : Kernel} (w : Option Tid)
    → IsValid k
    → Sleeps k w
    → (k' : Kernel) × (wake_waiter w k ≡ some (none, k'))
      × IsValid k'
      × (k'.ready_list ≡ before w k.ready_list)
      × (k'.current ≡ k.current)
      × (k'.intr ≡ k.intr)
unfolding wake_waiter ioq_wakeup
wake_waiter_lem {k} none v s = (k, refl, v, refl, refl, refl)
wake_waiter_lem (some t) v s =
    let (k', e, valid, line, st, cur, flag) = thread_unblock_lem v t s in
    (k', rw e refl, valid, line, cur, flag)

pub putchar_finish_lem :
    {k : Kernel} (ioq : IoQueue) (byte : ℕ)
    → IsValid k
    → IsRing ioq
    → next_pos ioq.head ≢ ioq.tail
    → Sleeps k ioq.consumer
    → (ioq' : IoQueue) × (k' : Kernel) × (putchar_finish byte ioq k ≡ some (ioq', k'))
      × IsRing ioq'
      × IsValid k'
      × (contents ioq' ≡ contents ioq ++ byte ∷ [])
      × (ioq'.consumer ≡ none)
      × (k'.ready_list ≡ before ioq.consumer k.ready_list)
      × (k'.intr ≡ k.intr)
unfolding putchar_finish contents ioq_length
putchar_finish_lem ioq byte v ring room s =
    let (k', e, valid, line, cur, flag) = wake_waiter_lem ioq.consumer v s in
    (
      record ioq { buf = update ioq.buf ioq.head byte; head = next_pos ioq.head; consumer = none },
      k',
      rw e refl,
      record { head_in = omega arith; tail_in = ring.tail_in },
      valid,
      put-contents ioq byte ring room,
      refl,
      line,
      flag,
    )

-- `ioq_getchar`, past its wait: while the queue is not empty and the waiting producer sleeps, it does
-- not panic, takes the first byte of the queue, makes the producer the first of the ready list, and
-- leaves the interrupt flag.
pub getchar_finish_lem :
    {k : Kernel} (ioq : IoQueue)
    → IsValid k
    → IsRing ioq
    → ioq.head ≢ ioq.tail
    → Sleeps k ioq.producer
    → (byte : ℕ) × (ioq' : IoQueue) × (k' : Kernel) × (getchar_finish ioq k ≡ some (byte, ioq', k'))
      × IsRing ioq'
      × IsValid k'
      × (contents ioq ≡ byte ∷ contents ioq')
      × (ioq'.producer ≡ none)
      × (k'.ready_list ≡ before ioq.producer k.ready_list)
      × (k'.intr ≡ k.intr)
unfolding getchar_finish contents ioq_length
getchar_finish_lem ioq v ring more s =
    let (k', e, valid, line, cur, flag) = wake_waiter_lem ioq.producer v s in
    (
      ioq.buf ioq.tail,
      record ioq { tail = next_pos ioq.tail; producer = none },
      k',
      rw e refl,
      record { head_in = ring.head_in; tail_in = omega arith },
      valid,
      get-contents ioq ring more,
      refl,
      line,
      flag,
    )

-- With interrupts off, the test of `ioq_getchar` says that the queue has no byte, the one of
-- `ioq_putchar` that it has 63, and `ioq_length` is the number of bytes in it.
pub enter_lem :
    (k : Kernel) (ioq : IoQueue)
    → IsRing ioq
    → k.intr ≡ intr_off
    → (getchar_enter ioq k ≡ some (length (contents ioq) == 0))
      × (putchar_enter ioq k ≡ some (length (contents ioq) == 63))
      × (ioq_length ioq ≡ length (contents ioq))
unfolding getchar_enter putchar_enter ioq_empty ioq_full
enter_lem k ioq ring off =
    let flag : is_off k.intr ≡ true = ap is_off off in
    (
      rw (flag, length-contents ioq) (ap some (length-empty ioq ring)),
      rw (flag, length-contents ioq) (ap some (length-full ioq ring)),
      sym (length-contents ioq),
    )

-- A consumer that goes on although the queue is empty, which `ioq_getchar` does not test again after
-- its wait, makes a full queue of it: 63 bytes that nobody put there.
pub getchar_underrun :
    {k : Kernel} (ioq : IoQueue)
    → IsValid k
    → IsRing ioq
    → contents ioq ≡ []
    → Sleeps k ioq.producer
    → (byte : ℕ) × (ioq' : IoQueue) × (k' : Kernel) × (getchar_finish ioq k ≡ some (byte, ioq', k'))
      × (length (contents ioq') ≡ 63)
unfolding getchar_finish ioq_length
getchar_underrun ioq v ring none_left s =
    let (k', e, valid, line, cur, flag) = wake_waiter_lem ioq.producer v s in
    let z : ioq_length ioq ≡ 0 = sym (length-contents ioq) ∙ ap length none_left in
    let ioq' = record ioq { tail = next_pos ioq.tail; producer = none } in
    (
      ioq.buf ioq.tail,
      ioq',
      k',
      rw e refl,
      length-contents ioq' ∙ ground (arith, ring.head_in, ring.tail_in),
    )

-- The wait of `ioq_getchar`: a thread other than the idle one goes to sleep as the consumer, while none
-- waits; a second consumer panics.
pub getchar_wait_lem :
    {k : Kernel} (ioq : IoQueue)
    → IsValid k
    → k.current ≢ k.idle_thread
    → if is_null ioq.consumer
      then ((ioq' : IoQueue) × (k' : Kernel) × (getchar_wait ioq k ≡ some (ioq', k'))
          × IsValid k'
          × (ioq'.consumer ≡ some k.current)
          × (k'.status k.current ≡ task_blocked))
      else getchar_wait ioq k ≡ none
unfolding getchar_wait ioq_wait
getchar_wait_lem {k} ioq v busy = elim (Bool-cases (is_null ioq.consumer)) [
  | inl free ↦
      let (k', e, valid, line, same, off) = thread_block_lem v task_blocked refl (λ i. refl) in
      rw free (
        record ioq { consumer = some k.current },
        k',
        rw e refl,
        valid,
        refl,
        ground (arith, same.asleep k.current),
      )
  | inr taken ↦ rw taken refl
]
